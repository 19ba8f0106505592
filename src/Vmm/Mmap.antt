-- ===== src/Vmm/Mmap.antt =====
-- Mapping, unmapping and protecting ranges of an address space, src/MemoryManager/vmm.c.
use mini_user_os.Prelude.{
  ℕ, zero, suc, ◌+◌, ◌/◌, Bool, true, false, ◌||◌, ◌==◌, if◌then◌else◌, bit_and, bit_or,
}
use mini_user_os.Machine.{Machine, add64, null}
use mini_user_os.Paging.Entry.{page_present, page_writable, page_user}
use mini_user_os.Paging.Map.{map_page, unmap_page}
use mini_user_os.Vmm.Structs.{
  space_pml4, region_free, region_read, region_write, region_exec, region_user, region_mmap,
  flags_of, put_flags, not64, align_up, align_down,
}
use mini_user_os.Vmm.Regions.{find_region, find_free_region, create_region}
use mini_user_os.Vmm.Phys.{virt_to_phys}
use mini_user_os.Vmm.Pages.{page_at, page_flags_of}

-- The flags of pages that are mapped to given addresses.
unfoldable pub mapped_flags_of : ℕ → ℕ
mapped_flags_of flags =
    let f1 =
      if bit_and flags region_write == 0 then page_present else bit_or page_present page_writable in
    if bit_and flags region_user == 0 then f1 else bit_or f1 page_user

-- `for (i; i < pages; i++)`, with the rounds that are left first
unfoldable pub map_from : ℕ → ℕ → ℕ → ℕ → ℕ → ℕ → Machine → Machine
map_from zero i virt phys_addr pml4 page_flags s = s
map_from (suc left) i virt phys_addr pml4 page_flags s =
    map_from left (i + 1) virt phys_addr pml4 page_flags
      (map_page pml4 (page_at virt i) (page_at phys_addr i) page_flags s).1

unfoldable pub map_physical : ℕ → ℕ → ℕ → ℕ → ℕ → Machine → ℕ × Machine
map_physical fuel space phys_addr size flags s =
    let size' = align_up size 4096 in
    let virt = find_free_region fuel space size' s.mem in
    let s1 =
      map_from (size' / 4096) 0 virt (align_down phys_addr 4096) (s.mem (space_pml4 space))
        (mapped_flags_of flags) s in
    if space == null || size == 0
    then (null, s)
    else if virt == 0
    then (null, s)
    else (virt, (create_region fuel space virt (add64 virt size') (bit_or flags region_mmap) s1).1)

unfoldable pub unmap_from : ℕ → ℕ → ℕ → ℕ → Machine → Machine
unmap_from zero i virt pml4 s = s
unmap_from (suc left) i virt pml4 s =
    unmap_from left (i + 1) virt pml4 (unmap_page pml4 (page_at virt i) s).1

unfoldable pub unmap : ℕ → ℕ → ℕ → ℕ → Machine → Machine
unmap fuel space virt_addr size s =
    let virt = align_down virt_addr 4096 in
    let s1 = unmap_from (align_up size 4096 / 4096) 0 virt (s.mem (space_pml4 space)) s in
    let r = find_region fuel space virt s1.mem in
    if space == null || virt_addr == null || size == 0
    then s
    else if r == null
    then s1
    else put_flags r region_free s1

-- A page that is mapped is unmapped and mapped again.
unfoldable pub remap_page : ℕ → ℕ → ℕ → Machine → Machine
remap_page pml4 virt page_flags s =
    let phys = virt_to_phys pml4 virt s.mem in
    if phys == 0 then s else (map_page pml4 virt phys page_flags (unmap_page pml4 virt s).1).1

unfoldable pub protect_pages : ℕ → ℕ → ℕ → ℕ → ℕ → Machine → Machine
protect_pages zero i virt pml4 page_flags s = s
protect_pages (suc left) i virt pml4 page_flags s =
    protect_pages left (i + 1) virt pml4 page_flags (remap_page pml4 (page_at virt i) page_flags s)

-- `REGION_READ | REGION_WRITE | REGION_EXEC`
abbrev pub access_mask : ℕ
access_mask = bit_or (bit_or region_read region_write) region_exec

unfoldable pub protect : ℕ → ℕ → ℕ → ℕ → ℕ → Machine → Bool × Machine
protect fuel space addr size flags s =
    let virt = align_down addr 4096 in
    let s1 =
      protect_pages (align_up size 4096 / 4096) 0 virt (s.mem (space_pml4 space))
        (page_flags_of flags) s in
    let r = find_region fuel space virt s1.mem in
    let kept = bit_and (flags_of s1.mem r) (not64 access_mask) in
    if space == null || addr == null || size == 0
    then (false, s)
    else if r == null
    then (true, s1)
    else (true, put_flags r (bit_or kept flags) s1)
