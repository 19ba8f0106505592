-- ===== src/Vmm/Pages.antt =====
-- Allocating and freeing pages of an address space, src/MemoryManager/vmm.c.
use mini_user_os.Prelude.{
  ℕ, zero, suc, ◌+◌, ◌*◌, ◌/◌, ◌%◌, Bool, true, false, not, ◌||◌, ◌&&◌, ◌==◌, leb, ltb,
  if◌then◌else◌, bit_and, bit_or,
}
use mini_user_os.Machine.{Machine, Memory, add64, word, null}
use mini_user_os.Pmm.{alloc_page, free_page}
use mini_user_os.Paging.Entry.{page_present, page_writable, page_user}
use mini_user_os.Paging.Map.{map_page, unmap_page}
use mini_user_os.Vmm.Structs.{
  region_start, region_end, region_next, region_prev, space_pml4, space_regions, region_free,
  region_used, region_read, region_write, region_exec, region_user, page_no_execute, flags_of, put,
  put_flags, align_down, clear,
}
use mini_user_os.Vmm.Regions.{find_region, find_free_region, create_region}
use mini_user_os.Vmm.Phys.{virt_to_phys, frame_of}

-- `(count + 4095) / 4096`
abbrev pub pages_of : ℕ → ℕ
pages_of count = add64 count 4095 / 4096

abbrev pub page_at : ℕ → ℕ → ℕ
page_at start i = add64 start ((i * 4096) % word)

-- The flags of the pages of a region.
unfoldable pub page_flags_of : ℕ → ℕ
page_flags_of flags =
    let f1 =
      if bit_and flags region_write == 0 then page_present else bit_or page_present page_writable in
    let f2 = if bit_and flags region_user == 0 then f1 else bit_or f1 page_user in
    if bit_and flags region_exec == 0 then bit_or f2 page_no_execute else f2

-- `if (p) pmm_free_page(p)`
abbrev pub free_if : ℕ → Machine → Machine
free_if p s = if p == 0 then s else free_page p s

-- `for (j; j < i; j++)` of the roll back, with the rounds that are left first
unfoldable pub roll_back : ℕ → ℕ → ℕ → ℕ → Machine → Machine
roll_back zero j first_virt pml4 s = s
roll_back (suc left) j first_virt pml4 s =
    let addr = page_at first_virt j in
    let p = virt_to_phys pml4 addr s.mem in
    roll_back left (j + 1) first_virt pml4 (free_if p (unmap_page pml4 addr s).1)

-- `for (i; i < pages; i++)`: a page is allocated, cleared and mapped. The result of `paging_map_page` is
-- not tested. A failed allocation rolls back.
unfoldable pub map_fresh : ℕ → ℕ → ℕ → ℕ → ℕ → Machine → Bool × Machine
map_fresh zero i virt pml4 page_flags s = (true, s)
map_fresh (suc left) i virt pml4 page_flags s =
    let (phys, s1) = alloc_page s in
    let s2 = (map_page pml4 (page_at virt i) phys page_flags (clear 512 phys s1)).1 in
    let rest = map_fresh left (i + 1) virt pml4 page_flags s2 in
    if phys == null then (false, roll_back i 0 virt pml4 s1) else rest

-- The free region `r` gives the pages from `virt` to `region_end` away.
unfoldable pub carve_region : ℕ → ℕ → ℕ → ℕ → ℕ → ℕ → Machine → Machine
carve_region fuel space r virt last flags s =
    let start = s.mem (region_start r) in
    let end = s.mem (region_end r) in
    if (start == virt) && (last == end)
    then put_flags r flags s
    else if start == virt
    then (let (new_r, s1) = create_region fuel space virt last flags s in
        if new_r == null then s1 else put (region_start r) last s1)
    else if last == end
    then (create_region fuel space virt last flags (put (region_end r) virt s)).1
    else (let s1 = (create_region fuel space virt last flags (put (region_end r) virt s)).1 in
        (create_region fuel space last end region_free s1).1)

-- The loop that looks for the free region of the pages.
unfoldable pub occupy_from : ℕ → ℕ → ℕ → ℕ → ℕ → ℕ → Machine → Machine
occupy_from zero space r virt last flags s = s
occupy_from (suc fuel) space r virt last flags s =
    let rest = occupy_from fuel space (s.mem (region_next r)) virt last flags s in
    if r == null
    then s
    else if (flags_of s.mem r == region_free)
        && leb (s.mem (region_start r)) virt
        && ltb virt (s.mem (region_end r))
    then carve_region fuel space r virt last flags s
    else rest

-- The part of `vmm_alloc_pages_at` behind the choice of the address.
unfoldable pub alloc_at : ℕ → ℕ → ℕ → ℕ → ℕ → Machine → ℕ × Machine
alloc_at fuel space virt pages flags s =
    let (ok, s1) = map_fresh pages 0 virt (s.mem (space_pml4 space)) (page_flags_of flags) s in
    if ok
    then (
      virt,
      occupy_from fuel space (s1.mem (space_regions space)) virt (page_at virt pages) flags s1,
    )
    else (null, s1)

-- `r && !(r->flags & REGION_FREE)`
unfoldable pub is_taken : ℕ → Memory → Bool
is_taken r m = not (r == null) && (bit_and (flags_of m r) region_free == 0)

unfoldable pub alloc_pages_at : ℕ → ℕ → ℕ → ℕ → ℕ → Machine → ℕ × Machine
alloc_pages_at fuel space virt_addr count flags s =
    let pages = pages_of count in
    let found = find_free_region fuel space ((pages * 4096) % word) s.mem in
    let virt = align_down virt_addr 4096 in
    if space == null || count == 0
    then (null, s)
    else if virt_addr == 0
    then (if found == 0 then (null, s) else alloc_at fuel space found pages flags s)
    else if is_taken (find_region fuel space virt s.mem) s.mem
    then (null, s)
    else alloc_at fuel space virt pages flags s

unfoldable pub alloc_pages : ℕ → ℕ → ℕ → Machine → ℕ × Machine
alloc_pages fuel space count s =
    alloc_pages_at fuel space 0 count (bit_or (bit_or region_used region_read) region_write) s

-- `for (i; i < pages; i++)` of `vmm_free_pages`
unfoldable pub release_from : ℕ → ℕ → ℕ → ℕ → Machine → Machine
release_from zero i virt pml4 s = s
release_from (suc left) i virt pml4 s =
    let current_virt = page_at virt i in
    let phys = virt_to_phys pml4 current_virt s.mem in
    release_from left (i + 1) virt pml4
      (if phys == 0 then s else free_page (frame_of phys) (unmap_page pml4 current_virt s).1)

-- A free region behind another is joined to it.
abbrev pub is_free_region : ℕ → Memory → Bool
is_free_region r m = not (r == null) && (flags_of m r == region_free)

-- The region before `r` takes `r` in, if it is free; the region that is left is returned.
unfoldable pub join_prev : ℕ → Machine → ℕ × Machine
join_prev r s =
    let prev = s.mem (region_prev r) in
    let next = s.mem (region_next r) in
    let s1 = put (region_next prev) next (put (region_end prev) (s.mem (region_end r)) s) in
    let s2 = if next == null then s1 else put (region_prev next) prev s1 in
    if is_free_region prev s.mem then (prev, free_page r s2) else (r, s)

unfoldable pub join_next : ℕ → Machine → Machine
join_next r s =
    let next = s.mem (region_next r) in
    let after = s.mem (region_next next) in
    let s1 = put (region_next r) after (put (region_end r) (s.mem (region_end next)) s) in
    let s2 = if after == null then s1 else put (region_prev after) r s1 in
    if is_free_region next s.mem then free_page next s2 else s

unfoldable pub free_pages : ℕ → ℕ → ℕ → ℕ → Machine → Machine
free_pages fuel space addr count s =
    let s1 = release_from (pages_of count) 0 addr (s.mem (space_pml4 space)) s in
    let r = find_region fuel space addr s1.mem in
    let (joined, s2) = join_prev r (put_flags r region_free s1) in
    if space == null || addr == null || count == 0
    then s
    else if r == null
    then s1
    else join_next joined s2
