-- ===== src/Paging/Boot.antt =====
-- `paging_init`, src/MemoryManager/paging.c: the kernel's page tables, step by step as in the source.
-- Its inputs are the framebuffer's address and size, the instruction pointer and the memory map; the
-- messages to the console are left out.
use mini_user_os.Prelude.{
  ℕ, zero, suc, ◌+◌, ◌*◌, ◌-◌, Option, none, some, not, ◌&&◌, ◌||◌, ◌==◌, leb, ltb, if◌then◌else◌,
  List, [], ◌∷◌, bit_or,
}
use mini_user_os.Machine.{Machine, PagingContext, add64, null}
use mini_user_os.MemoryMap.{MemoryRegion}
use mini_user_os.Pmm.{alloc_page}
use mini_user_os.Paging.Entry.{
  page_writable, page_nocache, page_writethrough, page_size_4k, page_size_2m, load_cr3,
}
use mini_user_os.Paging.Table.{zero_page}
use mini_user_os.Paging.Map.{map_page, map_2mb}
use mini_user_os.Paging.Range.{align_2mb}
use mini_user_os.Paging.Query.{is_mapped}

abbrev pub kernel_vma : ℕ
kernel_vma = 0xFFFFFFFF80000000

abbrev pub four_gb : ℕ
four_gb = 0x100000000

-- The block that holds the APICs' registers is mapped uncacheable.
unfoldable pub identity_flags : ℕ → ℕ
identity_flags addr =
    if leb 0xFEC00000 addr && ltb addr 0xFF000000
    then bit_or page_writable (bit_or page_nocache page_writethrough)
    else page_writable

-- `for (addr; addr < end; addr += PAGE_SIZE_2M) paging_map_2mb(…)`; the results are ignored.
unfoldable pub map_blocks : (ℕ → ℕ) → ℕ → ℕ → ℕ → ℕ → Machine → Option Machine
map_blocks flags_at zero pml4 addr end s = none
map_blocks flags_at (suc fuel) pml4 addr end s =
    let rest =
      map_blocks flags_at fuel pml4 (add64 addr page_size_2m) end
        (map_2mb pml4 addr addr (flags_at addr) s).1 in
    if ltb addr end then rest else some s

-- Step 2: a framebuffer above 4 GB.
unfoldable pub map_framebuffer : ℕ → ℕ → ℕ → ℕ → Machine → Option Machine
unfolding map_blocks
map_framebuffer fuel pml4 fb_addr fb_size s =
    if leb four_gb fb_addr
    then map_blocks (λ _. bit_or page_writable page_nocache) fuel pml4 (align_2mb fb_addr)
        (align_2mb (add64 (add64 fb_addr fb_size) (page_size_2m - 1))) s
    else some s

-- `for (p; p < pages; p++)` of step 3
unfoldable pub map_higher_half : ℕ → ℕ → ℕ → ℕ → ℕ → Machine → Machine
map_higher_half zero pml4 phys_base flags p s = s
map_higher_half (suc left) pml4 phys_base flags p s =
    map_higher_half left pml4 phys_base flags (p + 1)
      (map_page pml4 (add64 (add64 kernel_vma phys_base) (p * page_size_4k))
        (add64 phys_base (p * page_size_4k)) flags s).1

-- Step 3: `loader_code` and `loader_data` are EfiLoaderCode and EfiLoaderData.
unfoldable pub map_loader_regions : ℕ → ℕ → ℕ → List MemoryRegion → Machine → Machine
unfolding map_higher_half
map_loader_regions loader_code loader_data pml4 [] s = s
map_loader_regions loader_code loader_data pml4 (r ∷ rs) s =
    map_loader_regions loader_code loader_data pml4 rs (
      if (r.type == loader_code) || (r.type == loader_data)
      then map_higher_half r.pages pml4 r.base (if r.type == loader_code then 0 else page_writable)
          0 s
      else s)

unfoldable pub max_end : List MemoryRegion → ℕ → ℕ
max_end [] max_phys = max_phys
max_end (r ∷ rs) max_phys =
    let end = add64 r.base (r.pages * page_size_4k) in
    max_end rs (if ltb max_phys end then end else max_phys)

-- Step 4: physical memory above 4 GB.
unfoldable pub map_high_memory : ℕ → ℕ → ℕ → Machine → Option Machine
unfolding map_blocks
map_high_memory fuel pml4 max_phys s =
    if ltb four_gb max_phys
    then map_blocks (λ _. page_writable) fuel pml4 four_gb max_phys s
    else some s

abbrev then_do : Option Machine → (Machine → Option Machine) → Option Machine
then_do m k = elim m [ none ↦ none | some s ↦ k s ]

-- Steps 1 to 4 on a new table.
unfoldable pub build_tables :
    (fuel loader_code loader_data fb_addr fb_size pml4 : ℕ)
    → List MemoryRegion
    → Machine
    → Option Machine
unfolding map_blocks identity_flags map_framebuffer map_loader_regions map_high_memory max_end
build_tables fuel loader_code loader_data fb_addr fb_size pml4 regions s =
    then_do (map_blocks identity_flags fuel pml4 0 four_gb s) λ s1.
      then_do (map_framebuffer fuel pml4 fb_addr fb_size s1) λ s2.
        map_high_memory fuel pml4 (max_end regions 0)
          (map_loader_regions loader_code loader_data pml4 regions s2)

-- Steps 5 and 6: the new tables are loaded only if they map the framebuffer and the running code.
unfoldable pub activate : (fb_addr rip pml4 : ℕ) → Machine → Machine
activate fb_addr rip pml4 s =
    if not (is_mapped pml4 fb_addr s)
    then s
    else if not (is_mapped pml4 rip s)
    then s
    else load_cr3 pml4 s

unfoldable pub fresh_context : ℕ → PagingContext
fresh_context pml4 = record { pml4 = pml4; total_mapped = 0; tables_allocated = 1 }

unfoldable pub paging_init :
    (fuel loader_code loader_data fb_addr fb_size rip : ℕ)
    → List MemoryRegion
    → Machine
    → Option Machine
unfolding build_tables activate fresh_context
paging_init fuel loader_code loader_data fb_addr fb_size rip regions s =
    let (pml4, s1) = alloc_page s in
    if pml4 == null
    then some s1
    else then_do
        (build_tables fuel loader_code loader_data fb_addr fb_size pml4 regions
          (record (zero_page pml4 s1) { paging = fresh_context pml4 }))
        λ s2. some (activate fb_addr rip pml4 s2)
