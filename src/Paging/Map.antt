-- ===== src/Paging/Map.antt =====
-- Mapping and unmapping of single pages, src/MemoryManager/paging.c.
use mini_user_os.Prelude.{
  ℕ, ◌-◌, Bool, true, false, not, ◌||◌, ◌==◌, if◌then◌else◌, bit_and, bit_or,
}
use mini_user_os.Machine.{Machine, add64, null, write}
use mini_user_os.Paging.Entry.{
  page_present, page_large, page_addr_mask_4k, page_addr_mask_2m, page_addr_mask_1g, page_size_4k,
  page_size_2m, page_size_1g, get_pml4_index, get_pdpt_index, get_pd_index, get_pt_index,
  is_present, is_large_page, slot, invalidate_page,
}
use mini_user_os.Paging.Table.{get_or_create_table, get_or_create_pt, get_table}

-- `if (!pml4) pml4 = g_kernel_paging.pml4;`
abbrev pub root_of : ℕ → Machine → ℕ
root_of pml4 s = if pml4 == null then s.paging.pml4 else pml4

-- The write of a leaf entry, with the bytes counted as mapped.
unfoldable pub install_leaf : ℕ → ℕ → ℕ → ℕ → Machine → Machine
install_leaf table index entry size s = record s {
  mem = write s.mem (slot table index) entry;
  paging = record (s.paging) { total_mapped = add64 s.paging.total_mapped size };
}

abbrev pub leaf_4k : ℕ → ℕ → ℕ
leaf_4k phys flags = bit_or (bit_or (bit_and phys page_addr_mask_4k) flags) page_present

unfoldable pub map_page : ℕ → ℕ → ℕ → ℕ → Machine → Bool × Machine
map_page pml4 virt phys flags s =
    let root = root_of pml4 s in
    if root == null
    then (false, s)
    else (let (pt, s') = get_or_create_pt root virt flags s in
        if pt == null
        then (false, s')
        else (true, install_leaf pt (get_pt_index virt) (leaf_4k phys flags) page_size_4k s'))

unfoldable pub map_2mb : ℕ → ℕ → ℕ → ℕ → Machine → Bool × Machine
map_2mb pml4 virt phys flags s =
    let root = root_of pml4 s in
    if root == null
    then (false, s)
    else if not (bit_and virt (page_size_2m - 1) == 0) || not (bit_and phys (page_size_2m - 1) == 0)
    then (false, s)
    else (let (pdpt, s1) = get_or_create_table root (get_pml4_index virt) flags s in
        if pdpt == null
        then (false, s1)
        else (let (pd, s2) = get_or_create_table pdpt (get_pdpt_index virt) flags s1 in
            if pd == null then (false, s2) else (
              true,
              install_leaf pd (get_pd_index virt)
                  (bit_or (bit_or (bit_or (bit_and phys page_addr_mask_2m) flags) page_present)
                    page_large)
                  page_size_2m s2,
            )))

unfoldable pub map_1gb : ℕ → ℕ → ℕ → ℕ → Machine → Bool × Machine
map_1gb pml4 virt phys flags s =
    let root = root_of pml4 s in
    if root == null
    then (false, s)
    else if not (bit_and virt (page_size_1g - 1) == 0) || not (bit_and phys (page_size_1g - 1) == 0)
    then (false, s)
    else (let (pdpt, s1) = get_or_create_table root (get_pml4_index virt) flags s in
        if pdpt == null then (false, s1) else (
          true,
          install_leaf pdpt (get_pdpt_index virt)
              (bit_or (bit_or (bit_or (bit_and phys page_addr_mask_1g) flags) page_present)
                page_large)
              page_size_1g s1,
        ))

-- `entry = 0` and the flush of the TLB.
unfoldable pub clear_leaf : ℕ → ℕ → ℕ → Machine → Machine
clear_leaf table index virt s =
    invalidate_page virt (record s { mem = write s.mem (slot table index) 0 })

unfoldable pub unmap_page : ℕ → ℕ → Machine → Bool × Machine
unmap_page pml4 virt s =
    let root = root_of pml4 s in
    let pdpt = get_table root (get_pml4_index virt) s.mem in
    let pd = get_table pdpt (get_pdpt_index virt) s.mem in
    let pt = get_table pd (get_pd_index virt) s.mem in
    if root == null || pdpt == null || pd == null || pt == null
    then (false, s)
    else if not (is_present (s.mem (slot pt (get_pt_index virt))))
    then (false, s)
    else (true, clear_leaf pt (get_pt_index virt) virt s)

unfoldable pub unmap_2mb : ℕ → ℕ → Machine → Bool × Machine
unmap_2mb pml4 virt s =
    let root = root_of pml4 s in
    let pdpt = get_table root (get_pml4_index virt) s.mem in
    let pd = get_table pdpt (get_pdpt_index virt) s.mem in
    let entry = s.mem (slot pd (get_pd_index virt)) in
    if root == null || pdpt == null || pd == null
    then (false, s)
    else if not (is_present entry) || not (is_large_page entry)
    then (false, s)
    else (true, clear_leaf pd (get_pd_index virt) virt s)
