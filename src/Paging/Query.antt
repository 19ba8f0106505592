-- ===== src/Paging/Query.antt =====
-- Queries and flag changes, src/MemoryManager/paging.c. A query reads memory only.
use mini_user_os.Prelude.{
  ℕ, ◌-◌, Bool, true, false, not, ◌||◌, ◌&&◌, ◌==◌, if◌then◌else◌, bit_and, bit_or,
}
use mini_user_os.Machine.{Machine, null, write}
use mini_user_os.Paging.Entry.{
  page_present, page_large, page_addr_mask_4k, page_addr_mask_2m, page_addr_mask_1g, page_size_4k,
  page_size_2m, page_size_1g, get_pml4_index, get_pdpt_index, get_pd_index, get_pt_index,
  get_table_ptr, is_present, is_large_page, slot, invalidate_page,
}
use mini_user_os.Paging.Table.{get_table}
use mini_user_os.Paging.Map.{root_of}

unfoldable pub is_mapped : ℕ → ℕ → Machine → Bool
is_mapped pml4 virt s =
    let root = root_of pml4 s in
    let e4 = s.mem (slot root (get_pml4_index virt)) in
    let e3 = s.mem (slot (get_table_ptr e4) (get_pdpt_index virt)) in
    let e2 = s.mem (slot (get_table_ptr e3) (get_pd_index virt)) in
    let e1 = s.mem (slot (get_table_ptr e2) (get_pt_index virt)) in
    if root == null
    then false
    else if not (is_present e4)
    then false
    else if not (is_present e3)
    then false
    else if is_large_page e3
    then true
    else if not (is_present e2)
    then false
    else if is_large_page e2
    then true
    else is_present e1

unfoldable pub get_phys : ℕ → ℕ → Machine → ℕ
get_phys pml4 virt s =
    let root = root_of pml4 s in
    let e4 = s.mem (slot root (get_pml4_index virt)) in
    let e3 = s.mem (slot (get_table_ptr e4) (get_pdpt_index virt)) in
    let e2 = s.mem (slot (get_table_ptr e3) (get_pd_index virt)) in
    let e1 = s.mem (slot (get_table_ptr e2) (get_pt_index virt)) in
    if root == null
    then 0
    else if not (is_present e4)
    then 0
    else if not (is_present e3)
    then 0
    else if is_large_page e3
    then bit_or (bit_and e3 page_addr_mask_1g) (bit_and virt (page_size_1g - 1))
    else if not (is_present e2)
    then 0
    else if is_large_page e2
    then bit_or (bit_and e2 page_addr_mask_2m) (bit_and virt (page_size_2m - 1))
    else if not (is_present e1)
    then 0
    else bit_or (bit_and e1 page_addr_mask_4k) (bit_and virt (page_size_4k - 1))

-- The last level is not tested for being present.
unfoldable pub get_flags : ℕ → ℕ → Machine → ℕ
get_flags pml4 virt s =
    let root = root_of pml4 s in
    let e4 = s.mem (slot root (get_pml4_index virt)) in
    let e3 = s.mem (slot (get_table_ptr e4) (get_pdpt_index virt)) in
    let e2 = s.mem (slot (get_table_ptr e3) (get_pd_index virt)) in
    let e1 = s.mem (slot (get_table_ptr e2) (get_pt_index virt)) in
    if root == null
    then 0
    else if not (is_present e4)
    then 0
    else if not (is_present e3)
    then 0
    else if is_large_page e3
    then bit_and e3 0xFFF
    else if not (is_present e2)
    then 0
    else if is_large_page e2
    then bit_and e2 0xFFF
    else bit_and e1 0xFFF

-- The write of an entry with new flags, and the flush.
unfoldable pub replace_entry : ℕ → ℕ → ℕ → ℕ → Machine → Machine
replace_entry table index entry virt s =
    invalidate_page virt (record s { mem = write s.mem (slot table index) entry })

unfoldable pub set_flags : ℕ → ℕ → ℕ → Machine → Bool × Machine
unfolding replace_entry
set_flags pml4 virt flags s =
    let root = root_of pml4 s in
    let pdpt = get_table root (get_pml4_index virt) s.mem in
    let e3 = s.mem (slot pdpt (get_pdpt_index virt)) in
    let pd = get_table pdpt (get_pdpt_index virt) s.mem in
    let e2 = s.mem (slot pd (get_pd_index virt)) in
    let pt = get_table pd (get_pd_index virt) s.mem in
    let e1 = s.mem (slot pt (get_pt_index virt)) in
    if root == null || pdpt == null
    then (false, s)
    else if is_present e3 && is_large_page e3
    then (
      true,
      replace_entry pdpt (get_pdpt_index virt)
          (bit_or (bit_or (bit_or (bit_and e3 page_addr_mask_1g) flags) page_present) page_large)
          virt s,
    )
    else if pd == null
    then (false, s)
    else if is_present e2 && is_large_page e2
    then (
      true,
      replace_entry pd (get_pd_index virt)
          (bit_or (bit_or (bit_or (bit_and e2 page_addr_mask_2m) flags) page_present) page_large)
          virt s,
    )
    else if pt == null
    then (false, s)
    else if not (is_present e1)
    then (false, s)
    else (
      true,
      replace_entry pt (get_pt_index virt)
          (bit_or (bit_or (bit_and e1 page_addr_mask_4k) flags) page_present) virt s,
    )
