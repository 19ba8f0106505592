-- ===== src/Paging/Table.antt =====
-- Finding and creating tables, src/MemoryManager/paging.c. A table is the address of its page, NULL
-- is 0, and a function that changes memory returns the new machine beside its result.
use mini_user_os.Prelude.{
  ℕ, zero, suc, ◌+◌, ◌*◌, ◌-◌, not, ◌||◌, ◌&&◌, ◌==◌, if◌then◌else◌, bit_and, bit_or,
}
use mini_user_os.Machine.{Machine, Memory, add64, null, write}
use mini_user_os.Pmm.{alloc_page}
use mini_user_os.Paging.Entry.{
  page_present, page_writable, page_user, page_large, page_addr_mask_2m, page_size_4k,
  get_pml4_index, get_pdpt_index, get_pd_index, get_table_ptr, is_present, is_large_page, slot,
}

-- `for (i; i < 512; i++) page[i] = 0`, with the rounds that are left as the first argument
unfoldable pub zero_from : ℕ → ℕ → ℕ → Memory → Memory
zero_from zero page i m = m
zero_from (suc left) page i m = zero_from left page (i + 1) (write m (slot page i) 0)

unfoldable pub zero_page : ℕ → Machine → Machine
zero_page page s = record s { mem = zero_from 512 page 0 s.mem }

unfoldable pub count_table : Machine → Machine
count_table s = record s {
  paging = record (s.paging) { tables_allocated = add64 s.paging.tables_allocated 1 };
}

-- The 512 entries of a table that maps what one 2 MB page mapped.
unfoldable pub fill_from : ℕ → ℕ → ℕ → ℕ → ℕ → Memory → Memory
fill_from zero pt phys_base flags i m = m
fill_from (suc left) pt phys_base flags i m =
    fill_from left pt phys_base flags (i + 1) (
      write m (slot pt i) (bit_or (bit_or (add64 phys_base (i * page_size_4k)) flags) page_present))

-- `old_entry & 0xFFF & ~PAGE_LARGE`
unfoldable pub split_flags : ℕ → ℕ
split_flags old_entry = bit_and (bit_and old_entry 0xFFF) (0xFFFF_FFFF_FFFF_FFFF - page_large)

-- The body behind the allocation of the new table `pt`.
unfoldable pub install_split : ℕ → ℕ → ℕ → ℕ → Machine → Machine
install_split pd pd_index old_entry pt s =
    let flags = split_flags old_entry in
    let s' = count_table s in
    record s' {
      mem =
          write (fill_from 512 pt (bit_and old_entry page_addr_mask_2m) flags 0 s'.mem)
            (slot pd pd_index)
            (bit_or (bit_or (bit_or pt page_present) page_writable) (bit_and flags page_user));
    }

unfoldable pub split_2mb_page : ℕ → ℕ → Machine → ℕ × Machine
split_2mb_page pd pd_index s =
    let old_entry = s.mem (slot pd pd_index) in
    if not (is_present old_entry) || not (is_large_page old_entry)
    then (null, s)
    else (let (pt, s') = alloc_page s in
        if pt == null then (null, s') else (pt, install_split pd pd_index old_entry pt s'))

-- The new table is cleared, counted and entered.
unfoldable pub install_table : ℕ → ℕ → ℕ → ℕ → Machine → Machine
install_table table index flags new_table s =
    let s' = count_table (zero_page new_table s) in
    record s' {
      mem =
          write s'.mem (slot table index) (
            bit_or (bit_or (bit_or new_table page_present) page_writable)
              (bit_and flags page_user));
    }

unfoldable pub get_or_create_table : ℕ → ℕ → ℕ → Machine → ℕ × Machine
get_or_create_table table index flags s =
    let entry = s.mem (slot table index) in
    if is_present entry
    then (if is_large_page entry then (null, s) else (get_table_ptr entry, s))
    else (let (new_table, s') = alloc_page s in
        if new_table == null
        then (null, s')
        else (new_table, install_table table index flags new_table s'))

-- The page directory's part of `get_or_create_pt`.
unfoldable pub get_or_split : ℕ → ℕ → ℕ → Machine → ℕ × Machine
get_or_split pd pd_idx flags s =
    let entry = s.mem (slot pd pd_idx) in
    if is_present entry && is_large_page entry
    then split_2mb_page pd pd_idx s
    else get_or_create_table pd pd_idx flags s

-- `get_or_create_pt` behind the page directory, and behind the page directory pointer table.
unfoldable pub pt_below_pd : ℕ → ℕ → ℕ → Machine → ℕ × Machine
pt_below_pd pd virt flags s2 =
    if pd == null then (null, s2) else get_or_split pd (get_pd_index virt) flags s2

unfoldable pub pt_below_pdpt : ℕ → ℕ → ℕ → Machine → ℕ × Machine
pt_below_pdpt pdpt virt flags s1 =
    let entry = s1.mem (slot pdpt (get_pdpt_index virt)) in
    if pdpt == null
    then (null, s1)
    else if is_present entry && is_large_page entry
    then (null, s1)
    else (let (pd, s2) = get_or_create_table pdpt (get_pdpt_index virt) flags s1 in
        pt_below_pd pd virt flags s2)

unfoldable pub get_or_create_pt : ℕ → ℕ → ℕ → Machine → ℕ × Machine
get_or_create_pt pml4 virt flags s =
    let (pdpt, s1) = get_or_create_table pml4 (get_pml4_index virt) flags s in
    pt_below_pdpt pdpt virt flags s1

unfoldable pub get_table : ℕ → ℕ → Memory → ℕ
get_table table index m =
    let entry = m (slot table index) in
    if not (is_present entry)
    then null
    else if is_large_page entry
    then null
    else get_table_ptr entry
