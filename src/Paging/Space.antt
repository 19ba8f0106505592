-- ===== src/Paging/Space.antt =====
-- Address spaces, src/MemoryManager/paging.c: new, cloned and destroyed tables.
use mini_user_os.Prelude.{ℕ, zero, suc, ◌+◌, not, ◌||◌, ◌&&◌, ◌==◌, if◌then◌else◌, bit_and, bit_or}
use mini_user_os.Machine.{Machine, null, write}
use mini_user_os.Pmm.{alloc_page, free_page}
use mini_user_os.Paging.Entry.{get_table_ptr, is_present, is_large_page, slot, load_cr3}
use mini_user_os.Paging.Table.{zero_page}
use mini_user_os.Paging.Map.{root_of}

-- `for (i; i < 512; i++) pml4[i] = kernel[i]`, with the rounds that are left first
unfoldable pub copy_from : ℕ → ℕ → ℕ → ℕ → Machine → Machine
copy_from zero dst src i s = s
copy_from (suc left) dst src i s =
    copy_from left dst src (i + 1)
      (record s { mem = write s.mem (slot dst i) (s.mem (slot src i)) })

unfoldable pub create_address_space : Machine → ℕ × Machine
unfolding copy_from
create_address_space s =
    let (pml4, s1) = alloc_page s in
    let s2 = zero_page pml4 s1 in
    if pml4 == null
    then (null, s1)
    else (pml4, (if s2.paging.pml4 == null then s2 else copy_from 256 pml4 s2.paging.pml4 256 s2))

-- The rounds of the loop of `clone_table` that are left; `clone_sub` clones a table one level down.
unfoldable pub clone_entries : (ℕ → Machine → ℕ × Machine) → ℕ → ℕ → ℕ → ℕ → ℕ → Machine → Machine
clone_entries clone_sub level zero dst src i s = s
clone_entries clone_sub level (suc left) dst src i s =
    let entry = s.mem (slot src i) in
    let (sub, s1) = clone_sub (get_table_ptr entry) s in
    clone_entries clone_sub level left dst src (i + 1) (
      if not (is_present entry)
      then s
      else if is_large_page entry || (level == 1)
      then record s { mem = write s.mem (slot dst i) entry }
      else if sub == null
      then s1
      else record s1 {
        mem = write s1.mem (slot dst i) (bit_or sub (bit_and (s1.mem (slot src i)) 0xFFF));
      })

-- The levels are at most 4, so the recursion is on the level; at level 1 there is no call below.
unfoldable pub clone_table : ℕ → ℕ → Machine → ℕ × Machine
unfolding clone_entries
clone_table zero src s = (null, s)
clone_table (suc level) src s =
    let (dst, s1) = alloc_page s in
    if src == null
    then (null, s)
    else if dst == null
    then (null, s1)
    else (dst, clone_entries (clone_table level) (suc level) 512 dst src 0 (zero_page dst s1))

unfoldable pub clone_address_space : ℕ → Machine → ℕ × Machine
unfolding clone_table
clone_address_space src_pml4 s =
    if root_of src_pml4 s == null then (null, s) else clone_table 4 (root_of src_pml4 s) s

-- The rounds of the loop of `free_table` that are left; `free_sub` frees a table one level down.
unfoldable pub free_entries : (ℕ → Machine → Machine) → ℕ → ℕ → ℕ → ℕ → Machine → Machine
free_entries free_sub level zero table i s = s
free_entries free_sub level (suc left) table i s =
    let entry = s.mem (slot table i) in
    free_entries free_sub level left table (i + 1) (
      if not (is_present entry) || is_large_page entry || (level == 1)
      then s
      else free_sub (get_table_ptr entry) s)

unfoldable pub free_table : ℕ → ℕ → Machine → Machine
unfolding free_entries
free_table zero table s = s
free_table (suc level) table s =
    if table == null
    then s
    else free_page table (free_entries (free_table level) (suc level) 512 table 0 s)

unfoldable pub free_lower_half : ℕ → ℕ → ℕ → Machine → Machine
unfolding free_table
free_lower_half zero pml4 i s = s
free_lower_half (suc left) pml4 i s =
    let entry = s.mem (slot pml4 i) in
    free_lower_half left pml4 (i + 1) (
      if is_present entry && not (is_large_page entry)
      then free_table 3 (get_table_ptr entry) s
      else s)

unfoldable pub destroy_address_space : ℕ → Machine → Machine
unfolding free_lower_half
destroy_address_space pml4 s =
    if (pml4 == null) || (pml4 == s.paging.pml4)
    then s
    else free_page pml4 (free_lower_half 256 pml4 0 s)

unfoldable pub switch_address_space : ℕ → Machine → Machine
switch_address_space pml4 s = if pml4 == null then s else load_cr3 pml4 s
