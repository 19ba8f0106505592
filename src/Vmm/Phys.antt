-- ===== src/Vmm/Phys.antt =====
-- The page tables as src/MemoryManager/vmm.c reads and frees them.
use mini_user_os.Prelude.{
  ℕ, zero, suc, ◌+◌, Bool, not, ◌||◌, ◌&&◌, ◌==◌, leb, if◌then◌else◌, List, [], ◌∷◌, bit_and,
  bit_or,
}
use mini_user_os.Machine.{Machine, Memory}
use mini_user_os.Pmm.{free_page}
use mini_user_os.Paging.Entry.{
  page_present, page_large, get_pml4_index, get_pdpt_index, get_pd_index, get_pt_index, slot,
}
use mini_user_os.Vmm.Structs.{not64, put}

-- `entry & ~0xFFF`
abbrev pub frame_of : ℕ → ℕ
frame_of entry = bit_and entry (not64 0xFFF)

-- `for (level; level < 4; level++)` of `virt_to_phys`, with the indices that are left
unfoldable pub walk_from : List ℕ → ℕ → ℕ → ℕ → Memory → ℕ
walk_from [] level virt table m = bit_or (frame_of table) (bit_and virt 0xFFF)
walk_from (i ∷ indices) level virt table m =
    let entry = m (slot table i) in
    let rest = walk_from indices (suc level) virt (frame_of entry) m in
    if bit_and entry page_present == 0
    then 0
    else if (level == 1 || level == 2) && not (bit_and entry page_large == 0)
    then (if level == 1
        then bit_or (frame_of entry) (bit_and virt 0x3FFFFFFF)
        else bit_or (frame_of entry) (bit_and virt 0x1FFFFF))
    else rest

abbrev pub indices_of : ℕ → List ℕ
indices_of virt =
    get_pml4_index virt ∷ get_pdpt_index virt ∷ get_pd_index virt ∷ get_pt_index virt ∷ []

unfoldable pub virt_to_phys : ℕ → ℕ → Memory → ℕ
virt_to_phys pml4 virt m = walk_from (indices_of virt) 0 virt pml4 m

-- `for (j; j < 512; j++)` at level 1, with the rounds that are left first
unfoldable pub free_pages_from : ℕ → ℕ → ℕ → Machine → Machine
free_pages_from zero pt j s = s
free_pages_from (suc left) pt j s =
    let entry = s.mem (slot pt j) in
    free_pages_from left pt (j + 1) (
      if bit_and entry page_present == 0
      then s
      else put (slot pt j) 0 (free_page (frame_of entry) s))

-- `for (i; i < 512; i++)` of `free_page_table_level`; `descend` frees what is below the next table.
unfoldable pub free_level_from : (ℕ → Machine → Machine) → ℕ → ℕ → ℕ → Bool → ℕ → Machine → Machine
free_level_from descend zero table level user_only i s = s
free_level_from descend (suc left) table level user_only i s =
    let entry = s.mem (slot table i) in
    let next_table = frame_of entry in
    free_level_from descend left table level user_only (i + 1) (
      if bit_and entry page_present == 0
      then s
      else if user_only && (level == 4) && leb 256 i
      then s
      else if not (bit_and entry page_large == 0)
      then put (slot table i) 0 (free_page next_table s)
      else put (slot table i) 0 (free_page next_table (descend next_table s)))

-- The code is called with levels from 1 to 4.
unfoldable pub free_page_table_level : ℕ → ℕ → Bool → Machine → Machine
free_page_table_level zero table user_only s = s
free_page_table_level (suc level) table user_only s =
    free_level_from
      (if level == 0
        then (λ pt. free_pages_from 512 pt 0)
        else (λ next_table. free_page_table_level level next_table user_only))
      512 table (suc level) user_only 0 s
