-- ===== src/Vmm/Regions.antt =====
-- The list of regions, src/MemoryManager/vmm.c. Its loops run on fuel.
use mini_user_os.Prelude.{
  ℕ, zero, suc, ◌/◌, Bool, not, ◌||◌, ◌&&◌, ◌==◌, leb, ltb, if◌then◌else◌, bit_and, Option, none,
  some,
}
use mini_user_os.Machine.{Machine, Memory, add64, sub64, null}
use mini_user_os.Pmm.{alloc_page, free_page}
use mini_user_os.Vmm.Structs.{
  region_start, region_end, region_next, region_prev, space_regions, region_free, region_read,
  region_write, region_exec, region_words, flags_of, put, put_flags, align_up, clear,
}

-- A round of `vmm_find_free_region_aligned`; `needed` is a multiple of the page size.
unfoldable pub free_from : ℕ → ℕ → ℕ → ℕ → Memory → ℕ
free_from zero r needed alignment m = 0
free_from (suc fuel) r needed alignment m =
    let rest = free_from fuel (m (region_next r)) needed alignment m in
    let aligned_start = align_up (m (region_start r)) alignment in
    if r == null
    then 0
    else if (flags_of m r == region_free) && leb (add64 aligned_start needed) (m (region_end r))
    then aligned_start
    else rest

unfoldable pub find_free_region_aligned : ℕ → ℕ → ℕ → ℕ → Memory → ℕ
find_free_region_aligned fuel space size alignment m =
    if space == null || size == 0
    then 0
    else free_from fuel (m (space_regions space)) (align_up size 4096) alignment m

unfoldable pub find_free_region : ℕ → ℕ → ℕ → Memory → ℕ
find_free_region fuel space size m = find_free_region_aligned fuel space size 4096 m

unfoldable pub find_from : ℕ → ℕ → ℕ → Memory → ℕ
find_from zero r addr m = null
find_from (suc fuel) r addr m =
    let rest = find_from fuel (m (region_next r)) addr m in
    if r == null
    then null
    else if leb (m (region_start r)) addr && ltb addr (m (region_end r))
    then r
    else rest

unfoldable pub find_region : ℕ → ℕ → ℕ → Memory → ℕ
find_region fuel space addr m =
    if space == null then null else find_from fuel (m (space_regions space)) addr m

-- `while (curr && curr->start < start)`: the last region passed, and the one that it stops at.
unfoldable pub place_from : ℕ → ℕ → ℕ → ℕ → Memory → ℕ × ℕ
place_from zero prev curr start m = (prev, curr)
place_from (suc fuel) prev curr start m =
    let rest = place_from fuel curr (m (region_next curr)) start m in
    if curr == null
    then (prev, curr)
    else if ltb (m (region_start curr)) start
    then rest
    else (prev, curr)

-- The new region is cleared and filled in.
unfoldable pub fill_region : ℕ → ℕ → ℕ → ℕ → Machine → Machine
fill_region r start end flags s =
    put_flags r flags (put (region_end r) end (put (region_start r) start (clear region_words r s)))

-- The new region is linked in between two others.
unfoldable pub link_region : ℕ → ℕ → ℕ → ℕ → Machine → Machine
link_region space r prev curr s =
    let s1 = put (region_prev r) prev (put (region_next r) curr s) in
    let s2 = if prev == null then put (space_regions space) r s1 else put (region_next prev) r s1 in
    if curr == null then s2 else put (region_prev curr) r s2

unfoldable pub create_region : ℕ → ℕ → ℕ → ℕ → ℕ → Machine → ℕ × Machine
create_region fuel space start end flags s =
    let (r, s1) = alloc_page s in
    let s2 = fill_region r start end flags s1 in
    let (prev, curr) = place_from fuel null (s2.mem (space_regions space)) start s2.mem in
    if space == null || leb end start
    then (null, s)
    else if r == null
    then (null, s1)
    else (r, link_region space r prev curr s2)

unfoldable pub free_region_list : ℕ → ℕ → Machine → Machine
free_region_list zero r s = s
free_region_list (suc fuel) r s =
    let rest = free_region_list fuel (s.mem (region_next r)) (free_page r s) in
    if r == null then s else rest

-- `flag` is asked for and `has` lacks it.
abbrev pub lacks : ℕ → ℕ → ℕ → Bool
lacks flag asked has = not (bit_and asked flag == 0) && (bit_and has flag == 0)

unfoldable pub check_access : ℕ → ℕ → ℕ → ℕ → Memory → ℕ
check_access fuel space virt flags m =
    let r = find_region fuel space virt m in
    let has = flags_of m r in
    if r == null || (has == region_free)
    then 0
    else if lacks region_read flags has
    then 0
    else if lacks region_write flags has
    then 0
    else if lacks region_exec flags has
    then 0
    else 1

-- The totals of all pages and of the used ones.
unfoldable pub stats_from : ℕ → ℕ → ℕ → ℕ → Memory → ℕ × ℕ
stats_from zero r total used m = (total, used)
stats_from (suc fuel) r total used m =
    let region_pages = sub64 (m (region_end r)) (m (region_start r)) / 4096 in
    let used' = if flags_of m r == region_free then used else add64 used region_pages in
    let rest = stats_from fuel (m (region_next r)) (add64 total region_pages) used' m in
    if r == null then (total, used) else rest

-- `none` for no address space: the results are left as they were.
unfoldable pub get_stats : ℕ → ℕ → Memory → Option (ℕ × ℕ)
get_stats fuel space m =
    if space == null then none else some (stats_from fuel (m (space_regions space)) 0 0 m)
