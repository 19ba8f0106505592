-- ===== src/Vmm/Spaces.antt =====
-- The life of address spaces, src/MemoryManager/vmm.c.
use mini_user_os.Prelude.{
  ℕ, zero, suc, ◌+◌, ◌-◌, ◌%◌, ◌^◌, Bool, true, false, not, ◌||◌, ◌&&◌, ◌==◌, ltb, if◌then◌else◌,
  bit_and, bit_or,
}
use mini_user_os.Machine.{Machine, null}
use mini_user_os.Pmm.{alloc_page, free_page}
use mini_user_os.Paging.Entry.{page_present, slot, load_cr3}
use mini_user_os.Vmm.Structs.{
  user_space_start, user_space_end, kernel_heap_start, kernel_heap_end, region_start, region_end,
  region_next, region_prev, region_free, space_pml4, space_regions, space_heap_start,
  space_heap_end, space_stack_start, space_stack_end, space_mmap_base, space_ref_count, space_next,
  low_half, with_low_half, put, put_flags, clear,
}
use mini_user_os.Vmm.Regions.{free_region_list}
use mini_user_os.Vmm.Phys.{frame_of, free_page_table_level, virt_to_phys}

-- The static variables beside memory.
pub record Vmm : Type 0 where
  pub machine : Machine
  pub kernel_address_space : ℕ
  pub address_spaces : ℕ
  pub kernel_regions : ℕ

abbrev pub mmap_reserve : ℕ
mmap_reserve = 0x10000000

-- A page that is cleared for a list of one free region.
unfoldable pub first_region : ℕ → ℕ → ℕ → Machine → Machine
first_region r start end s = put (region_prev r) null (
    put (region_next r) null (
      put_flags r region_free
        (put (region_end r) end (put (region_start r) start (clear 512 r s)))))

unfoldable pub init_address_space : ℕ → Machine → Machine
init_address_space space s =
    let (initial, s1) = alloc_page s in
    let s2 = first_region initial user_space_start user_space_end s1 in
    if initial == null
    then s1
    else put (space_mmap_base space) (user_space_end - mmap_reserve)
        (put (space_regions space) initial s2)

-- `kernel_regions` is assigned before the result is tested.
unfoldable pub init_kernel_regions : Vmm → Vmm
init_kernel_regions v =
    let (r, s1) = alloc_page v.machine in
    if r == null then record v { machine = s1; kernel_regions = null } else record v {
      machine = first_region r kernel_heap_start kernel_heap_end s1;
      kernel_regions = r;
    }

abbrev pub put_ref_count : ℕ → ℕ → Machine → Machine
put_ref_count space n s =
    put (space_ref_count space) (with_low_half (s.mem (space_ref_count space)) n) s

-- The fields of a new structure, which has been cleared.
unfoldable pub fill_space : ℕ → ℕ → ℕ → Machine → Machine
fill_space space pml4 heap s = put_ref_count space 1 (
    put (space_stack_end space) 0 (
      put (space_stack_start space) 0 (
        put (space_heap_end space) heap
          (put (space_heap_start space) heap (put (space_pml4 space) pml4 s)))))

unfoldable pub vmm_init : Vmm → Vmm
vmm_init v =
    let (space, s1) = alloc_page v.machine in
    let s2 = fill_space space s1.paging.pml4 kernel_heap_start (clear 512 space s1) in
    if space == null
    then record v { machine = s1; kernel_address_space = null }
    else init_kernel_regions
        (record v { machine = put (space_next space) null s2; kernel_address_space = space })

-- `for (i; i < 512; i++)`: entries of the kernel's half
unfoldable pub copy_kernel_from : ℕ → ℕ → ℕ → ℕ → Machine → Machine
copy_kernel_from zero i new_pml4 kernel_pml4 s = s
copy_kernel_from (suc left) i new_pml4 kernel_pml4 s =
    copy_kernel_from left (i + 1) new_pml4 kernel_pml4
      (put (slot new_pml4 i) (s.mem (slot kernel_pml4 i)) s)

unfoldable pub create_address_space : Vmm → ℕ × Vmm
create_address_space v =
    let (space, s1) = alloc_page v.machine in
    let (new_pml4, s2) = alloc_page (clear 512 space s1) in
    let kernel_pml4 = s2.mem (space_pml4 v.kernel_address_space) in
    let s3 = copy_kernel_from 256 256 new_pml4 kernel_pml4 (clear 512 new_pml4 s2) in
    let s4 = fill_space space new_pml4 user_space_start s3 in
    let s5 =
      init_address_space space (put (space_mmap_base space) (user_space_end - mmap_reserve) s4) in
    if space == null
    then (null, record v { machine = s1 })
    else if new_pml4 == null
    then (null, record v { machine = free_page space s2 })
    else (
      space,
      record v { machine = put (space_next space) v.address_spaces s5; address_spaces = space },
    )

-- The search for the pointer to `space` in the list of address spaces: `at` is the address of a `next`
-- field.
unfoldable pub unlink_from : ℕ → ℕ → ℕ → Machine → Machine
unlink_from zero at space s = s
unlink_from (suc fuel) at space s =
    let here = s.mem at in
    let rest = unlink_from fuel (space_next here) space s in
    if here == null then s else if here == space then put at (s.mem (space_next space)) s else rest

-- `address_spaces` is a variable, the pointers behind it are fields.
unfoldable pub unlink_space : ℕ → ℕ → Vmm → Vmm
unlink_space fuel space v =
    if v.address_spaces == null
    then v
    else if v.address_spaces == space
    then record v { address_spaces = v.machine.mem (space_next space) }
    else record v { machine = unlink_from fuel (space_next v.address_spaces) space v.machine }

-- The part of `vmm_destroy_address_space` behind the count of references.
unfoldable pub tear_down : ℕ → ℕ → Vmm → Vmm
tear_down fuel space v =
    let pml = v.machine.mem (space_pml4 space) in
    let s1 = free_page pml (free_page_table_level 4 pml true v.machine) in
    let s2 = free_region_list fuel (s1.mem (space_regions space)) s1 in
    let v1 = unlink_space fuel space (record v { machine = s2 }) in
    record v1 { machine = free_page space v1.machine }

unfoldable pub destroy_address_space : ℕ → ℕ → Vmm → Vmm
destroy_address_space fuel space v =
    let count = (low_half (v.machine.mem (space_ref_count space)) + 2 ^ 32 - 1) % 2 ^ 32 in
    let v1 = record v { machine = put_ref_count space count v.machine } in
    if space == null || space == v.kernel_address_space
    then v
    else if ltb 0 count
    then v1
    else tear_down fuel space v1

-- `memcpy(dst, src, 4096)`, with the words that are left first
unfoldable pub copy_words_from : ℕ → ℕ → ℕ → ℕ → Machine → Machine
copy_words_from zero i dst src s = s
copy_words_from (suc left) i dst src s =
    copy_words_from left (i + 1) dst src (put (slot dst i) (s.mem (slot src i)) s)

-- `for (i; i < 256; i++)`: the tables below the user's half are copied one level deep. Whether all were
-- copied, and the state.
unfoldable pub copy_user_from : ℕ → ℕ → ℕ → ℕ → Machine → Bool × Machine
copy_user_from zero i dst_pml4 src_pml4 s = (true, s)
copy_user_from (suc left) i dst_pml4 src_pml4 s =
    let entry = s.mem (slot src_pml4 i) in
    let (dst_pdpt, s1) = alloc_page s in
    let copied = copy_words_from 512 0 dst_pdpt (frame_of entry) s1 in
    let linked = put (slot dst_pml4 i) (bit_or dst_pdpt (bit_and entry 0xFFF)) copied in
    let present = not (bit_and entry page_present == 0) in
    let rest = copy_user_from left (i + 1) dst_pml4 src_pml4 (if present then linked else s) in
    if present && (dst_pdpt == null) then (false, s1) else rest

unfoldable pub copy_fields : ℕ → ℕ → Machine → Machine
copy_fields dst src s =
    let s1 = put (space_heap_start dst) (s.mem (space_heap_start src)) s in
    let s2 = put (space_heap_end dst) (s1.mem (space_heap_end src)) s1 in
    let s3 = put (space_stack_start dst) (s2.mem (space_stack_start src)) s2 in
    let s4 = put (space_stack_end dst) (s3.mem (space_stack_end src)) s3 in
    put (space_mmap_base dst) (s4.mem (space_mmap_base src)) s4

unfoldable pub clone_address_space : ℕ → ℕ → Vmm → ℕ × Vmm
clone_address_space fuel src v =
    let (dst, v1) = create_address_space v in
    let s = v1.machine in
    let (ok, s1) = copy_user_from 256 0 (s.mem (space_pml4 dst)) (s.mem (space_pml4 src)) s in
    if src == null
    then (null, v)
    else if dst == null
    then (null, v1)
    else if ok
    then (dst, record v1 { machine = copy_fields dst src s1 })
    else (null, destroy_address_space fuel dst (record v1 { machine = s1 }))

unfoldable pub switch : ℕ → Machine → Machine
switch space s =
    if (space == null) || (s.mem (space_pml4 space) == null)
    then s
    else load_cr3 (s.mem (space_pml4 space)) s

unfoldable pub vmm_virt_to_phys : ℕ → ℕ → Vmm → ℕ
vmm_virt_to_phys space virt v =
    let used = if space == null then v.kernel_address_space else space in
    virt_to_phys (v.machine.mem (space_pml4 used)) virt v.machine.mem

unfoldable pub vmm_is_mapped : ℕ → ℕ → Vmm → Bool
vmm_is_mapped space virt v = not (vmm_virt_to_phys space virt v == 0)
