-- ===== src/Vmm/Heap.antt =====
-- The program break and the stack of an address space, src/MemoryManager/vmm.c. A result of -1 is `none`
-- or `false`.
use mini_user_os.Prelude.{
  ℕ, zero, suc, ◌+◌, ◌*◌, ◌-◌, ◌/◌, ◌%◌, Bool, true, false, ◌||◌, ◌&&◌, ◌==◌, leb, ltb,
  if◌then◌else◌, bit_or,
}
use mini_user_os.Machine.{Machine, add64, sub64, word, null}
use mini_user_os.Pmm.{alloc_page, free_page}
use mini_user_os.Paging.Entry.{page_present, page_writable, page_user}
use mini_user_os.Paging.Map.{map_page, unmap_page}
use mini_user_os.Vmm.Structs.{
  space_pml4, space_heap_start, space_heap_end, space_stack_start, space_stack_end, region_used,
  region_read, region_write, region_stack, page_no_execute, put, align_up, align_down, clear,
}
use mini_user_os.Vmm.Regions.{create_region}
use mini_user_os.Vmm.Phys.{virt_to_phys}
use mini_user_os.Vmm.Pages.{page_at, map_fresh}

-- `PAGE_PRESENT | PAGE_WRITABLE | PAGE_USER`
abbrev pub user_page : ℕ
user_page = bit_or (bit_or page_present page_writable) page_user

-- The loop that extends the heap. A failed allocation leaves the pages that were mapped.
unfoldable pub grow_from : ℕ → ℕ → ℕ → ℕ → Machine → Bool × Machine
grow_from zero i heap_end pml4 s = (true, s)
grow_from (suc left) i heap_end pml4 s =
    let (phys, s1) = alloc_page s in
    let rest =
      grow_from left (i + 1) heap_end pml4
        (map_page pml4 (page_at heap_end i) phys user_page (clear 512 phys s1)).1 in
    if phys == null then (false, s1) else rest

-- The loop that shrinks it.
unfoldable pub shrink_from : ℕ → ℕ → ℕ → ℕ → Machine → Machine
shrink_from zero i heap_end pml4 s = s
shrink_from (suc left) i heap_end pml4 s =
    let virt = sub64 heap_end (((i + 1) * 4096) % word) in
    let phys = virt_to_phys pml4 virt s.mem in
    shrink_from left (i + 1) heap_end pml4
      (if phys == 0 then s else free_page phys (unmap_page pml4 virt s).1)

-- The part of `vmm_brk` behind the tests; `new_end` is aligned.
unfoldable pub resize : ℕ → ℕ → Machine → Bool × Machine
resize space new_end s =
    let heap_end = s.mem (space_heap_end space) in
    let pml4 = s.mem (space_pml4 space) in
    let (ok, grown) = grow_from ((new_end - heap_end) / 4096) 0 heap_end pml4 s in
    let shrunk = shrink_from ((heap_end - new_end) / 4096) 0 heap_end pml4 s in
    if ltb heap_end new_end
    then (if ok then (true, put (space_heap_end space) new_end grown) else (false, grown))
    else if ltb new_end heap_end
    then (true, put (space_heap_end space) new_end shrunk)
    else (true, put (space_heap_end space) new_end s)

-- Whether the result is 0, and the state.
unfoldable pub brk : ℕ → ℕ → Machine → Bool × Machine
brk space new_end s =
    let aligned = align_up new_end 4096 in
    if space == null
    then (false, s)
    else if ltb aligned (s.mem (space_heap_start space))
    then (false, s)
    else resize space aligned s

-- The increment is given by its 64-bit pattern.
unfoldable pub sbrk : ℕ → ℕ → Machine → ℕ × Machine
sbrk space increment s =
    let old_end = s.mem (space_heap_end space) in
    let (ok, s1) = brk space (add64 old_end increment) s in
    if space == null then (null, s) else if ok then (old_end, s1) else (null, s1)

abbrev pub stack_page : ℕ
stack_page = bit_or user_page page_no_execute

abbrev pub stack_flags : ℕ
stack_flags = bit_or (bit_or (bit_or region_used region_stack) region_read) region_write

unfoldable pub setup_stack : ℕ → ℕ → ℕ → ℕ → Machine → Bool × Machine
setup_stack fuel space stack_top stack_size s =
    let top = align_down stack_top 4096 in
    let size = align_up stack_size 4096 in
    let bottom = sub64 top size in
    let (ok, s1) = map_fresh (size / 4096) 0 bottom (s.mem (space_pml4 space)) stack_page s in
    let s2 = put (space_stack_end space) top (put (space_stack_start space) bottom s1) in
    if space == null
    then (false, s)
    else if ok
    then (true, (create_region fuel space bottom top stack_flags s2).1)
    else (false, s1)

abbrev pub max_stack_size : ℕ
max_stack_size = 8 * 1024 * 1024

-- The part of `vmm_expand_stack` behind the tests.
unfoldable pub add_stack_page : ℕ → ℕ → Machine → Bool × Machine
add_stack_page space new_page s =
    let (phys, s1) = alloc_page s in
    let s2 = (map_page (s.mem (space_pml4 space)) new_page phys stack_page (clear 512 phys s1)).1 in
    if phys == null
    then (false, s1)
    else if ltb new_page (s2.mem (space_stack_start space))
    then (true, put (space_stack_start space) new_page s2)
    else (true, s2)

unfoldable pub expand_stack : ℕ → ℕ → Machine → Bool × Machine
expand_stack space fault_addr s =
    let stack_start = s.mem (space_stack_start space) in
    if space == null || stack_start == 0
    then (false, s)
    else if leb stack_start fault_addr
    then (false, s)
    else if ltb max_stack_size (sub64 (s.mem (space_stack_end space)) fault_addr)
    then (false, s)
    else add_stack_page space (align_down fault_addr 4096) s

-- Whatever region the address lies in, nothing but an extended stack makes the result 0.
unfoldable pub handle_page_fault : ℕ → ℕ → Machine → Bool × Machine
handle_page_fault space fault_addr s =
    let stack_end = s.mem (space_stack_end space) in
    if space == null
    then (false, s)
    else if ltb 0 stack_end
        && ltb fault_addr (s.mem (space_stack_start space))
        && leb (sub64 stack_end max_stack_size) fault_addr
    then expand_stack space fault_addr s
    else (false, s)
