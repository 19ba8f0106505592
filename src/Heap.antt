-- ===== src/Heap.antt =====
-- The kernel heap, src/MemoryManager/heap.c and include/MemoryManager/heap.h: a list of blocks, each
-- behind a header. Headers are a function of their addresses; what the pages behind the headers hold
-- is `contents`, by virtual address. Loops over the list of blocks run on fuel.
use mini_user_os.Prelude.{
  ℕ, zero, suc, ◌+◌, ◌*◌, ◌-◌, ◌/◌, ◌%◌, Bool, true, false, not, ◌||◌, ◌&&◌, ◌==◌, leb, ltb,
  if◌then◌else◌,
}
use mini_user_os.Machine.{Machine, Memory, add64, sub64, null, word, write}
use mini_user_os.Pmm.{alloc_page}
use mini_user_os.Paging.Entry.{page_present, page_writable}
use mini_user_os.Paging.Map.{map_page}
pub mod Tiles
pub mod Cut
pub mod Take
pub mod Merge
pub mod Free
pub mod Coalesce
mod Tests

abbrev pub heap_start : ℕ
heap_start = 0xFFFF900000000000

abbrev pub heap_initial_size : ℕ
heap_initial_size = 0x100000

abbrev pub block_magic : ℕ
block_magic = 0xDEADBEEF

-- `sizeof(heap_block_t)`
abbrev pub block_size : ℕ
block_size = 32

pub record Block : Type 0 where
  pub size : ℕ
  pub free : ℕ
  pub next : ℕ
  pub magic : ℕ

abbrev pub Blocks : Type 0
Blocks = ℕ → Block

-- `ALIGN(size)`: `(size + 7) & ~7` in 64 bits
abbrev pub align : ℕ → ℕ
align size = add64 size 7 / 8 * 8

pub record Heap : Type 0 where
  pub blocks : Blocks
  pub contents : Memory
  pub heap_first : ℕ
  pub heap_current_size : ℕ
  pub heap_max_size : ℕ
  pub machine : Machine

unfoldable pub put_block : ℕ → Block → Blocks → Blocks
put_block p b bs q = if q == p then b else bs q

-- A header that is written for a new free block.
abbrev pub free_block : ℕ → ℕ → Block
free_block size next = record { size = size; free = 1; next = next; magic = block_magic }

-- `for (i; i < pages; i++)`, with the rounds that are left first: a page is allocated and mapped. The
-- result of neither call is tested.
unfoldable pub map_pages : ℕ → ℕ → ℕ → Machine → Machine
map_pages zero start i s = s
map_pages (suc left) start i s =
    let (phys, s') = alloc_page s in
    map_pages left start (i + 1)
      (map_page s'.paging.pml4 (add64 start (i * 4096)) phys (page_present + page_writable) s').1

unfoldable pub heap_init : Heap → Heap
heap_init h = record h {
  machine = map_pages ((heap_initial_size + 4095) / 4096) heap_start 0 h.machine;
  heap_first = heap_start;
  blocks = put_block heap_start (free_block (heap_initial_size - block_size) null) h.blocks;
  heap_current_size = heap_initial_size;
  heap_max_size = heap_initial_size;
}

unfoldable pub split_block : ℕ → ℕ → Blocks → Blocks
split_block block size bs =
    let b = bs block in
    let new_block = add64 (add64 block block_size) size in
    if leb (add64 (add64 size block_size) 8) b.size
    then (put_block block (record b { size = size; next = new_block })
        (put_block new_block (free_block (sub64 (sub64 b.size size) block_size) b.next) bs))
    else bs

-- A round of `merge_blocks`: the block takes in the one behind it.
abbrev pub join_next : ℕ → Blocks → Blocks
join_next block bs =
    let b = bs block in
    let n = bs b.next in
    put_block block (record b { size = add64 b.size (add64 block_size n.size); next = n.next }) bs

-- A round that finds a bad magic number ends the loop.
unfoldable pub merge_blocks : ℕ → ℕ → Blocks → Blocks
merge_blocks zero block bs = bs
merge_blocks (suc fuel) block bs =
    let b = bs block in
    let n = bs b.next in
    let rest = merge_blocks fuel block (join_next block bs) in
    if b.next == null || n.free == 0 then bs else if not (n.magic == block_magic) then bs else rest

-- The first loop of `kmalloc`: the block that fits, nothing, or a corrupt header.
pub data Search : Type 0 where
  fits : ℕ → Search
  exhausted : Search
  corrupt : ℕ → Search

unfoldable pub search_from : ℕ → ℕ → ℕ → Blocks → Search
search_from zero current size bs = exhausted
search_from (suc fuel) current size bs =
    let b = bs current in
    let rest = search_from fuel b.next size bs in
    if current == null
    then exhausted
    else if not (b.magic == block_magic)
    then corrupt current
    else if not (b.free == 0) && leb size b.size
    then fits current
    else rest

-- `split_block(current, size); current->free = 0;`
unfoldable pub take_block : ℕ → ℕ → Blocks → Blocks
take_block current size bs =
    let bs' = split_block current size bs in
    put_block current (record (bs' current) { free = 0 }) bs'

-- `while (current->next) current = current->next;`
unfoldable pub last_from : ℕ → ℕ → Blocks → ℕ
last_from zero current bs = current
last_from (suc fuel) current bs =
    let b = bs current in
    let rest = last_from fuel b.next bs in if b.next == null then current else rest

-- The pages that `kmalloc` adds.
abbrev pub expand_pages : ℕ → ℕ
expand_pages size = add64 (add64 (add64 size block_size) 4096) 4095 / 4096

abbrev pub expand_blocks : ℕ → ℕ → ℕ → ℕ → Blocks → Blocks
expand_blocks fuel first new_block new_size bs =
    let bs1 = put_block new_block (free_block (sub64 new_size block_size) null) bs in
    let current = last_from fuel first bs1 in
    let bs2 = put_block current (record (bs1 current) { next = new_block }) bs1 in
    if (bs2 current).free == 0 then bs2 else merge_blocks fuel current bs2

unfoldable pub expand : ℕ → ℕ → Heap → Heap
expand fuel size h =
    let pages = expand_pages size in
    let new_size = (pages * 4096) % word in
    let new_block = add64 heap_start h.heap_current_size in
    record h {
      machine = map_pages pages new_block 0 h.machine;
      blocks = expand_blocks fuel h.heap_first new_block new_size h.blocks;
      heap_current_size = add64 h.heap_current_size new_size;
      heap_max_size = add64 h.heap_max_size new_size;
    }

-- What `kmalloc` does with the result of its search, `again` being the call after an expansion.
abbrev pub after_search : Search → ℕ → Heap → ℕ × Heap → ℕ × Heap
after_search (fits current) size h again =
    (add64 current block_size, record h { blocks = take_block current size h.blocks })
after_search (corrupt current) size h again = (null, h)
after_search exhausted size h again = again

-- `calls` bounds the calls of `kmalloc` by itself, `fuel` the steps along the list.
unfoldable pub kmalloc : ℕ → ℕ → ℕ → Heap → ℕ × Heap
kmalloc zero fuel size h = (null, h)
kmalloc (suc calls) fuel size h =
    let aligned = align size in
    let again = kmalloc calls fuel aligned (expand fuel aligned h) in
    if size == 0
    then (null, h)
    else after_search (search_from fuel h.heap_first aligned h.blocks) aligned h again

-- The loop of `kfree`: every free block takes in the free blocks behind it.
unfoldable pub merge_all : ℕ → ℕ → Blocks → Blocks
merge_all zero current bs = bs
merge_all (suc fuel) current bs =
    let bs' = if (bs current).free == 0 then bs else merge_blocks fuel current bs in
    let rest = merge_all fuel (bs' current).next bs' in if current == null then bs else rest

unfoldable pub kfree : ℕ → ℕ → Heap → Heap
kfree fuel ptr h =
    let block = sub64 ptr block_size in
    let b = h.blocks block in
    if ptr == null then h else if not (b.magic == block_magic) then h else record h {
      blocks = merge_all fuel h.heap_first (put_block block (record b { free = 1 }) h.blocks);
    }

-- `p[i] = 0`, with the rounds that are left first
unfoldable pub zero_words : ℕ → ℕ → ℕ → Memory → Memory
zero_words zero p i m = m
zero_words (suc left) p i m = zero_words left p (i + 1) (write m (add64 p (i * 8)) 0)

unfoldable pub kcalloc : ℕ → ℕ → ℕ → ℕ → Heap → ℕ × Heap
kcalloc calls fuel num size h =
    let total = (num * size) % word in
    let (ptr, h') = kmalloc calls fuel total h in
    if ptr == null
    then (ptr, h')
    else (ptr, record h' { contents = zero_words (total / 8) ptr 0 h'.contents })

-- `dst[i] = src[i]`
unfoldable pub copy_words : ℕ → ℕ → ℕ → ℕ → Memory → Memory
copy_words zero dst src i m = m
copy_words (suc left) dst src i m =
    copy_words left dst src (i + 1) (write m (add64 dst (i * 8)) (m (add64 src (i * 8))))

unfoldable pub krealloc : ℕ → ℕ → ℕ → ℕ → Heap → ℕ × Heap
krealloc calls fuel ptr new_size h =
    let block = sub64 ptr block_size in
    let b = h.blocks block in
    let (new_ptr, h') = kmalloc calls fuel new_size h in
    let old = h'.blocks block in
    if ptr == null
    then kmalloc calls fuel new_size h
    else if new_size == 0
    then (null, kfree fuel ptr h)
    else if not (b.magic == block_magic)
    then (null, h)
    else if leb new_size b.size
    then (ptr, h)
    else if new_ptr == null
    then (null, h')
    else (
      new_ptr,
      kfree fuel ptr (record h' { contents = copy_words (old.size / 8) new_ptr ptr 0 h'.contents }),
    )
