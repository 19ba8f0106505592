-- ===== src/Heap/Tests.antt =====
-- The heap at concrete inputs: 16 pages with a block of 64 bytes in use before a free one.
use mini_user_os.Prelude.{ℕ, ◌+◌, ◌-◌, ◌≡◌, refl, ◌==◌, if◌then◌else◌, List, [], ◌∷◌, ◌++◌, arith}
use mini_user_os.Machine.{Machine}
use mini_user_os.Heap.{
  Heap, Blocks, free_block, block_magic, block_size, heap_start, kmalloc, kfree, align,
}
use mini_user_os.Heap.Tiles.{Cell, IsHeap}
use mini_user_os.Heap.Cut.{cell}
use mini_user_os.Heap.Take.{take_first, kmalloc-first_fit}
use mini_user_os.Heap.Free.{address}
use mini_user_os.Heap.Coalesce.{Apart, in_use, kfree-joins}

abbrev no_machine : Machine
no_machine = record {
  mem = λ q. 0;
  pmm = record { free_list = 0; total_pages = 0; free_pages = 0; used_pages = 0 };
  paging = record { pml4 = 0; total_mapped = 0; tables_allocated = 0 };
  cr3 = 0;
  flushed = [];
}

abbrev second : ℕ
second = heap_start + 96

abbrev two_blocks : Blocks
two_blocks q =
    if q == heap_start
    then record { size = 64; free = 0; next = second; magic = block_magic }
    else free_block (0x10000 - 128) 0

abbrev small_heap : Heap
small_heap = record {
  blocks = two_blocks;
  contents = λ q. 0;
  heap_first = heap_start;
  heap_current_size = 0x10000;
  heap_max_size = 0x10000;
  machine = no_machine;
}

abbrev two_cells : List Cell
two_cells = cell 64 0 ∷ cell (0x10000 - 128) 1 ∷ []

small_heap-IsHeap : IsHeap small_heap two_cells
small_heap-IsHeap = record {
  first = refl;
  tiles = (refl, refl, refl, refl, (refl, refl, refl, refl, refl));
  small = omega arith;
}

kmalloc-first_fit_example :
    ((kmalloc 2 3 100 small_heap).0 ≡ second + block_size)
    × IsHeap (kmalloc 2 3 100 small_heap).1 (take_first (align 100) two_cells)
kmalloc-first_fit_example =
    kmalloc-first_fit 1 3 100 second small_heap two_cells small_heap-IsHeap (omega arith)
      (omega arith) refl

kfree-joins_example :
    (out : List Cell) × IsHeap (kfree 3 (address heap_start [] + block_size) small_heap) out
    × Apart out
    × (in_use heap_start out ≡ in_use heap_start ([] ++ (cell 64 1 ∷ cell (0x10000 - 128) 1 ∷ [])))
kfree-joins_example =
    kfree-joins 3 small_heap [] (cell 64 0) (cell (0x10000 - 128) 1 ∷ []) small_heap-IsHeap
      (omega arith)
