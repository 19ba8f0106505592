-- ===== src/Vmm/Tests.antt =====
-- The virtual memory manager at a concrete address space.
use mini_user_os.Prelude.{
  ◌+◌, ◌*◌, true, ℕ, ◌%◌, ◌<◌, ◌≡◌, ◌≢◌, inl, inr, refl, ◌==◌, if◌then◌else◌, List, [], ◌∷◌, some,
  arith,
}
use mini_user_os.Machine.{Machine, Memory, null}
use mini_user_os.Pmm.Pool.{IsPool}
use mini_user_os.Pmm.Pages.{In}
use mini_user_os.Vmm.Regions.{find_region, find_free_region, check_access, get_stats, create_region}
use mini_user_os.Vmm.Pages.{alloc_pages_at}
use mini_user_os.Paging.Entry.{slot}
use mini_user_os.Paging.Create.{IsReady}
use mini_user_os.Paging.Empty.{empty-IsTree, empty-IsSmall}
use mini_user_os.Vmm.Heap.{brk, handle_page_fault}
use mini_user_os.Vmm.Grown.{Grows, brk-Grows}
use mini_user_os.Vmm.Structs.{put, space_heap_end}
use mini_user_os.Vmm.Cells.{Cell, Linked, Found, Fresh}
use mini_user_os.Vmm.Align.{align_down-page}
use mini_user_os.Vmm.Search.{find_region-Found}
use mini_user_os.Vmm.Fit.{FirstFit, find_free_region-FirstFit, round_up}
use mini_user_os.Vmm.Stats.{get_stats-sums}
use mini_user_os.Vmm.Refuse.{alloc_pages_at-refuses}
use mini_user_os.Vmm.Stack.{FaultResult, handle_page_fault-FaultResult}
use mini_user_os.Vmm.Access.{Granted, check_access-Granted}
use mini_user_os.Vmm.Insert.{insert}
use mini_user_os.Vmm.Create.{IsLaid, create_region-inserts}

-- An address space at 0x1000 with a free region and one that is read and written; a free page.
abbrev memory : Memory
memory q =
    if q == 0x1008
    then 0x2000
    else if q == 0x1010
    then 0x400000
    else if q == 0x1018
    then 0x400000
    else if q == 0x1020
    then 0x7FFF000
    else if q == 0x1028
    then 0x8000000
    else if q == 0x2000
    then 0x400000
    else if q == 0x2008
    then 0x800000
    else if q == 0x2018
    then 0x3000
    else if q == 0x3000
    then 0x800000
    else if q == 0x3008
    then 0xA00000
    else if q == 0x3010
    then 7
    else if q == 0x3020
    then 0x2000
    else 0

abbrev low : Cell
low = record { page = 0x2000; start = 0x400000; end = 0x800000; flags = 0 }

abbrev high : Cell
high = record { page = 0x3000; start = 0x800000; end = 0xA00000; flags = 7 }

abbrev cells : List Cell
cells = low ∷ high ∷ []

abbrev state : Machine
state = record {
  mem = memory;
  pmm = record { free_list = 0x5000; total_pages = 1; free_pages = 1; used_pages = 0 };
  paging = record { pml4 = 0; total_mapped = 0; tables_allocated = 0 };
  cr3 = 0;
  flushed = [];
}

cells-Linked : Linked memory null 0x2000 cells
cells-Linked = (
  record {
    here = refl;
    ne_null = omega arith;
    start = refl;
    end = refl;
    flags = refl;
    behind = refl;
  },
  (
    record {
      here = refl;
      ne_null = omega arith;
      start = refl;
      end = refl;
      flags = refl;
      behind = refl;
    },
    refl,
  ),
)

state-IsPool : IsPool state (0x5000 ∷ [])
state-IsPool = record { chain = (refl, omega arith, tt, refl); counted = refl; small = omega arith }

state-IsLaid : IsLaid memory 0x1000 cells (0x5000 ∷ [])
state-IsLaid = record {
  ne_null = omega arith;
  aligned = refl;
  regions = cells-Linked;
  sorted = ((omega arith, tt), (tt, tt));
  separate = (refl, (omega arith, tt), (refl, tt, tt));
  apart = (omega arith, (omega arith, tt));
  spare = spare;
}
  where
    spare : (y : ℕ) → In y (0x5000 ∷ []) → (y % 4096 ≡ 0) × (y ≢ 0x1000) × Fresh y cells
    spare y (inl e) =
        (omega (arith, e), omega (arith, e), (omega (arith, e), (omega (arith, e), tt)))
    spare y (inr i) = elim i [ ]

find_region-Found_example : Found 0x900000 cells (find_region 3 0x1000 0x900000 memory)
find_region-Found_example =
    find_region-Found 3 0x1000 0x900000 memory cells (omega arith) cells-Linked (omega arith)

find_free_region-FirstFit_example :
    FirstFit (round_up 5000) cells (find_free_region 3 0x1000 5000 memory)
find_free_region-FirstFit_example =
    find_free_region-FirstFit 3 0x1000 5000 memory cells (omega arith) (omega arith) (omega arith)
      cells-Linked (omega arith, (omega arith, tt)) (omega arith)

get_stats-sums_example : get_stats 3 0x1000 memory ≡ some (0x600, 0x200)
get_stats-sums_example =
    get_stats-sums 3 0x1000 memory cells (omega arith) cells-Linked
      (omega arith, omega arith, (omega arith, omega arith, tt)) (omega arith) (omega arith)

alloc_pages_at-refuses_example : alloc_pages_at 3 0x1000 0x400000 4096 7 state ≡ (null, state)
alloc_pages_at-refuses_example =
    alloc_pages_at-refuses 3 0x1000 0x400000 4096 7 state low cells (omega arith) (omega arith)
      cells-Linked (omega arith) (inl refl)
      (
        omega (arith, align_down-page 0x400000 (omega arith)),
        omega (arith, align_down-page 0x400000 (omega arith)),
      )

-- An address space at 0x9000 with an empty heap at 0x400000 and the stack from 0x7FFF000 to 0x8000000; an empty top-level table at 0x1000
-- and four free pages.
abbrev with_stack : Memory
with_stack q =
    if q == 0x2000
    then 0x3000
    else if q == 0x3000
    then 0x4000
    else if q == 0x4000
    then 0x5000
    else if q == 0x9000
    then 0x1000
    else if q == 0x9010
    then 0x400000
    else if q == 0x9018
    then 0x400000
    else if q == 0x9020
    then 0x7FFF000
    else if q == 0x9028
    then 0x8000000
    else 0

abbrev faulting : Machine
faulting = record {
  mem = with_stack;
  pmm = record { free_list = 0x2000; total_pages = 5; free_pages = 4; used_pages = 1 };
  paging = record { pml4 = 0x1000; total_mapped = 0; tables_allocated = 1 };
  cr3 = 0;
  flushed = [];
}

abbrev spare_pages : List ℕ
spare_pages = 0x2000 ∷ 0x3000 ∷ 0x4000 ∷ 0x5000 ∷ []

with_stack-zeroed : (i : ℕ) → i < 512 → with_stack (slot 0x1000 i) ≡ 0
with_stack-zeroed i lt = ground arith

faulting-IsReady : IsReady faulting 0x1000 spare_pages
faulting-IsReady = record {
  pool = record {
    chain = (
      refl,
      omega arith,
      (omega arith, (omega arith, (omega arith, tt))),
      (
        refl,
        omega arith,
        (omega arith, (omega arith, tt)),
        (refl, omega arith, (omega arith, tt), (refl, omega arith, tt, refl)),
      ),
    );
    counted = refl;
    small = omega arith;
  };
  frames = (
    (omega arith, refl, omega arith),
    (
      (omega arith, refl, omega arith),
      ((omega arith, refl, omega arith), ((omega arith, refl, omega arith), tt)),
    ),
  );
  tree =
      empty-IsTree with_stack 0x1000 with_stack-zeroed spare_pages (omega arith, refl, omega arith)
        (omega arith, (omega arith, (omega arith, (omega arith, tt))));
}

brk-Grows_example :
    (s' : Machine) × (brk 0x9000 0x400001 faulting
      ≡ (true, put (space_heap_end 0x9000) (round_up 0x400001) s'))
    × Grows faulting s' 0x1000 0x400000 0 1
brk-Grows_example =
    brk-Grows 0x9000 0x400001 faulting spare_pages (omega arith) (omega arith) faulting-IsReady
      (omega arith) (omega arith) (omega arith) (omega arith)
      (λ k low. empty-IsSmall with_stack 0x1000 with_stack-zeroed (0x400000 + k * 4096))

handle_page_fault-FaultResult_example :
    FaultResult 0x9000 0x7FFE123 0x1000 0x7FFE000 faulting spare_pages
      (handle_page_fault 0x9000 0x7FFE123 faulting)
handle_page_fault-FaultResult_example =
    handle_page_fault-FaultResult 0x9000 0x7FFE123 faulting spare_pages (omega arith) (omega arith)
      faulting-IsReady (empty-IsSmall with_stack 0x1000 with_stack-zeroed 0x7FFE000)

check_access-Granted_example : Granted 0x900000 6 cells (check_access 3 0x1000 0x900000 6 memory)
check_access-Granted_example =
    check_access-Granted 3 0x1000 0x900000 6 memory cells (omega arith) cells-Linked (omega arith)

create_region-inserts_example :
    ((create_region 3 0x1000 0x600000 0x700000 7 state).0 ≡ 0x5000)
    × IsPool (create_region 3 0x1000 0x600000 0x700000 7 state).1 []
    × IsLaid
        (create_region 3 0x1000 0x600000 0x700000 7 state).1.mem
        0x1000
        (insert (record { page = 0x5000; start = 0x600000; end = 0x700000; flags = 7 }) cells)
        []
create_region-inserts_example =
    create_region-inserts 3 0x1000 0x600000 0x700000 7 0x5000 [] state cells state-IsPool
      state-IsLaid (omega arith) (omega arith) (omega arith)

-- A page of 2 MB, mapped at 0x200000 through tables at 0x10000, 0x11000 and 0x12000.
abbrev tables : Memory
tables q =
    if q == 0x10000
    then 0x11003
    else if q == 0x11000
    then 0x12003
    else if q == 0x12008
    then 0x600083
    else 0

abbrev mapped_state : Machine
mapped_state = record state { mem = tables }
