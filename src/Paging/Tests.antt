-- ===== src/Paging/Tests.antt =====
-- Paging at concrete inputs: an empty top-level table at 0x1000, and three free pages.
use mini_user_os.Prelude.{
  inl, inr, ℕ, ◌<◌, ◌≡◌, refl, sym, ◌∙◌, true, ◌==◌, if◌then◌else◌, List, [], ◌∷◌, arith,
}
use mathlib.Core.Bool.{false≢true}
use mini_user_os.Machine.{Machine, Memory}
use mini_user_os.Paging.Entry.{slot}
use mini_user_os.Paging.Table.{get_or_create_table}
use mini_user_os.Paging.Map.{map_page, unmap_page, leaf_4k}
use mini_user_os.Paging.Walk.{snoc}
use mini_user_os.Paging.Create.{IsReady, Created, get_or_create_table-Created}
use mini_user_os.Paging.Small.{path_of, IsSmall}
use mini_user_os.Paging.Mapped.{MapResult, Maps, map_page-maps}
use mini_user_os.Paging.Empty.{absent, empty-IsTree, empty-IsSmall}
use mini_user_os.Paging.Unmapped.{Unmaps, unmap_page-Unmaps}

-- The free pages hold one another's addresses.
abbrev links : Memory
links q = if q == 0x2000 then 0x3000 else if q == 0x3000 then 0x4000 else 0

abbrev machine : Machine
machine = record {
  mem = links;
  pmm = record { free_list = 0x2000; total_pages = 4; free_pages = 3; used_pages = 1 };
  paging = record { pml4 = 0x1000; total_mapped = 0; tables_allocated = 1 };
  cr3 = 0;
  flushed = [];
}

abbrev pages : List ℕ
pages = 0x2000 ∷ 0x3000 ∷ 0x4000 ∷ []

root_zeroed : (i : ℕ) → i < 512 → links (slot 0x1000 i) ≡ 0
root_zeroed i lt = ground arith

machine-IsReady : IsReady machine 0x1000 pages
machine-IsReady = record {
  pool = record {
    chain = (
      refl,
      omega arith,
      (omega arith, (omega arith, tt)),
      (refl, omega arith, (omega arith, tt), (refl, omega arith, tt, refl)),
    );
    counted = refl;
    small = omega arith;
  };
  frames = (
    (omega arith, refl, omega arith),
    ((omega arith, refl, omega arith), ((omega arith, refl, omega arith), tt)),
  );
  tree =
      empty-IsTree links 0x1000 root_zeroed pages (omega arith, refl, omega arith)
        (omega arith, (omega arith, (omega arith, tt)));
}

machine-IsSmall : IsSmall links 0x1000 (path_of 0x400000)
machine-IsSmall = empty-IsSmall links 0x1000 root_zeroed 0x400000

-- A page at 4 MB is mapped to the physical page at 0x9000, writable.
map_page-maps_example :
    MapResult machine 0x1000
      (path_of 0x400000)
      (leaf_4k 0x9000 2)
      pages
      (map_page 0 0x400000 0x9000 2 machine)
map_page-maps_example =
    map_page-maps machine 0 0x400000 0x9000 2 pages (omega arith) machine-IsReady machine-IsSmall

get_or_create_table-Created_example :
    Created machine 0x1000 (snoc [] 5) pages (get_or_create_table 0x1000 5 2 machine)
get_or_create_table-Created_example =
    get_or_create_table-Created pages [] 0x1000 5 2 machine-IsReady (omega arith) (omega arith) refl
      (λ present.
        absurd (false≢true (sym (absent links 0x1000 root_zeroed 5 (omega arith)) ∙ present)))

-- After the call above, the page is unmapped again.
abbrev mapped_machine : Machine
mapped_machine = (map_page 0 0x400000 0x9000 2 machine).1

map_page-maps_mapped :
    MapResult machine 0x1000
      (path_of 0x400000)
      (leaf_4k 0x9000 2)
      pages
      (map_page 0 0x400000 0x9000 2 machine)
map_page-maps_mapped =
    map_page-maps machine 0 0x400000 0x9000 2 pages (omega arith) machine-IsReady machine-IsSmall

mapped_machine-Maps :
    (ys : List ℕ) × Maps machine mapped_machine 0x1000
      (path_of 0x400000)
      (leaf_4k 0x9000 2)
      pages
      ys
mapped_machine-Maps = elim map_page-maps_mapped [
  | inl (ok, ys, maps) ↦ (ys, maps)
  | inr (ok, few, ready, same) ↦ absurd (omega (arith, few))
]

unmap_page-Unmaps_example :
    ((unmap_page 0x1000 0x400000 mapped_machine).0 ≡ true)
    × Unmaps mapped_machine
        (unmap_page 0x1000 0x400000 mapped_machine).1
        0x1000
        (path_of 0x400000)
        mapped_machine-Maps.0
unmap_page-Unmaps_example =
    unmap_page-Unmaps mapped_machine 0x1000 0x400000 (leaf_4k 0x9000 2) mapped_machine-Maps.0
      (omega arith) mapped_machine-Maps.1.ready mapped_machine-Maps.1.mapped
