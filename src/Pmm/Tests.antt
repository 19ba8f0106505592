-- ===== src/Pmm/Tests.antt =====
-- The page allocator at concrete inputs.
use mini_user_os.Prelude.{ℕ, ◌+◌, ◌%◌, ◌≡◌, ◌≢◌, ◌↔◌, inl, inr, refl, List, [], ◌∷◌, arith}
use mini_user_os.Machine.{Machine, word, null}
use mini_user_os.MemoryMap.{MemoryRegion}
use mini_user_os.Pmm.{alloc_page, free_page, init}
use mini_user_os.Pmm.Pool.{IsPool, alloc_page-free_page}
use mini_user_os.Pmm.Pages.{In, Span}
use mini_user_os.Pmm.Start.{Covered, Layout, sum_pages, init-IsPool}
use mini_user_os.Pmm.Clients.{System, IsSafe, free, here, next, Reach-IsSafe}

abbrev empty : Machine
empty = record {
  mem = λ q. 0;
  pmm = record { free_list = 0; total_pages = 0; free_pages = 0; used_pages = 0 };
  paging = record { pml4 = 0; total_mapped = 0; tables_allocated = 0 };
  cr3 = 0;
  flushed = [];
}

empty-IsPool : IsPool empty []
empty-IsPool = record { chain = refl; counted = refl; small = omega arith }

alloc_page-free_page_example :
    ((alloc_page (free_page 0x5000 empty)).0 ≡ 0x5000)
    × ((alloc_page (free_page 0x5000 empty)).1.pmm ≡ empty.pmm)
alloc_page-free_page_example = alloc_page-free_page 0x5000 empty-IsPool (omega arith) (omega arith)

-- One conventional region and one of another type.
abbrev regions : List MemoryRegion
regions =
    record { base = 0x1000; pages = 2; type = 7; reserved = 0 }
    ∷ record { base = 0x8000; pages = 1; type = 2; reserved = 0 }
    ∷ []

regions-Layout : Layout 7 regions
regions-Layout = (omega arith, apart, (omega arith, λ y e. absurd (omega (arith, e)), tt))
  where
    apart :
        (y : ℕ)
        → ◌≡◌ {A = ℕ} 7 7
        → Span 2 0x1000 0 y
        → Covered 7 (record { base = 0x8000; pages = 1; type = 2; reserved = 0 } ∷ []) y
        → ⊥
    apart y e w (inl c) = absurd (omega (arith, c.0))
    apart y e w (inr c) = c

init-IsPool_example :
    (xs : List ℕ) × IsPool (init 7 regions empty) xs
    × ((y : ℕ) → In y xs ↔ ((y ≢ null) × Covered 7 regions y))
    × ((init 7 regions empty).pmm.total_pages ≡ (0 + sum_pages regions) % word)
init-IsPool_example = init-IsPool 7 regions empty-IsPool regions-Layout (omega arith) (omega arith)

-- A client holds the only page.
abbrev held_one : System
held_one = record { machine = empty; held = 0x5000 ∷ [] }

held_one-IsSafe : IsSafe (0x5000 ∷ []) held_one
held_one-IsSafe = record {
  free = [];
  pool = empty-IsPool;
  distinct = (tt, tt);
  same = λ y. (λ i. i, λ i. i);
  size = refl;
  aligned = aligned;
  few = omega arith;
}
  where
    aligned : (y : ℕ) → In y (0x5000 ∷ []) → (y ≢ null) × (y % 4096 ≡ 0)
    aligned y (inl e) = (omega (arith, e), omega (arith, e))
    aligned y (inr i) = absurd i

abbrev freed_one : System
freed_one = record { machine = free_page 0x5000 empty; held = [] }

Reach-IsSafe_example : IsSafe (0x5000 ∷ []) freed_one
Reach-IsSafe_example = Reach-IsSafe held_one-IsSafe (next here (free held_one [] [] 0x5000 refl))
