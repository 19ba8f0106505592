-- ===== src/Pmm/Start.antt =====
-- `pmm_init` of src/MemoryManager/pmm.c over the whole memory map.
use mini_user_os.Prelude.{
  ℕ, zero, suc, refl, ◌∙◌, ◌+◌, ◌*◌, ◌%◌, ◌<◌, ◌≤◌, ◌≡◌, ◌≢◌, ◌⊎◌, ◌↔◌, inl, inr, List, [], ◌∷◌,
  arith, length, ◌==◌, ==_iff, if◌then◌else◌, Bool-cases,
}
use mini_user_os.Machine.{Machine, word, null, add64}
use mini_user_os.MemoryMap.{MemoryRegion}
use mini_user_os.Pmm.{add_page, add_pages, count_region, count_pages, add_regions, init}
use mini_user_os.Pmm.Pool.{IsPool}
use mini_user_os.Pmm.Pages.{
  In, Span, push_pages, add_pages-IsPool, In-push_pages, push_pages-In, length-push_pages,
}

abbrev pub sum_pages : List MemoryRegion → ℕ
sum_pages [] = 0
sum_pages (r ∷ rs) = r.pages + sum_pages rs

module _ (conventional : ℕ) where
  -- `y` is the address of a page of a conventional region.
  abbrev pub Covered : List MemoryRegion → ℕ → Type 0
  Covered [] y = ⊥
  Covered (r ∷ rs) y = (r.type ≡ conventional) × Span r.pages r.base 0 y ⊎ Covered rs y

  -- The regions end within the address space, and no page lies in two conventional ones.
  abbrev pub Layout : List MemoryRegion → Type 0
  Layout [] = Unit {0}
  Layout (r ∷ rs) =
      (r.base + r.pages * 4096 ≤ word)
      × ((y : ℕ) → r.type ≡ conventional → Span r.pages r.base 0 y → Covered rs y → ⊥)
      × Layout rs

  -- The free list that `pmm_init` builds in front of `xs`.
  push_regions : List MemoryRegion → List ℕ → List ℕ
  push_regions [] xs = xs
  push_regions (r ∷ rs) xs =
      push_regions rs (if r.type == conventional then push_pages r.pages r.base 0 xs else xs)

  add_regions-IsPool :
      (rs : List MemoryRegion) {s : Machine} {xs : List ℕ}
      → Layout rs
      → IsPool s xs
      → ((y : ℕ) → In y xs → ¬ (Covered rs y))
      → length xs + sum_pages rs < word
      → IsPool (add_regions conventional rs s) (push_regions rs xs)
  unfolding add_regions push_regions
  add_regions-IsPool [] l p apart small = p
  add_regions-IsPool (r ∷ rs) {s} {xs} l p apart small =
      elim (Bool-cases (r.type == conventional)) [
        | inl e ↦ rw e (
            add_regions-IsPool rs l.2
              (add_pages-IsPool r.pages r.base 0 p (λ y i w. apart y i (inl (ground arith, w)))
                (omega (arith, l.0)) (omega arith))
              (λ y i c. elim (In-push_pages r.pages r.base 0 y xs i) [
                | inl (ne, w) ↦ l.1 y (ground arith) w c
                | inr old ↦ apart y old (inr c)
              ])
              (omega (arith, length-push_pages r.pages r.base 0 xs)))
        | inr ne ↦ rw ne (add_regions-IsPool rs l.2 p (λ y i c. apart y i (inr c)) (omega arith))
      ]

  In-push_regions :
      (rs : List MemoryRegion) (y : ℕ) (xs : List ℕ)
      → In y (push_regions rs xs)
      → (y ≢ null) × Covered rs y ⊎ In y xs
  unfolding push_regions
  In-push_regions [] y xs i = inr i
  In-push_regions (r ∷ rs) y xs i = elim (Bool-cases (r.type == conventional)) [
    | inl e ↦ elim (In-push_regions rs y _ (rw e at i)) [
      | inl (ne, c) ↦ inl (ne, inr c)
      | inr j ↦ elim (In-push_pages r.pages r.base 0 y xs j) [
        | inl (ne, w) ↦ inl (ne, inl (ground arith, w))
        | inr old ↦ inr old
      ]
    ]
    | inr other ↦ elim (In-push_regions rs y _ (rw other at i)) [
      | inl (ne, c) ↦ inl (ne, inr c)
      | inr old ↦ inr old
    ]
  ]

  push_regions-In :
      (rs : List MemoryRegion) (y : ℕ) (xs : List ℕ)
      → (y ≢ null) × Covered rs y ⊎ In y xs
      → In y (push_regions rs xs)
  unfolding push_regions
  push_regions-In [] y xs (inl (ne, c)) = absurd c
  push_regions-In [] y xs (inr i) = i
  push_regions-In (r ∷ rs) y xs (inl (ne, inr c)) = push_regions-In rs y _ (inl (ne, c))
  push_regions-In (r ∷ rs) y xs (inl (ne, inl (e, w))) =
      rw ((==_iff r.type conventional).1 e)
        (push_regions-In rs y _ (inr (push_pages-In r.pages r.base 0 y xs (inl (ne, w)))))
  push_regions-In (r ∷ rs) y xs (inr i) = elim (Bool-cases (r.type == conventional)) [
    | inl e ↦ rw e (push_regions-In rs y _ (inr (push_pages-In r.pages r.base 0 y xs (inr i))))
    | inr other ↦ rw other (push_regions-In rs y _ (inr i))
  ]

total-count_pages :
    (rs : List MemoryRegion) (s : Machine)
    → s.pmm.total_pages < word
    → (count_pages rs s).pmm.total_pages ≡ (s.pmm.total_pages + sum_pages rs) % word
unfolding count_region count_pages
total-count_pages [] s h = omega arith
total-count_pages (r ∷ rs) s h =
    omega (arith, total-count_pages rs (count_region r s) (omega arith))

-- Counting the pages leaves the free list and memory alone.
count_pages-IsPool :
    (rs : List MemoryRegion) {s : Machine} {xs : List ℕ}
    → IsPool s xs
    → IsPool (count_pages rs s) xs
unfolding count_region count_pages
count_pages-IsPool [] p = p
count_pages-IsPool (r ∷ rs) p =
    count_pages-IsPool rs (record { chain = p.chain; counted = p.counted; small = p.small })

total-add_page : (addr : ℕ) (s : Machine) → (add_page addr s).pmm.total_pages ≡ s.pmm.total_pages
unfolding add_page
total-add_page addr s = ground arith

total-add_pages :
    (left base p : ℕ) (s : Machine) → (add_pages left base p s).pmm.total_pages ≡ s.pmm.total_pages
unfolding add_pages
total-add_pages zero base p s = refl
total-add_pages (suc left) base p s =
    total-add_pages left base (p + 1) _ ∙ total-add_page (add64 base (p * 4096)) s

total-add_regions :
    (conventional : ℕ) (rs : List MemoryRegion) (s : Machine)
    → (add_regions conventional rs s).pmm.total_pages ≡ s.pmm.total_pages
unfolding add_regions
total-add_regions conventional [] s = refl
total-add_regions conventional (r ∷ rs) s =
    total-add_regions conventional rs _ ∙ ground (arith, total-add_pages r.pages r.base 0 s)

-- With an empty free list, and regions that end within the address space and overlap in no
-- conventional page, `pmm_init` leaves a counted free list of distinct pages that holds exactly the
-- pages of the conventional regions other than page 0, and `total_pages` grows by the pages of all
-- the regions, modulo 2 ^ 64.
pub init-IsPool :
    (conventional : ℕ) (rs : List MemoryRegion) {s : Machine}
    → IsPool s []
    → Layout conventional rs
    → sum_pages rs < word
    → s.pmm.total_pages < word
    → (xs : List ℕ) × IsPool (init conventional rs s) xs
      × ((y : ℕ) → In y xs ↔ ((y ≢ null) × Covered conventional rs y))
      × ((init conventional rs s).pmm.total_pages ≡ (s.pmm.total_pages + sum_pages rs) % word)
unfolding init
init-IsPool conventional rs {s} p l small total = (
  push_regions conventional rs [],
  add_regions-IsPool conventional rs l (count_pages-IsPool rs p) (λ y i. absurd i) (omega arith),
  λ y. (
    (λ i. elim (In-push_regions conventional rs y [] i) [ inl c ↦ c | inr n ↦ absurd n ]),
    (λ c. push_regions-In conventional rs y [] (inl c)),
  ),
  total-add_regions conventional rs _ ∙ total-count_pages rs s total,
)
