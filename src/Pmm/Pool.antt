-- ===== src/Pmm/Pool.antt =====
-- The free list of src/MemoryManager/pmm.c as a list of pages, and what `pmm_alloc_page` and
-- `pmm_free_page` do to it.
use mini_user_os.Prelude.{ℕ, suc, ◌<◌, ◌≡◌, ◌≢◌, refl, sym, ◌∙◌, List, [], ◌∷◌, arith, length}
use mini_user_os.Machine.{Machine, Memory, word, add64, null, write, write_self, write_ne}
use mini_user_os.Pmm.{alloc_page, pop_page, free_page}

-- `x` is none of the pages `xs`.
abbrev pub Outside : ℕ → List ℕ → Type 0
Outside x [] = Unit {0}
Outside x (y ∷ ys) = (y ≢ x) × Outside x ys

-- From `p` the pages' first words lead through the distinct pages `xs` to NULL.
abbrev pub Chain : Memory → ℕ → List ℕ → Type 0
Chain m p [] = p ≡ null
Chain m p (x ∷ xs) = (p ≡ x) × (x ≢ null) × Outside x xs × Chain m (m x) xs

-- The free pages are those of `xs`, the next one to be handed out first, and they are counted.
pub record IsPool (s : Machine) (xs : List ℕ) : Type 0 where
  pub chain : Chain s.mem s.pmm.free_list xs
  pub counted : s.pmm.free_pages ≡ length xs
  pub small : length xs < word

-- A chain survives a write outside its own pages.
pub Chain-write :
    (m : Memory) (q v p : ℕ) (xs : List ℕ) → Outside q xs → Chain m p xs → Chain (write m q v) p xs
Chain-write m q v p [] o c = c
Chain-write m q v p (x ∷ xs) o c =
    (c.0, c.1, c.2, rw (write_ne m q v x o.0) (Chain-write m q v (m x) xs o.1 c.3))

-- With a first page the list is popped.
pub alloc_page-pop :
    (s : Machine) → s.pmm.free_list ≢ null → alloc_page s ≡ (s.pmm.free_list, pop_page s)
unfolding alloc_page
alloc_page-pop s h = ground arith

-- While pages are left, `pmm_alloc_page` hands out the first one, leaves the others free and counts
-- the page as used; memory and the paging context stay as they are.
pub alloc_page-cons :
    {s : Machine} {x : ℕ} {xs : List ℕ}
    → IsPool s (x ∷ xs)
    → ((alloc_page s).0 ≡ x)
      × IsPool (alloc_page s).1 xs
      × ((alloc_page s).1.mem ≡ s.mem)
      × ((alloc_page s).1.paging ≡ s.paging)
      × ((alloc_page s).1.pmm.used_pages ≡ add64 s.pmm.used_pages 1)
unfolding pop_page
alloc_page-cons {s} {x} {xs} p = rw (alloc_page-pop s (rw c.0 c.1)) (
  c.0,
  record {
    chain = rw c.0 c.3;
    counted = omega (arith, p.counted, p.small);
    small = omega (arith, p.small);
  },
  refl,
  refl,
  refl,
)
  where
    c : Chain s.mem s.pmm.free_list (x ∷ xs)
    c = p.chain

-- With no page left the result is NULL and nothing changes.
pub alloc_page-nil : {s : Machine} → IsPool s [] → alloc_page s ≡ (null, s)
unfolding alloc_page
alloc_page-nil p = ground (arith, p.chain)

-- Only an empty pool makes `pmm_alloc_page` return NULL.
pub alloc_page-ne_null :
    {s : Machine} (xs : List ℕ) → IsPool s xs → (alloc_page s).0 ≡ null → xs ≡ []
alloc_page-ne_null [] p h = refl
alloc_page-ne_null (x ∷ xs) p h = absurd (p.chain.1 (sym (alloc_page-cons p).0 ∙ h))

-- A page that is not free yet becomes the first of the pool.
pub free_page-IsPool :
    {s : Machine} {xs : List ℕ} (q : ℕ)
    → IsPool s xs
    → q ≢ null
    → Outside q xs
    → suc (length xs) < word
    → IsPool (free_page q s) (q ∷ xs)
unfolding free_page
free_page-IsPool {s} {xs} q p ne o small = record {
  chain =
      (refl, ne, o, rw (write_self s.mem q s.pmm.free_list) (Chain-write s.mem q _ _ xs o p.chain));
  counted = omega (arith, p.counted);
  small = small;
}

-- Freeing a page and allocating again gives that page back, with the allocator as before.
pub alloc_page-free_page :
    {s : Machine} {xs : List ℕ} (q : ℕ)
    → IsPool s xs
    → q ≢ null
    → s.pmm.used_pages < word
    → ((alloc_page (free_page q s)).0 ≡ q) × ((alloc_page (free_page q s)).1.pmm ≡ s.pmm)
unfolding free_page pop_page
alloc_page-free_page {s} {xs} q p ne small =
    rw (alloc_page-pop (free_page q s) ne)
      (refl, ground (arith, write_self s.mem q s.pmm.free_list))
