-- ===== src/Pmm/Pages.antt =====
-- The page loop of `pmm_init`, src/MemoryManager/pmm.c: what it pushes onto the free list.
use mini_user_os.Prelude.{
  ℕ, zero, suc, ◌+◌, ◌*◌, ◌<◌, ◌≤◌, ◌≡◌, ◌≢◌, ◌⊎◌, inl, inr, refl, sym, List, [], ◌∷◌, arith,
  ℕ_discrete, length, ◌==◌, if◌then◌else◌, Bool-cases,
}
use mini_user_os.Machine.{Machine, word, add64, null, write_self}
use mini_user_os.Pmm.{add_page, add_pages}
use mini_user_os.Pmm.Pool.{IsPool, Outside, Chain-write}

abbrev pub In : ℕ → List ℕ → Type 0
In y [] = ⊥
In y (x ∷ xs) = (x ≡ y) ⊎ In y xs

Outside-of_not_In : (y : ℕ) (xs : List ℕ) → ¬ (In y xs) → Outside y xs
Outside-of_not_In y [] h = tt
Outside-of_not_In y (x ∷ xs) h = (λ e. h (inl e), Outside-of_not_In y xs (λ i. h (inr i)))

-- Page 0 is not pushed.
push_page : ℕ → List ℕ → List ℕ
push_page addr xs = if addr == null then xs else addr ∷ xs

add_page-IsPool :
    {s : Machine} {xs : List ℕ} (addr : ℕ)
    → IsPool s xs
    → ¬ (In addr xs)
    → suc (length xs) < word
    → IsPool (add_page addr s) (push_page addr xs)
unfolding add_page push_page
add_page-IsPool {s} {xs} addr p new small = elim (Bool-cases (addr == null)) [
  | inl e ↦ rw e (record { chain = p.chain; counted = p.counted; small = p.small })
  | inr ne ↦ rw ne (record {
    chain = (
      refl,
      ground arith,
      Outside-of_not_In addr xs new,
      rw (write_self s.mem addr s.pmm.free_list)
          (Chain-write s.mem addr _ _ xs (Outside-of_not_In addr xs new) p.chain),
    );
    counted = omega (arith, p.counted);
    small = small;
  })
]

-- The list after the `left` pages from `base + p * 4096` on.
pub push_pages : ℕ → ℕ → ℕ → List ℕ → List ℕ
push_pages zero base p xs = xs
push_pages (suc left) base p xs = push_pages left base (p + 1) (push_page (base + p * 4096) xs)

-- `y` is the address of one of the pages `p`, …, `p + left - 1` behind `base`.
abbrev pub Span : ℕ → ℕ → ℕ → ℕ → Type 0
Span left base p y = (k : ℕ) × (p ≤ k) × (k < p + left) × (y ≡ base + k * 4096)

In-push_page : (y addr : ℕ) (xs : List ℕ) → In y (push_page addr xs) → (addr ≡ y) ⊎ In y xs
unfolding push_page
In-push_page y addr xs i = ground arith

length-push_page : (addr : ℕ) (xs : List ℕ) → length (push_page addr xs) ≤ suc (length xs)
unfolding push_page
length-push_page addr xs = ground arith

pub add_pages-IsPool :
    (left base p : ℕ) {s : Machine} {xs : List ℕ}
    → IsPool s xs
    → ((y : ℕ) → In y xs → ¬ (Span left base p y))
    → base + (p + left) * 4096 ≤ word
    → length xs + left < word
    → IsPool (add_pages left base p s) (push_pages left base p xs)
unfolding add_pages push_pages
add_pages-IsPool zero base p pool apart fits small = pool
add_pages-IsPool (suc left) base p {s} {xs} pool apart fits small =
    rw here (add_pages-IsPool left base (p + 1) first later (omega arith) (omega (arith, short)))
  where
    addr : ℕ
    addr = base + p * 4096

    here : add64 base (p * 4096) ≡ addr
    here = omega arith

    first : IsPool (add_page addr s) (push_page addr xs)
    first =
        add_page-IsPool addr pool (λ i. apart addr i (p, omega arith, omega arith, refl))
          (omega arith)

    short : length (push_page addr xs) ≤ suc (length xs)
    short = length-push_page addr xs

    later : (y : ℕ) → In y (push_page addr xs) → ¬ (Span left base (p + 1) y)
    later y i (k, lo, hi, e) = elim (In-push_page y addr xs i) [
      | inl same ↦ omega arith
      | inr old ↦ apart y old (k, omega arith, omega arith, e)
    ]

push_page-In :
    (y addr : ℕ) (xs : List ℕ) → (addr ≡ y) × (y ≢ null) ⊎ In y xs → In y (push_page addr xs)
unfolding push_page
push_page-In y addr xs (inl (e, ne)) = ground arith
push_page-In y addr xs (inr i) = ground arith

In-push_page-ne :
    (y addr : ℕ) (xs : List ℕ) → In y (push_page addr xs) → (addr ≡ y) × (y ≢ null) ⊎ In y xs
unfolding push_page
In-push_page-ne y addr xs i = elim (Bool-cases (addr == null)) [
  | inl e ↦ inr (rw e at i)
  | inr ne ↦ elim (rw ne at i) [ inl same ↦ inl (same, ground arith) | inr old ↦ inr old ]
]

pub In-push_pages :
    (left base p y : ℕ) (xs : List ℕ)
    → In y (push_pages left base p xs)
    → (y ≢ null) × Span left base p y ⊎ In y xs
unfolding push_pages
In-push_pages zero base p y xs i = inr i
In-push_pages (suc left) base p y xs i =
    elim (In-push_pages left base (p + 1) y (push_page (base + p * 4096) xs) i) [
      | inl (ne, (k, lo, hi, e)) ↦ inl (ne, (k, omega arith, omega arith, e))
      | inr j ↦ elim (In-push_page-ne y (base + p * 4096) xs j) [
        | inl (e, ne) ↦ inl (ne, (p, omega arith, omega arith, sym e))
        | inr old ↦ inr old
      ]
    ]

pub push_pages-In :
    (left base p y : ℕ) (xs : List ℕ)
    → (y ≢ null) × Span left base p y ⊎ In y xs
    → In y (push_pages left base p xs)
unfolding push_pages
push_pages-In zero base p y xs (inl (ne, (k, lo, hi, e))) = absurd (omega arith)
push_pages-In zero base p y xs (inr i) = i
push_pages-In (suc left) base p y xs (inr i) =
    push_pages-In left base (p + 1) y _ (inr (push_page-In y (base + p * 4096) xs (inr i)))
push_pages-In (suc left) base p y xs (inl (ne, (k, lo, hi, e))) = elim (ℕ_discrete k p) [
  | yes same ↦
      push_pages-In left base (p + 1) y _
        (inr (push_page-In y (base + p * 4096) xs (inl (omega arith, ne))))
  | no other ↦ push_pages-In left base (p + 1) y _ (inl (ne, (k, omega arith, omega arith, e)))
]

pub length-push_pages :
    (left base p : ℕ) (xs : List ℕ) → length (push_pages left base p xs) ≤ length xs + left
unfolding push_pages
length-push_pages zero base p xs = omega arith
length-push_pages (suc left) base p xs = omega (
  arith,
  length-push_pages left base (p + 1) (push_page (base + p * 4096) xs),
  length-push_page (base + p * 4096) xs,
)
