-- ===== src/Paging/Small.antt =====
-- Pages of 4 KB and the tables above them (src/MemoryManager/paging.c).
use mini_user_os.Prelude.{
  ℕ, suc, ◌+◌, ◌<◌, ◌≤◌, ◌≡◌, ◌≢◌, ◌⊎◌, inl, inr, refl, sym, ap, ◌∙◌, true, false, some, List, [],
  ◌∷◌, ◌++◌, arith, length, Bool-cases,
}
use mathlib.Core.Path.{subst}
use mini_user_os.Machine.{Machine, Memory, null}
use mini_user_os.Paging.Entry.{
  get_pml4_index, get_pdpt_index, get_pd_index, get_pt_index, is_present, is_large_page, slot,
}
use mini_user_os.Paging.Bits.{index-lt}
use mini_user_os.Paging.Walk.{Leads, InRange, leaf}
use mini_user_os.Paging.Steps.{leaf-Leads}
use mini_user_os.Paging.Create.{IsReady, Created}

-- The indices of a virtual address, the root's first.
abbrev pub path_of : ℕ → List ℕ
path_of virt =
    get_pml4_index virt ∷ get_pdpt_index virt ∷ get_pd_index virt ∷ get_pt_index virt ∷ []

pub path_of-InRange : (virt : ℕ) → InRange (path_of virt)
path_of-InRange virt =
    ((index-lt virt).0, ((index-lt virt).1, ((index-lt virt).2, ((index-lt virt).3, tt))))

-- No page of 2 MB or 1 GB is mapped there.
abbrev pub IsSmall : Memory → ℕ → List ℕ → Type 0
IsSmall m root path = (e k : ℕ) → leaf m root path ≡ some (e, k) → k ≡ 0

leaf-large :
    (m : Memory) (t i : ℕ) (q : List ℕ)
    → is_present (m (slot t i)) ≡ true
    → is_large_page (m (slot t i)) ≡ true
    → leaf m t (i ∷ q) ≡ some (m (slot t i), length q)
unfolding leaf
leaf-large m t i q present large = rw (present, large)

leaf-last :
    (m : Memory) (t i : ℕ)
    → is_present (m (slot t i)) ≡ true
    → leaf m t (i ∷ []) ≡ some (m (slot t i), 0)
unfolding leaf
leaf-last m t i present = ground arith

-- On the way to a small page no entry is large.
pub IsSmall-step :
    (m : Memory) (root : ℕ) (p : List ℕ) (u i : ℕ) (q : List ℕ)
    → IsSmall m root (p ++ (i ∷ q))
    → length q ≢ 0
    → Leads m root p u
    → is_present (m (slot u i)) ≡ true
    → is_large_page (m (slot u i)) ≡ false
IsSmall-step m root p u i q small ne l present = elim (Bool-cases (is_large_page (m (slot u i)))) [
  | inr e ↦ e
  | inl large ↦ absurd (
      ne (
        small (m (slot u i)) (length q)
          (leaf-Leads m root p (i ∷ q) u l (omega arith) ∙ leaf-large m u i q present large)))
]

-- `s'` maps what `s` maps.
abbrev pub SameLeaves : Machine → Machine → ℕ → Type 0
SameLeaves s s' root =
    (q : List ℕ) → length q ≡ 4 → InRange q → leaf s'.mem root q ≡ leaf s.mem root q

SameLeaves-trans :
    (s t u : Machine) (root : ℕ) → SameLeaves s t root → SameLeaves t u root → SameLeaves s u root
SameLeaves-trans s t u root a b q four r = b q four r ∙ a q four r

-- A table at the end of `path` with at most `k` new tables, or NULL when fewer than `k` pages were left.
abbrev pub Tabled : ℕ → Machine → ℕ → List ℕ → List ℕ → ℕ × Machine → Type 0
Tabled k s root path xs (t, s') =
    ((t ≢ null)
      × (ys : List ℕ) × IsReady s' root ys
      × Leads s'.mem root path t
      × SameLeaves s s' root
      × (length xs ≤ k + length ys))
    ⊎ (t ≡ null) × (length xs < k) × IsReady s' root [] × SameLeaves s s' root

pub Tabled-of_nothing :
    (k : ℕ) (s s' : Machine) (root : ℕ) (path xs : List ℕ)
    → IsReady s root xs
    → 0 < k
    → xs ≡ []
    → s' ≡ s
    → Tabled k s root path xs (null, s')
Tabled-of_nothing k s s' root path xs ready pos empty same = inr (
  refl,
  omega (arith, ap length empty),
  subst (λ m. IsReady m root []) (sym same) (subst (IsReady s root) empty ready),
  λ q four r. ap (λ (m : Machine). leaf m.mem root q) same,
)

pub Tabled-of_Created :
    (s : Machine) (root : ℕ) (path xs : List ℕ) (r : ℕ × Machine)
    → IsReady s root xs
    → Created s root path xs r
    → Tabled 1 s root path xs r
Tabled-of_Created s root path xs r ready (inl (ne, ys, e)) =
    inl (ne, ys, e.ready, e.leads, e.leaves, omega (arith, e.left))
Tabled-of_Created s root path xs (t, s') ready (inr (no_table, empty, same)) =
    subst (λ v. Tabled 1 s root path xs (v, s')) (sym no_table)
      (Tabled-of_nothing 1 s s' root path xs ready (omega arith) empty same)

-- What comes after a first table.
pub Tabled-trans :
    (k : ℕ) (s s' : Machine) (root : ℕ) (path xs ys : List ℕ) (r : ℕ × Machine)
    → SameLeaves s s' root
    → length xs ≤ suc (length ys)
    → Tabled k s' root path ys r
    → Tabled (suc k) s root path xs r
Tabled-trans k s s' root path xs ys (t, s2) same left (inl (ne, zs, ready, l, leaves, more)) =
    inl (ne, zs, ready, l, SameLeaves-trans s s' s2 root same leaves, omega arith)
Tabled-trans k s s' root path xs ys (t, s2) same left (inr (no_table, few, ready, leaves)) =
    inr (no_table, omega arith, ready, SameLeaves-trans s s' s2 root same leaves)

pub IsSmall-after :
    (s s' : Machine) (root virt : ℕ)
    → SameLeaves s s' root
    → IsSmall s.mem root (path_of virt)
    → IsSmall s'.mem root (path_of virt)
IsSmall-after s s' root virt same small e k h =
    small e k (sym (same (path_of virt) refl (path_of-InRange virt)) ∙ h)
