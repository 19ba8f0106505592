-- ===== src/Paging/Walk.antt =====
-- A tree of page tables (src/MemoryManager/paging.c): which tables a path of indices leads to, and
-- what a write of one entry leaves alone.
use mini_user_os.Prelude.{
  ℕ, suc, ◌<◌, ◌≤◌, ◌≡◌, ◌≢◌, sym, ap, ◌∙◌, true, false, not, Option, none, some, List, [], ◌∷◌,
  ◌++◌, arith, length, length-append, ◌==◌, if◌then◌else◌, ◌||◌,
}
use mathlib.Core.List.{append_assoc}
use mathlib.Core.Path.{subst}
use mini_user_os.Machine.{Memory, null}
use mini_user_os.Pmm.Pool.{Outside}
use mini_user_os.Paging.Entry.{get_table_ptr, is_present, is_large_page, slot}
use mini_user_os.Paging.Table.{get_table}
use mini_user_os.Paging.Bits.{IsFrame}

-- From the table `t` the indices `is` lead to the table `u`.
abbrev pub Leads : Memory → ℕ → List ℕ → ℕ → Type 0
Leads m t [] u = t ≡ u
Leads m t (i ∷ path) u = (i < 512) × (get_table t i m ≢ null) × Leads m (get_table t i m) path u

-- The tables below `root` do not overlap one another or the free pages `xs`; every entry that names a
-- table names one; the root has no large pages.
pub record IsTree (m : Memory) (root : ℕ) (xs : List ℕ) : Type 0 where
  pub frame : (p : List ℕ) (u : ℕ) → length p ≤ 3 → Leads m root p u → IsFrame u
  pub unshared :
      (p q : List ℕ) (u : ℕ)
      → length p ≤ 3
      → length q ≤ 3
      → Leads m root p u
      → Leads m root q u
      → p ≡ q
  pub outside : (p : List ℕ) (u : ℕ) → length p ≤ 3 → Leads m root p u → Outside u xs
  pub linked :
      (p : List ℕ) (u i : ℕ)
      → length p ≤ 2
      → i < 512
      → Leads m root p u
      → is_present (m (slot u i)) ≡ true
      → is_large_page (m (slot u i)) ≡ false
      → get_table_ptr (m (slot u i)) ≢ null
  pub plain :
      (i : ℕ)
      → i < 512
      → is_present (m (slot root i)) ≡ true
      → is_large_page (m (slot root i)) ≡ false

abbrev pub snoc : List ℕ → ℕ → List ℕ
snoc p i = p ++ (i ∷ [])

pub length-snoc : (p : List ℕ) (i : ℕ) → length (snoc p i) ≡ suc (length p)
length-snoc p i = omega (arith, length-append p (i ∷ []))

pub snoc-append : (p : List ℕ) (i : ℕ) (q : List ℕ) → snoc p i ++ q ≡ p ++ (i ∷ q)
snoc-append p i q = append_assoc p (i ∷ []) q

pub Leads-snoc :
    (m : Memory) (t : ℕ) (p : List ℕ) (u i : ℕ)
    → Leads m t p u
    → i < 512
    → get_table u i m ≢ null
    → Leads m t (snoc p i) (get_table u i m)
Leads-snoc m t [] u i e h ne =
    (h, subst (λ v. get_table v i m ≢ null) (sym e) ne, ap (λ v. get_table v i m) e)
Leads-snoc m t (j ∷ p) u i l h ne = (l.0, l.1, Leads-snoc m (get_table t j m) p u i l.2 h ne)

pub Leads-append :
    (m : Memory) (t : ℕ) (p q : List ℕ) (u v : ℕ)
    → Leads m t p u
    → Leads m u q v
    → Leads m t (p ++ q) v
Leads-append m t [] q u v e l = subst (λ w. Leads m w q v) (sym e) l
Leads-append m t (j ∷ p) q u v k l = (k.0, k.1, Leads-append m (get_table t j m) p q u v k.2 l)

-- A path leads to one table.
pub Leads-unique :
    (m : Memory) (t : ℕ) (p : List ℕ) (u v : ℕ) → Leads m t p u → Leads m t p v → u ≡ v
Leads-unique m t [] u v a b = sym a ∙ b
Leads-unique m t (j ∷ p) u v a b = Leads-unique m (get_table t j m) p u v a.2 b.2

-- The entry that a walk ends at, with the number of levels below it: a page of 4 KB (0), 2 MB (1) or
-- 1 GB (2); `none` if the walk meets an entry that is not present.
unfoldable pub leaf : Memory → ℕ → List ℕ → Option (ℕ × ℕ)
leaf m t [] = none
leaf m t (i ∷ path) =
    let rest = leaf m (get_table_ptr (m (slot t i))) path in
    if not (is_present (m (slot t i)))
    then none
    else if is_large_page (m (slot t i)) || (length path == 0)
    then some (m (slot t i), length path)
    else rest

-- Every index is one of a table's 512.
abbrev pub InRange : List ℕ → Type 0
InRange [] = Unit {0}
InRange (i ∷ path) = (i < 512) × InRange path

pub slots-apart :
    (t u i j : ℕ)
    → IsFrame t
    → IsFrame u
    → i < 512
    → j < 512
    → slot t i ≡ slot u j
    → (t ≡ u) × (i ≡ j)
slots-apart t u i j a b h k e = (omega (arith, a.1, b.1), omega (arith, a.1, b.1))

module _ {m : Memory} {root : ℕ} {xs : List ℕ} (tree : IsTree m root xs) where
  -- Two table entries that are one have one path.
  pub slot-path :
      (p q : List ℕ) (t u i j : ℕ)
      → length p ≤ 3
      → length q ≤ 3
      → Leads m root p t
      → Leads m root q u
      → i < 512
      → j < 512
      → slot t i ≡ slot u j
      → snoc p i ≡ snoc q j
  slot-path p q t u i j hp hq lp lq hi hj e =
      let same = slots-apart t u i j (tree.frame p t hp lp) (tree.frame q u hq lq) hi hj e in
      rw (same.1, tree.unshared p q u hp hq (subst (Leads m root p) same.0 lp) lq)
