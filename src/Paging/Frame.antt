-- ===== src/Paging/Frame.antt =====
-- What a change of memory that spares all but one entry of a tree of page tables leaves alone.
use mini_user_os.Prelude.{
  ℕ, ◌+◌, ◌<◌, ◌≤◌, ◌≡◌, ◌≢◌, refl, sym, ap, ◌∙◌, true, false, not, Option, none, some, List, [],
  ◌∷◌, ◌++◌, arith, length, ◌==◌, if◌then◌else◌, ◌||◌,
}
use mathlib.Core.Path.{subst}
use mini_user_os.Machine.{Memory, null}
use mini_user_os.Paging.Entry.{get_table_ptr, is_present, is_large_page, slot}
use mini_user_os.Paging.Table.{get_table}
use mini_user_os.Paging.Walk.{
  Leads, IsTree, InRange, leaf, snoc, snoc-append, length-snoc, Leads-snoc,
}

-- The value of a walk's step depends on its rest only where the walk goes on.
pick :
    (q : List ℕ) (entry : ℕ) {a b : Option (ℕ × ℕ)}
    → (is_present entry ≡ true → is_large_page entry ≡ false → length q ≢ 0 → a ≡ b)
    → (if not (is_present entry)
        then none
        else if is_large_page entry || (length q == 0)
        then some (entry, length q)
        else a)
      ≡ (if not (is_present entry)
          then none
          else if is_large_page entry || (length q == 0)
          then some (entry, length q)
          else b)
pick q entry h = ground arith

pub get_table-same :
    (m n : Memory) (t i : ℕ) → n (slot t i) ≡ m (slot t i) → get_table t i n ≡ get_table t i m
unfolding get_table
get_table-same m n t i e = rw e

-- An entry that names a table is read as that table.
pub get_table-linked :
    (m : Memory) (t i : ℕ)
    → is_present (m (slot t i)) ≡ true
    → is_large_page (m (slot t i)) ≡ false
    → get_table t i m ≡ get_table_ptr (m (slot t i))
unfolding get_table
get_table-linked m t i p l = rw (p, l)

-- The path does not pass through the entry at the end of `target`.
abbrev pub Avoids : List ℕ → List ℕ → Type 0
Avoids path target = (rest : List ℕ) → path ≢ target ++ rest

-- `n` is `m` at the entries of all tables, but for the entry at the end of `target`.
pub record Same (m n : Memory) (root : ℕ) (target : List ℕ) : Type 0 where
  pub at :
      (p : List ℕ) (t i : ℕ)
      → length p ≤ 3
      → Leads m root p t
      → i < 512
      → snoc p i ≢ target
      → n (slot t i) ≡ m (slot t i)

step-apart :
    (target p : List ℕ) (i : ℕ) (q : List ℕ) → Avoids (p ++ (i ∷ q)) target → snoc p i ≢ target
step-apart target p i q a e = a q (sym (snoc-append p i q) ∙ ap (λ r. r ++ q) e)

module _ {m n : Memory} {root : ℕ} {target : List ℕ} (same : Same m n root target) where
  -- Paths that avoid the entry lead to the same tables after the change …
  pub Leads-forth :
      (q p : List ℕ) (t u : ℕ)
      → Leads m root p t
      → length p + length q ≤ 3
      → Avoids (p ++ q) target
      → Leads m t q u
      → Leads n t q u
  Leads-forth [] p t u lp few a l = l
  Leads-forth (i ∷ q) p t u lp few a l =
      let e =
        get_table-same m n t i (same.at p t i (omega arith) lp l.0 (step-apart target p i q a)) in
      (
        l.0,
        rw e l.1,
        rw e (
            Leads-forth q (snoc p i) (get_table t i m) u (Leads-snoc m root p t i lp l.0 l.1)
              (omega (arith, length-snoc p i))
              (subst (λ r. Avoids r target) (sym (snoc-append p i q)) a) l.2),
      )

  -- … and before it.
  pub Leads-back :
      (q p : List ℕ) (t u : ℕ)
      → Leads m root p t
      → length p + length q ≤ 3
      → Avoids (p ++ q) target
      → Leads n t q u
      → Leads m t q u
  Leads-back [] p t u lp few a l = l
  Leads-back (i ∷ q) p t u lp few a l =
      let e =
        get_table-same m n t i (same.at p t i (omega arith) lp l.0 (step-apart target p i q a)) in
      let ne : get_table t i m ≢ null = subst (λ v. v ≢ null) e l.1 in
      (
        l.0,
        ne,
        Leads-back q (snoc p i) (get_table t i m) u (Leads-snoc m root p t i lp l.0 ne)
            (omega (arith, length-snoc p i))
            (subst (λ r. Avoids r target) (sym (snoc-append p i q)) a)
            (subst (λ v. Leads n v q u) e l.2),
      )

  module _ {xs : List ℕ} (tree : IsTree m root xs) where
    -- What a page is mapped to, for pages whose path avoids the entry.
    pub leaf-same :
        (q p : List ℕ) (t : ℕ)
        → Leads m root p t
        → length p + length q ≡ 4
        → InRange q
        → Avoids (p ++ q) target
        → leaf n t q ≡ leaf m t q
    unfolding leaf
    leaf-same [] p t lp four r a = refl
    leaf-same (i ∷ q) p t lp four r a =
        let e : n (slot t i) ≡ m (slot t i) =
          same.at p t i (omega arith) lp r.0 (step-apart target p i q a) in
        rw e (
          pick q (m (slot t i)) λ present small more.
            let linked = get_table-linked m t i present small in
            let ne : get_table t i m ≢ null =
              subst (λ v. v ≢ null) (sym linked)
                (tree.linked p t i (omega arith) r.0 lp present small) in
            leaf-same q (snoc p i) (get_table_ptr (m (slot t i)))
              (subst (Leads m root (snoc p i)) linked (Leads-snoc m root p t i lp r.0 ne))
              (omega (arith, length-snoc p i)) r.1
              (subst (λ path. Avoids path target) (sym (snoc-append p i q)) a))
