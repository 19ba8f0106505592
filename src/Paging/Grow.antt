-- ===== src/Paging/Grow.antt =====
-- A tree of page tables after a new table was entered (`get_or_create_table`,
-- src/MemoryManager/paging.c): it is a tree again, with one path more, and maps what it mapped.
use mini_user_os.Prelude.{
  ℕ, ◌<◌, ◌≤◌, ◌≡◌, ◌≢◌, ◌⊎◌, inl, inr, refl, sym, ap, ◌∙◌, true, false, List, [], ◌∷◌, ◌++◌, arith,
  length, length-append, ℕ_discrete,
}
use mathlib.Core.Path.{subst}
use mathlib.Core.Bool.{false≢true}
use mathlib.Core.List.{append_assoc, append-nil}
use mini_user_os.Machine.{Memory, null}
use mini_user_os.Pmm.Pool.{Outside}
use mini_user_os.Paging.Entry.{get_table_ptr, is_present, is_large_page, slot}
use mini_user_os.Paging.Table.{get_table}
use mini_user_os.Paging.Bits.{
  IsFrame, table_entry-ptr, table_entry-present, table_entry-large, zero-present,
}
use mini_user_os.Paging.Walk.{
  Leads, IsTree, InRange, leaf, snoc, slot-path, Leads-snoc, length-snoc,
}
use mini_user_os.Paging.Frame.{Same, Avoids, get_table-linked, Leads-forth, Leads-back}
use mini_user_os.Paging.Frame.{leaf-same}
use mini_user_os.Paging.Fresh.{
  Frames, through, with_table, with_table-entry, with_table-out, with_table-zero, slots-ne,
}
use mini_user_os.Paging.Steps.{Leads-rest, get_table-absent, leaf-Leads, leaf-absent, in_range}

-- A new table `t`, the first of the free pages `t ∷ xs`, is entered at index `j` of the table `u` that
-- the path `ks` leads to, where no entry was present.
module _ {m : Memory} {root : ℕ} {t : ℕ} {xs : List ℕ} (tree : IsTree m root (t ∷ xs)) (ks : List ℕ)
    (u j flags : ℕ) (short : length ks ≤ 2) (j_in : j < 512) (at : Leads m root ks u)
    (absent : is_present (m (slot u j)) ≡ false) (frames : Frames (t ∷ xs))
    (fresh : Outside t xs) where
  abbrev after : Memory
  after = with_table m u j t flags

  abbrev target : List ℕ
  target = snoc ks j

  table-ne : (p : List ℕ) (v : ℕ) → length p ≤ 3 → Leads m root p v → v ≢ t
  table-ne p v few l e = (tree.outside p v few l).0 (sym e)

  old-slot :
      (p : List ℕ) (v i : ℕ)
      → length p ≤ 3
      → Leads m root p v
      → i < 512
      → slot v i ≢ slot u j
      → after (slot v i) ≡ m (slot v i)
  old-slot p v i few l lt ne =
      with_table-out m u j t flags (slot v i) ne
        (λ k k_in. slots-ne v t i k (tree.frame p v few l) frames.0 lt k_in (table-ne p v few l))

  zero-slot : (i : ℕ) → i < 512 → after (slot t i) ≡ 0
  zero-slot i lt = with_table-zero m u j t flags i lt (
      slots-ne t u i j frames.0 (tree.frame ks u (omega arith) at) lt j_in
        (λ e. table-ne ks u (omega arith) at (sym e)))

  pub same : Same m after root target
  same = record {
    at = λ p v i few l lt ne.
        old-slot p v i few l lt
          (λ e. ne (slot-path tree p ks v u i j few (omega arith) l at lt j_in e));
  }

  entry-table : get_table u j after ≡ t
  entry-table =
      get_table-linked after u j
        (rw (with_table-entry m u j t flags) (table_entry-present t flags frames.0))
        (rw (with_table-entry m u j t flags) (table_entry-large t flags frames.0))
      ∙ ap get_table_ptr (with_table-entry m u j t flags)
      ∙ table_entry-ptr t flags frames.0

  short-Avoids : (p : List ℕ) → length p < length target → Avoids p target
  short-Avoids p few rest e = absurd (omega (arith, ap length e, length-append target rest))

  at-after : Leads after root ks u
  at-after =
      Leads-forth same ks [] root u refl (omega arith)
        (short-Avoids ks (omega (arith, length-snoc ks j))) at

  -- The new path leads to the new table.
  pub Leads-new : Leads after root target t
  Leads-new = subst (Leads after root target) entry-table (
      Leads-snoc after root ks u j at-after j_in
        (subst (λ v. v ≢ null) (sym entry-table) frames.0.0))

  -- No old path goes through the entry, so all are kept.
  old-Avoids : (p : List ℕ) (v : ℕ) → Leads m root p v → Avoids p target
  old-Avoids p v l rest e =
      (Leads-rest m root ks (j ∷ rest) u v at
          (subst (λ r. Leads m root r v) (e ∙ append_assoc ks (j ∷ []) rest) l)).1
        (get_table-absent m u j absent)

  pub Leads-kept : (p : List ℕ) (v : ℕ) → length p ≤ 3 → Leads m root p v → Leads after root p v
  Leads-kept p v few l = Leads-forth same p [] root v refl (omega arith) (old-Avoids p v l) l

  -- The paths after the change: the old ones and the new one.
  Leads-cases :
      (p : List ℕ) (v : ℕ)
      → length p ≤ 3
      → Leads after root p v
      → Leads m root p v ⊎ (p ≡ target) × (v ≡ t)
  Leads-cases p v few l = elim (through target p) [
    | inr a ↦ inl (Leads-back same p [] root v refl (omega arith) a l)
    | inl (rest, e) ↦ inr (
        ended rest e
          (Leads-rest after root target rest t v Leads-new (subst (λ r. Leads after root r v) e l)))
  ]
    where
      ended : (rest : List ℕ) → p ≡ target ++ rest → Leads after t rest v → (p ≡ target) × (v ≡ t)
      ended [] e k = (e ∙ append-nil target, sym k)
      ended (i ∷ rest) e k =
          absurd (k.1 (get_table-absent after t i (rw (zero-slot i k.0) zero-present)))

  pub IsFrame-after : (p : List ℕ) (v : ℕ) → length p ≤ 3 → Leads after root p v → IsFrame v
  IsFrame-after p v few l = elim (Leads-cases p v few l) [
    | inl old ↦ tree.frame p v few old
    | inr new ↦ subst IsFrame (sym new.1) frames.0
  ]

  unshared-after :
      (p q : List ℕ) (v : ℕ)
      → length p ≤ 3
      → length q ≤ 3
      → Leads after root p v
      → Leads after root q v
      → p ≡ q
  unshared-after p q v hp hq lp lq = elim (Leads-cases p v hp lp) [
    | inl old ↦ elim (Leads-cases q v hq lq) [
      | inl old' ↦ tree.unshared p q v hp hq old old'
      | inr new' ↦ absurd (table-ne p v hp old new'.1)
    ]
    | inr new ↦ elim (Leads-cases q v hq lq) [
      | inl old' ↦ absurd (table-ne q v hq old' new.1)
      | inr new' ↦ new.0 ∙ sym new'.0
    ]
  ]

  Outside-after : (p : List ℕ) (v : ℕ) → length p ≤ 3 → Leads after root p v → Outside v xs
  Outside-after p v few l = elim (Leads-cases p v few l) [
    | inl old ↦ (tree.outside p v few old).1
    | inr new ↦ subst (λ w. Outside w xs) (sym new.1) fresh
  ]

  linked-after :
      (p : List ℕ) (v i : ℕ)
      → length p ≤ 2
      → i < 512
      → Leads after root p v
      → is_present (after (slot v i)) ≡ true
      → is_large_page (after (slot v i)) ≡ false
      → get_table_ptr (after (slot v i)) ≢ null
  linked-after p v i few lt l present small = elim (ℕ_discrete (slot v i) (slot u j)) [
    | yes here ↦
        subst (λ a. get_table_ptr (after a) ≢ null) (sym here)
          (rw (with_table-entry m u j t flags, table_entry-ptr t flags frames.0) frames.0.0)
    | no other ↦ elim (Leads-cases p v (omega arith) l) [
      | inl old ↦
          let e = old-slot p v i (omega arith) old lt other in
          rw e (
            tree.linked p v i few lt old (subst (λ a. is_present a ≡ true) e present)
              (subst (λ a. is_large_page a ≡ false) e small))
      | inr new ↦ absurd (
          false≢true (
            sym zero-present
            ∙ sym (ap is_present (ap (λ w. after (slot w i)) new.1 ∙ zero-slot i lt))
            ∙ present))
    ]
  ]

  plain-after :
      (i : ℕ)
      → i < 512
      → is_present (after (slot root i)) ≡ true
      → is_large_page (after (slot root i)) ≡ false
  plain-after i lt present = elim (ℕ_discrete (slot root i) (slot u j)) [
    | yes here ↦
        ap (λ a. is_large_page (after a)) here
        ∙ ap is_large_page (with_table-entry m u j t flags)
        ∙ table_entry-large t flags frames.0
    | no other ↦
        let e = old-slot [] root i (omega arith) refl lt other in
        rw e (tree.plain i lt (subst (λ a. is_present a ≡ true) e present))
  ]

  pub IsTree-after : IsTree after root xs
  IsTree-after = record {
    frame = IsFrame-after;
    unshared = unshared-after;
    outside = Outside-after;
    linked = linked-after;
    plain = plain-after;
  }

  -- Nothing that was mapped moves, and nothing new is mapped.
  pub leaf-after : (q : List ℕ) → length q ≡ 4 → InRange q → leaf after root q ≡ leaf m root q
  leaf-after q four r = elim (through target q) [
    | inr a ↦ leaf-same same tree q [] root refl (omega arith) r a
    | inl (rest, e) ↦ ended rest e
  ]
    where
      ended : (rest : List ℕ) → q ≡ target ++ rest → leaf after root q ≡ leaf m root q
      ended [] e = absurd (omega (arith, ap length e, length-append target [], length-snoc ks j))
      ended (i ∷ rest) e =
          ap (leaf after root) e
          ∙ leaf-Leads after root target (i ∷ rest) t Leads-new (omega arith)
          ∙ leaf-absent after t i rest
              (rw (zero-slot i (in_range target i rest (subst InRange e r))) zero-present)
          ∙ sym (
              ap (leaf m root) (e ∙ append_assoc ks (j ∷ []) (i ∷ rest))
              ∙ leaf-Leads m root ks (j ∷ i ∷ rest) u at (omega arith)
              ∙ leaf-absent m u j (i ∷ rest) absent)
