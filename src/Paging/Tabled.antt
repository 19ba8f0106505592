-- ===== src/Paging/Tabled.antt =====
-- `get_or_create_pt`, src/MemoryManager/paging.c: it finds or builds the tables above a small page, and
-- maps nothing.
use mini_user_os.Prelude.{
  ℕ, ◌≡◌, ◌≢◌, inl, inr, refl, sym, true, false, List, [], ◌∷◌, arith, Bool-cases,
}
use mathlib.Core.Path.{subst}
use mini_user_os.Machine.{Machine, null}
use mini_user_os.Paging.Entry.{
  get_pml4_index, get_pdpt_index, get_pd_index, get_pt_index, is_present, is_large_page, slot,
}
use mini_user_os.Paging.Table.{
  get_or_create_table, get_or_split, pt_below_pd, pt_below_pdpt, get_or_create_pt,
}
use mini_user_os.Paging.Bits.{index-lt}
use mini_user_os.Paging.Walk.{Leads}
use mini_user_os.Paging.Create.{IsReady, Created, get_or_create_table-Created}
use mini_user_os.Paging.Small.{
  IsSmall-step, Tabled-of_nothing, Tabled-of_Created, Tabled-trans, IsSmall-after, path_of, IsSmall,
  Tabled,
}

pt_below_pd-small :
    (virt flags : ℕ) (s : Machine) (pd : ℕ)
    → pd ≢ null
    → (is_present (s.mem (slot pd (get_pd_index virt))) ≡ true
        → is_large_page (s.mem (slot pd (get_pd_index virt))) ≡ false)
    → pt_below_pd pd virt flags s ≡ get_or_create_table pd (get_pd_index virt) flags s
unfolding pt_below_pd get_or_split
pt_below_pd-small virt flags s pd ne plain =
    elim (Bool-cases (is_present (s.mem (slot pd (get_pd_index virt))))) [
      | inl present ↦ rw (present, plain present) (ground arith)
      | inr absent ↦ rw absent (ground arith)
    ]

pt_below_pdpt-small :
    (virt flags : ℕ) (s : Machine) (pdpt : ℕ)
    → pdpt ≢ null
    → (is_present (s.mem (slot pdpt (get_pdpt_index virt))) ≡ true
        → is_large_page (s.mem (slot pdpt (get_pdpt_index virt))) ≡ false)
    → pt_below_pdpt pdpt virt flags s
      ≡ pt_below_pd
          (get_or_create_table pdpt (get_pdpt_index virt) flags s).0
          virt
          flags
          (get_or_create_table pdpt (get_pdpt_index virt) flags s).1
unfolding pt_below_pdpt
pt_below_pdpt-small virt flags s pdpt ne plain =
    elim (Bool-cases (is_present (s.mem (slot pdpt (get_pdpt_index virt))))) [
      | inl present ↦ rw (present, plain present) (ground arith)
      | inr absent ↦ rw absent (ground arith)
    ]

pt_below_pd-null :
    (pd virt flags : ℕ) (s : Machine) → pd ≡ null → pt_below_pd pd virt flags s ≡ (null, s)
unfolding pt_below_pd
pt_below_pd-null pd virt flags s e = rw e refl

pt_below_pdpt-null :
    (pdpt virt flags : ℕ) (s : Machine) → pdpt ≡ null → pt_below_pdpt pdpt virt flags s ≡ (null, s)
unfolding pt_below_pdpt
pt_below_pdpt-null pdpt virt flags s e = rw e refl

module _ (root virt flags : ℕ) where
  abbrev i4 : ℕ
  i4 = get_pml4_index virt

  abbrev i3 : ℕ
  i3 = get_pdpt_index virt

  abbrev i2 : ℕ
  i2 = get_pd_index virt

  abbrev i1 : ℕ
  i1 = get_pt_index virt

  pt_below_pd-Tabled :
      (s : Machine) (xs : List ℕ) (pd : ℕ)
      → IsReady s root xs
      → pd ≢ null
      → Leads s.mem root (i4 ∷ i3 ∷ []) pd
      → IsSmall s.mem root (path_of virt)
      → Tabled 1 s root (i4 ∷ i3 ∷ i2 ∷ []) xs (pt_below_pd pd virt flags s)
  pt_below_pd-Tabled s xs pd ready ne l small = rw whole (
      Tabled-of_Created s root (i4 ∷ i3 ∷ i2 ∷ []) xs _ ready (
        get_or_create_table-Created xs (i4 ∷ i3 ∷ []) pd i2 flags ready (omega arith)
          (index-lt virt).2 l plain))
    where
      plain : is_present (s.mem (slot pd i2)) ≡ true → is_large_page (s.mem (slot pd i2)) ≡ false
      plain = IsSmall-step s.mem root (i4 ∷ i3 ∷ []) pd i2 (i1 ∷ []) small (omega arith) l

      whole : pt_below_pd pd virt flags s ≡ get_or_create_table pd i2 flags s
      whole = pt_below_pd-small virt flags s pd ne plain

  pt_below_pdpt-Tabled :
      (s : Machine) (xs : List ℕ) (pdpt : ℕ)
      → IsReady s root xs
      → pdpt ≢ null
      → Leads s.mem root (i4 ∷ []) pdpt
      → IsSmall s.mem root (path_of virt)
      → Tabled 2 s root (i4 ∷ i3 ∷ i2 ∷ []) xs (pt_below_pdpt pdpt virt flags s)
  pt_below_pdpt-Tabled s xs pdpt ready ne l small = rw whole (go _ created)
    where
      plain :
          is_present (s.mem (slot pdpt i3)) ≡ true → is_large_page (s.mem (slot pdpt i3)) ≡ false
      plain = IsSmall-step s.mem root (i4 ∷ []) pdpt i3 (i2 ∷ i1 ∷ []) small (omega arith) l

      whole :
          pt_below_pdpt pdpt virt flags s
          ≡ pt_below_pd
              (get_or_create_table pdpt i3 flags s).0
              virt
              flags
              (get_or_create_table pdpt i3 flags s).1
      whole = pt_below_pdpt-small virt flags s pdpt ne plain

      created : Created s root (i4 ∷ i3 ∷ []) xs (get_or_create_table pdpt i3 flags s)
      created =
          get_or_create_table-Created xs (i4 ∷ []) pdpt i3 flags ready (omega arith)
            (index-lt virt).1 l plain

      go :
          (r : ℕ × Machine)
          → Created s root (i4 ∷ i3 ∷ []) xs r
          → Tabled 2 s root (i4 ∷ i3 ∷ i2 ∷ []) xs (pt_below_pd r.0 virt flags r.1)
      go (pd, s') (inl (some_pd, ys, e)) =
          Tabled-trans 1 s s' root (i4 ∷ i3 ∷ i2 ∷ []) xs ys _ e.leaves e.left (
            pt_below_pd-Tabled s' ys pd e.ready some_pd e.leads
              (IsSmall-after s s' root virt e.leaves small))
      go (pd, s') (inr (no_pd, empty, same)) =
          subst (Tabled 2 s root (i4 ∷ i3 ∷ i2 ∷ []) xs)
            (sym (pt_below_pd-null pd virt flags s' no_pd))
            (Tabled-of_nothing 2 s s' root (i4 ∷ i3 ∷ i2 ∷ []) xs ready (omega arith) empty same)

  pub get_or_create_pt-Tabled :
      (s : Machine) (xs : List ℕ)
      → IsReady s root xs
      → IsSmall s.mem root (path_of virt)
      → Tabled 3 s root (i4 ∷ i3 ∷ i2 ∷ []) xs (get_or_create_pt root virt flags s)
  unfolding get_or_create_pt
  get_or_create_pt-Tabled s xs ready small = go _ created
    where
      created : Created s root (i4 ∷ []) xs (get_or_create_table root i4 flags s)
      created =
          get_or_create_table-Created xs [] root i4 flags ready (omega arith) (index-lt virt).0 refl
            (ready.tree.plain i4 (index-lt virt).0)

      go :
          (r : ℕ × Machine)
          → Created s root (i4 ∷ []) xs r
          → Tabled 3 s root (i4 ∷ i3 ∷ i2 ∷ []) xs (pt_below_pdpt r.0 virt flags r.1)
      go (pdpt, s') (inl (some_pdpt, ys, e)) =
          Tabled-trans 2 s s' root (i4 ∷ i3 ∷ i2 ∷ []) xs ys _ e.leaves e.left (
            pt_below_pdpt-Tabled s' ys pdpt e.ready some_pdpt e.leads
              (IsSmall-after s s' root virt e.leaves small))
      go (pdpt, s') (inr (no_pdpt, empty, same)) =
          subst (Tabled 3 s root (i4 ∷ i3 ∷ i2 ∷ []) xs)
            (sym (pt_below_pdpt-null pdpt virt flags s' no_pdpt))
            (Tabled-of_nothing 3 s s' root (i4 ∷ i3 ∷ i2 ∷ []) xs ready (omega arith) empty same)
