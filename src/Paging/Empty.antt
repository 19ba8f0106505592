-- ===== src/Paging/Empty.antt =====
-- A top-level page table without an entry (src/MemoryManager/paging.c): it is a tree of page tables that
-- maps nothing.
use mini_user_os.Prelude.{
  ℕ, ◌<◌, ◌≡◌, refl, sym, ap, ◌∙◌, Bool, true, false, none, some, Option, List, [], ◌∷◌,
}
use mathlib.Core.Bool.{false≢true}
use mathlib.Core.Path.{subst}
use mini_user_os.Machine.{Memory, null}
use mini_user_os.Pmm.Pool.{Outside}
use mini_user_os.Paging.Entry.{is_present, slot}
use mini_user_os.Paging.Table.{get_table}
use mini_user_os.Paging.Bits.{IsFrame, zero-present, index-lt}
use mini_user_os.Paging.Walk.{Leads, IsTree, leaf}
use mini_user_os.Paging.Small.{path_of, IsSmall}

present_of : Option (ℕ × ℕ) → Bool
present_of none = false
present_of (some e) = true

module _ (m : Memory) (root : ℕ) (zeroed : (i : ℕ) → i < 512 → m (slot root i) ≡ 0) where
  pub absent : (i : ℕ) → i < 512 → is_present (m (slot root i)) ≡ false
  absent i lt = ap is_present (zeroed i lt) ∙ zero-present

  no_table : (i : ℕ) → i < 512 → get_table root i m ≡ null
  unfolding get_table
  no_table i lt = rw (absent i lt)

  -- An empty table leads nowhere.
  only_root : (p : List ℕ) (u : ℕ) → Leads m root p u → (p ≡ []) × (u ≡ root)
  only_root [] u e = (refl, sym e)
  only_root (i ∷ p) u l = absurd (l.1 (no_table i l.0))

  pub empty-IsTree : (xs : List ℕ) → IsFrame root → Outside root xs → IsTree m root xs
  empty-IsTree xs frame outside = record {
    frame = λ p u few l. subst IsFrame (sym (only_root p u l).1) frame;
    unshared = λ p q u hp hq lp lq. (only_root p u lp).0 ∙ sym (only_root q u lq).0;
    outside = λ p u few l. subst (λ v. Outside v xs) (sym (only_root p u l).1) outside;
    linked = λ p u i few lt l present small. absurd (
        false≢true (
          sym (absent i lt)
          ∙ ap (λ v. is_present (m (slot v i))) (sym (only_root p u l).1)
          ∙ present));
    plain = λ i lt present. absurd (false≢true (sym (absent i lt) ∙ present));
  }

  empty-leaf : (i : ℕ) (q : List ℕ) → i < 512 → leaf m root (i ∷ q) ≡ none
  unfolding leaf
  empty-leaf i q lt = rw (absent i lt)

  -- No large page is mapped.
  pub empty-IsSmall : (virt : ℕ) → IsSmall m root (path_of virt)
  unfolding present_of
  empty-IsSmall virt e k h =
      absurd (false≢true (sym (ap present_of (empty-leaf _ _ (index-lt virt).0)) ∙ ap present_of h))
