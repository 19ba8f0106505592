-- ===== src/Paging/Written.antt =====
-- A tree of page tables after an entry of the last level was written (src/MemoryManager/paging.c): it is
-- a tree again, and what one page is mapped to has changed.
use mini_user_os.Prelude.{
  ℕ, ◌<◌, ◌≤◌, ◌≡◌, ◌≢◌, refl, sym, ap, ◌∙◌, true, false, none, some, List, [], ◌∷◌, arith, length,
  length-append,
}
use mathlib.Core.List.{append-nil}
use mathlib.Core.Path.{subst}
use mini_user_os.Machine.{Machine, Memory, null, write, write_self, write_ne}
use mini_user_os.Pmm.Pages.{In}
use mini_user_os.Paging.Entry.{get_table_ptr, is_present, is_large_page, slot}
use mini_user_os.Paging.Map.{install_leaf}
use mini_user_os.Paging.Walk.{Leads, IsTree, InRange, leaf, snoc, slot-path, length-snoc}
use mini_user_os.Paging.Frame.{Same, Avoids, leaf-same, Leads-forth, Leads-back}
use mini_user_os.Paging.Steps.{leaf-Leads}
use mini_user_os.Paging.Fresh.{Chain-agree}
use mini_user_os.Paging.Create.{IsReady, page-ne-slot}

leaf-last :
    (m : Memory) (t i : ℕ)
    → is_present (m (slot t i)) ≡ true
    → leaf m t (i ∷ []) ≡ some (m (slot t i), 0)
unfolding leaf
leaf-last m t i present = ground arith

leaf-gone : (m : Memory) (t i : ℕ) → is_present (m (slot t i)) ≡ false → leaf m t (i ∷ []) ≡ none
unfolding leaf
leaf-gone m t i absent = rw absent

module _ {m : Memory} {root : ℕ} {xs : List ℕ} (tree : IsTree m root xs) (ks : List ℕ)
    (t j entry : ℕ) (three : length ks ≡ 3) (j_in : j < 512) (at : Leads m root ks t) where
  abbrev after : Memory
  after = write m (slot t j) entry

  abbrev target : List ℕ
  target = snoc ks j

  same : Same m after root target
  same = record {
    at = λ p v i few l lt ne.
        write_ne m (slot t j) entry (slot v i)
          (λ e. ne (slot-path tree p ks v t i j few (omega (arith, three)) l at lt j_in e));
  }

  short-Avoids : (p : List ℕ) → length p ≤ 3 → Avoids p target
  short-Avoids p few rest e =
      absurd (omega (arith, three, ap length e, length-append target rest, length-snoc ks j))

  short-ne : (p : List ℕ) (i : ℕ) → length p ≤ 2 → snoc p i ≢ target
  short-ne p i few e = absurd (omega (arith, three, ap length e, length-snoc p i, length-snoc ks j))

  back : (p : List ℕ) (u : ℕ) → length p ≤ 3 → Leads after root p u → Leads m root p u
  back p u few l = Leads-back same p [] root u refl (omega (arith, few)) (short-Avoids p few) l

  pub Leads-after : (p : List ℕ) (u : ℕ) → length p ≤ 3 → Leads m root p u → Leads after root p u
  Leads-after p u few l =
      Leads-forth same p [] root u refl (omega (arith, few)) (short-Avoids p few) l

  pub IsTree-after : IsTree after root xs
  IsTree-after = record {
    frame = λ p u few l. tree.frame p u few (back p u few l);
    unshared = λ p q u hp hq lp lq. tree.unshared p q u hp hq (back p u hp lp) (back q u hq lq);
    outside = λ p u few l. tree.outside p u few (back p u few l);
    linked = λ p u i few lt l present small.
        let old = back p u (omega arith) l in
        let e = same.at p u i (omega arith) old lt (short-ne p i few) in
        subst (λ v. get_table_ptr v ≢ null) (sym e)
          (tree.linked p u i few lt old (subst (λ v. is_present v ≡ true) e present)
            (subst (λ v. is_large_page v ≡ false) e small));
    plain = λ i lt present.
        let e = same.at [] root i (omega arith) refl lt (short-ne [] i (omega arith)) in
        ap is_large_page e ∙ tree.plain i lt (subst (λ v. is_present v ≡ true) e present);
  }

  -- The page at the end of the path is mapped by the entry, if it is present.
  pub leaf-entry : is_present entry ≡ true → leaf after root target ≡ some (entry, 0)
  leaf-entry present =
      leaf-Leads after root ks (j ∷ []) t (Leads-after ks t (omega (arith, three)) at) (omega arith)
      ∙ leaf-last after t j (ap is_present (write_self m (slot t j) entry) ∙ present)
      ∙ ap (λ v. some (v, 0)) (write_self m (slot t j) entry)

  -- It is not mapped, if the entry is not present.
  pub leaf-none : is_present entry ≡ false → leaf after root target ≡ none
  leaf-none absent =
      leaf-Leads after root ks (j ∷ []) t (Leads-after ks t (omega (arith, three)) at) (omega arith)
      ∙ leaf-gone after t j (ap is_present (write_self m (slot t j) entry) ∙ absent)

  -- Every other page keeps what it is mapped to.
  pub leaf-other :
      (q : List ℕ) → length q ≡ 4 → InRange q → q ≢ target → leaf after root q ≡ leaf m root q
  leaf-other q four r ne = leaf-same same tree q [] root refl (omega (arith, four)) r avoids
    where
      avoids : Avoids q target
      avoids [] e = ne (e ∙ append-nil target)
      avoids (i ∷ rest) e = absurd (
          omega
            (arith, three, four, ap length e, length-append target (i ∷ rest), length-snoc ks j))

pub IsReady-leaf :
    (s : Machine) (root : ℕ) (xs ks : List ℕ) (t j entry size : ℕ)
    → IsReady s root xs
    → length ks ≡ 3
    → j < 512
    → Leads s.mem root ks t
    → IsReady (install_leaf t j entry size s) root xs
unfolding install_leaf
IsReady-leaf s root xs ks t j entry size ready three j_in at = record {
  pool = record {
    chain = Chain-agree s.mem _ _ xs spared ready.pool.chain;
    counted = ready.pool.counted;
    small = ready.pool.small;
  };
  frames = ready.frames;
  tree = IsTree-after ready.tree ks t j entry three j_in at;
}
  where
    spared : (x : ℕ) → In x xs → write s.mem (slot t j) entry x ≡ s.mem x
    spared x i = write_ne s.mem (slot t j) entry x (
        page-ne-slot x t j xs ready.frames i (ready.tree.frame ks t (omega (arith, three)) at)
          (ready.tree.outside ks t (omega (arith, three)) at) j_in)
