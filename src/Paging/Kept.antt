-- ===== src/Paging/Kept.antt =====
-- A tree of page tables (src/MemoryManager/paging.c) after a change of memory that spares all its tables.
use mini_user_os.Prelude.{
  ℕ, ◌<◌, ◌≤◌, ◌≡◌, refl, sym, ap, true, false, List, [], ◌∷◌, arith, length, length-append,
}
use mathlib.Core.Path.{subst}
use mini_user_os.Machine.{Machine, Memory}
use mini_user_os.Pmm.Pool.{IsPool, Outside}
use mini_user_os.Paging.Entry.{is_present, is_large_page, slot}
use mini_user_os.Paging.Table.{zero_from}
use mini_user_os.Paging.Walk.{Leads, IsTree, InRange, leaf}
use mini_user_os.Paging.Frame.{Same, Avoids, Leads-back, leaf-same}
use mini_user_os.Paging.Fresh.{zero_from-out, slots-ne}
use mini_user_os.Paging.Create.{IsReady, IsPool-agree, page-ne-slot}

-- No path of indices passes through an entry at so deep a place.
abbrev deep : List ℕ
deep = 0 ∷ 0 ∷ 0 ∷ 0 ∷ 0 ∷ []

deep-Avoids : (p : List ℕ) → length p ≤ 4 → Avoids p deep
deep-Avoids p few rest e = absurd (omega (arith, ap length e, length-append deep rest))

module _ {m : Memory} {root : ℕ} {xs : List ℕ} (tree : IsTree m root xs) (n : Memory)
    (spared : (p : List ℕ) (v i : ℕ)
      → length p ≤ 3
      → Leads m root p v
      → i < 512
      → n (slot v i) ≡ m (slot v i)) where
  deep-Same : Same m n root deep
  deep-Same = record { at = λ p v i few l lt ne. spared p v i few l lt }

  Leads-before : (p : List ℕ) (v : ℕ) → length p ≤ 3 → Leads n root p v → Leads m root p v
  Leads-before p v few l =
      Leads-back deep-Same p [] root v refl (omega arith) (deep-Avoids p (omega arith)) l

  pub leaf-kept : (q : List ℕ) → length q ≡ 4 → InRange q → leaf n root q ≡ leaf m root q
  leaf-kept q four r =
      leaf-same deep-Same tree q [] root refl (omega arith) r (deep-Avoids q (omega arith))

  -- It is a tree beside fewer pages.
  pub IsTree-kept : (ys : List ℕ) → ((v : ℕ) → Outside v xs → Outside v ys) → IsTree n root ys
  IsTree-kept ys fewer = record {
    frame = λ p v few l. tree.frame p v few (Leads-before p v few l);
    unshared = λ p q v hp hq lp lq.
        tree.unshared p q v hp hq (Leads-before p v hp lp) (Leads-before q v hq lq);
    outside = λ p v few l. fewer v (tree.outside p v few (Leads-before p v few l));
    linked = λ p v i few lt l present small.
        let old = Leads-before p v (omega arith) l in
        let e = spared p v i (omega arith) old lt in
        rw e (
          tree.linked p v i few lt old (subst (λ a. is_present a ≡ true) e present)
            (subst (λ a. is_large_page a ≡ false) e small));
    plain = λ i lt present.
        let e = spared [] root i (omega arith) refl lt in
        rw e (tree.plain i lt (subst (λ a. is_present a ≡ true) e present));
  }

-- The first free page is cleared: no table and no other free page changes.
module _ {s : Machine} {root x : ℕ} {xs : List ℕ} (ready : IsReady s root (x ∷ xs)) where
  abbrev cleared : Memory
  cleared = zero_from 512 x 0 s.mem

  cleared-spared :
      (p : List ℕ) (v i : ℕ)
      → length p ≤ 3
      → Leads s.mem root p v
      → i < 512
      → cleared (slot v i) ≡ s.mem (slot v i)
  cleared-spared p v i few l lt = zero_from-out 512 x 0 s.mem (slot v i) λ k k_in.
      slots-ne v x i k (ready.tree.frame p v few l) ready.frames.0 lt (omega arith)
        (λ e. (ready.tree.outside p v few l).0 (sym e))

  pub leaf-cleared :
      (q : List ℕ) → length q ≡ 4 → InRange q → leaf cleared root q ≡ leaf s.mem root q
  leaf-cleared = leaf-kept ready.tree cleared cleared-spared

  pub IsReady-cleared :
      (t : Machine)
      → IsPool t xs
      → t.mem ≡ s.mem
      → IsReady (record t { mem = zero_from 512 x 0 t.mem }) root xs
  IsReady-cleared t pool same = record {
    pool =
        IsPool-agree t (zero_from 512 x 0 t.mem) xs
          (λ y i. zero_from-out 512 x 0 t.mem y λ k lt.
            page-ne-slot y x k xs ready.frames.1 i ready.frames.0 ready.pool.chain.2 (omega arith))
          pool;
    frames = ready.frames.1;
    tree = rw same (IsTree-kept ready.tree cleared cleared-spared xs (λ v o. o.1));
  }
