-- ===== src/Paging/Create.antt =====
-- `get_or_create_table`, src/MemoryManager/paging.c: it finds or enters a table, and maps nothing.
use mini_user_os.Prelude.{
  ℕ, suc, ◌<◌, ◌≤◌, ◌≡◌, ◌≢◌, ◌⊎◌, inl, inr, refl, sym, ap, ◌∙◌, true, false, List, [], ◌∷◌, arith,
  length, Bool-cases,
}
use mathlib.Core.Path.{subst}
use mini_user_os.Machine.{Machine, Memory, null, add64}
use mini_user_os.Pmm.{alloc_page}
use mini_user_os.Pmm.Pool.{IsPool, Outside, Chain, alloc_page-cons, alloc_page-nil}
use mini_user_os.Pmm.Pages.{In}
use mini_user_os.Pmm.Distinct.{Outside-In}
use mini_user_os.Paging.Entry.{get_table_ptr, is_present, is_large_page, slot}
use mini_user_os.Paging.Table.{install_table, get_or_create_table, zero_page, count_table}
use mini_user_os.Paging.Bits.{IsFrame}
use mini_user_os.Paging.Walk.{Leads, IsTree, InRange, leaf, snoc, slots-apart, Leads-snoc}
use mini_user_os.Paging.Frame.{get_table-linked}
use mini_user_os.Paging.Fresh.{Frames, Frames-In, Chain-agree, with_table, with_table-out}
use mini_user_os.Paging.Grow.{Leads-new, Leads-kept, IsTree-after, leaf-after}

-- The free pages `xs` and the tables below `root` are in order.
pub record IsReady (s : Machine) (root : ℕ) (xs : List ℕ) : Type 0 where
  pub pool : IsPool s xs
  pub frames : Frames xs
  pub tree : IsTree s.mem root xs

-- `s'` maps what `s` maps, and has a table `t` at the end of `path`.
pub record Extends (s s' : Machine) (root : ℕ) (path : List ℕ) (t : ℕ) (xs ys : List ℕ)
    : Type 0 where
  pub ready : IsReady s' root ys
  pub leads : Leads s'.mem root path t
  pub kept : (p : List ℕ) (v : ℕ) → length p ≤ 3 → Leads s.mem root p v → Leads s'.mem root p v
  pub leaves : (q : List ℕ) → length q ≡ 4 → InRange q → leaf s'.mem root q ≡ leaf s.mem root q
  pub left : length xs ≤ suc (length ys)

-- A pool keeps its list under a change of memory that spares its pages' first words.
pub IsPool-agree :
    (s : Machine) (n : Memory) (xs : List ℕ)
    → ((x : ℕ) → In x xs → n x ≡ s.mem x)
    → IsPool s xs
    → IsPool (record s { mem = n }) xs
IsPool-agree s n xs same p = record {
  chain = Chain-agree s.mem n _ xs same p.chain;
  counted = p.counted;
  small = p.small;
}

-- A free page's first word is no entry of a table that is not free.
pub page-ne-slot :
    (x u j : ℕ) (xs : List ℕ)
    → Frames xs
    → In x xs
    → IsFrame u
    → Outside u xs
    → j < 512
    → x ≢ slot u j
page-ne-slot x u j xs f i fu out lt e =
    Outside-In u xs out (
      subst (λ v. In v xs) (slots-apart x u 0 j (Frames-In x xs f i) fu (omega arith) lt whole).0 i)
  where
    whole : slot x 0 ≡ slot u j
    whole = omega (arith, e)

module _ {s : Machine} {root : ℕ} {xs : List ℕ} (ready : IsReady s root xs) (ks : List ℕ)
    (u j flags : ℕ) (short : length ks ≤ 2) (j_in : j < 512) (at : Leads s.mem root ks u) where
  found-Extends :
      is_present (s.mem (slot u j)) ≡ true
      → is_large_page (s.mem (slot u j)) ≡ false
      → Extends s s root (snoc ks j) (get_table_ptr (s.mem (slot u j))) xs xs
  found-Extends present small =
      let linked = get_table-linked s.mem u j present small in
      let ne = ready.tree.linked ks u j short j_in at present small in
      record {
        ready = ready;
        leads =
            subst (Leads s.mem root (snoc ks j)) linked
              (Leads-snoc s.mem root ks u j at j_in (subst (λ v. v ≢ null) (sym linked) ne));
        kept = λ p v few l. l;
        leaves = λ q four r. refl;
        left = omega arith;
      }

new-Extends :
    {s : Machine} {root : ℕ} {t : ℕ} {xs : List ℕ} (ready : IsReady s root (t ∷ xs)) (ks : List ℕ)
    (u j flags : ℕ)
    → length ks ≤ 2
    → j < 512
    → Leads s.mem root ks u
    → is_present (s.mem (slot u j)) ≡ false
    → Extends s (install_table u j flags t (alloc_page s).1) root (snoc ks j) t (t ∷ xs) xs
unfolding install_table zero_page count_table
new-Extends {s} {root} {t} {xs} ready ks u j flags short j_in at absent = record {
  ready = record {
    pool = record {
      chain =
          Chain-agree s.mem n _ xs spared
            (subst (λ m. Chain m (alloc_page s).1.pmm.free_list xs) mem got.1.chain);
      counted = got.1.counted;
      small = got.1.small;
    };
    frames = ready.frames.1;
    tree = rw mem (IsTree-after ready.tree ks u j flags short j_in at absent ready.frames fresh);
  };
  leads = rw mem (Leads-new ready.tree ks u j flags short j_in at absent ready.frames fresh);
  kept = λ p v few l.
      rw mem (Leads-kept ready.tree ks u j flags short j_in at absent ready.frames fresh p v few l);
  leaves = λ q four r.
      rw mem (leaf-after ready.tree ks u j flags short j_in at absent ready.frames fresh q four r);
  left = omega arith;
}
  where
    got :
        ((alloc_page s).0 ≡ t)
        × IsPool (alloc_page s).1 xs
        × ((alloc_page s).1.mem ≡ s.mem)
        × ((alloc_page s).1.paging ≡ s.paging)
        × ((alloc_page s).1.pmm.used_pages ≡ add64 s.pmm.used_pages 1)
    got = alloc_page-cons ready.pool

    mem : (alloc_page s).1.mem ≡ s.mem
    mem = got.2

    fresh : Outside t xs
    fresh = ready.pool.chain.2

    n : Memory
    n = with_table (alloc_page s).1.mem u j t flags

    spared : (x : ℕ) → In x xs → n x ≡ s.mem x
    spared x i =
        with_table-out (alloc_page s).1.mem u j t flags x
          (page-ne-slot x u j xs ready.frames.1 i (ready.tree.frame ks u (omega arith) at)
            (ready.tree.outside ks u (omega arith) at).1 j_in)
          (λ k lt. page-ne-slot x t k xs ready.frames.1 i ready.frames.0 fresh lt)
        ∙ ap (λ m. m x) mem

-- What `get_or_create_table` returns: a table at the end of the longer path, or NULL, and then no page
-- was left and nothing has changed.
abbrev pub Created : (s : Machine) (root : ℕ) (path : List ℕ) (xs : List ℕ) → ℕ × Machine → Type 0
Created s root path xs (t, s') =
    ((t ≢ null) × (ys : List ℕ) × Extends s s' root path t xs ys)
    ⊎ (t ≡ null) × (xs ≡ []) × (s' ≡ s)

-- The three ways through the function.
get_or_create_table-found :
    (u j flags : ℕ) (s : Machine)
    → is_present (s.mem (slot u j)) ≡ true
    → is_large_page (s.mem (slot u j)) ≡ false
    → get_or_create_table u j flags s ≡ (get_table_ptr (s.mem (slot u j)), s)
unfolding get_or_create_table
get_or_create_table-found u j flags s present small = rw (present, small)

get_or_create_table-none :
    (u j flags : ℕ) (s : Machine)
    → is_present (s.mem (slot u j)) ≡ false
    → alloc_page s ≡ (null, s)
    → get_or_create_table u j flags s ≡ (null, s)
unfolding get_or_create_table
get_or_create_table-none u j flags s absent e = rw (absent, e)

get_or_create_table-new :
    (u j flags : ℕ) (s : Machine)
    → is_present (s.mem (slot u j)) ≡ false
    → (alloc_page s).0 ≢ null
    → get_or_create_table u j flags s
      ≡ ((alloc_page s).0, install_table u j flags (alloc_page s).0 (alloc_page s).1)
unfolding get_or_create_table
get_or_create_table-new u j flags s absent ne = rw absent (ground arith)

create_absent :
    {s : Machine} {root : ℕ} (xs : List ℕ) (ks : List ℕ) (u j flags : ℕ)
    → IsReady s root xs
    → length ks ≤ 2
    → j < 512
    → Leads s.mem root ks u
    → is_present (s.mem (slot u j)) ≡ false
    → Created s root (snoc ks j) xs (get_or_create_table u j flags s)
create_absent {s} [] ks u j flags ready short j_in at absent =
    rw (get_or_create_table-none u j flags s absent (alloc_page-nil ready.pool))
      (inr (refl, refl, refl))
create_absent {s} {root} (t ∷ xs) ks u j flags ready short j_in at absent =
    let got = (alloc_page-cons ready.pool).0 in
    let ne : t ≢ null = ready.frames.0.0 in
    rw (get_or_create_table-new u j flags s absent (λ e. ne (sym got ∙ e)), got)
      (inl (ne, xs, new-Extends ready ks u j flags short j_in at absent))

-- Let the free pages and the tables be in order, and let `ks` lead to a table `u` of the top three levels
-- whose entry at `j` is no large page. Then `get_or_create_table` returns a table at the end of the path
-- `ks` with `j`, takes at most one page, and leaves free pages and tables in order, the older paths with
-- their tables and every page with its mapping; or it returns NULL, no page was free, and nothing has
-- changed.
pub get_or_create_table-Created :
    {s : Machine} {root : ℕ} (xs : List ℕ) (ks : List ℕ) (u j flags : ℕ)
    → IsReady s root xs
    → length ks ≤ 2
    → j < 512
    → Leads s.mem root ks u
    → (is_present (s.mem (slot u j)) ≡ true → is_large_page (s.mem (slot u j)) ≡ false)
    → Created s root (snoc ks j) xs (get_or_create_table u j flags s)
get_or_create_table-Created {s} xs ks u j flags ready short j_in at small =
    elim (Bool-cases (is_present (s.mem (slot u j)))) [
      | inl present ↦ rw (get_or_create_table-found u j flags s present (small present)) (
          inl (
            ready.tree.linked ks u j short j_in at present (small present),
            xs,
            found-Extends ready ks u j flags short j_in at present (small present),
          ))
      | inr absent ↦ create_absent xs ks u j flags ready short j_in at absent
    ]
