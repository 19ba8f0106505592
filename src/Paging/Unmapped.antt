-- ===== src/Paging/Unmapped.antt =====
-- `paging_unmap_page`, src/MemoryManager/paging.c: it unmaps exactly one page.
use mini_user_os.Prelude.{
  ℕ, ◌<◌, ◌≤◌, ◌≡◌, ◌≢◌, refl, sym, ap, ◌∙◌, true, false, Bool, Option, none, some, List, [], ◌∷◌,
  arith, length,
}
use mathlib.Core.Path.{subst}
use mini_user_os.Machine.{Machine, Memory, null}
use mini_user_os.Paging.Entry.{
  get_pml4_index, get_pdpt_index, get_pd_index, get_pt_index, get_table_ptr, is_present,
  is_large_page, slot, invalidate_page,
}
use mini_user_os.Paging.Table.{get_table}
use mini_user_os.Paging.Map.{root_of, unmap_page, clear_leaf, install_leaf}
use mini_user_os.Paging.Bits.{index-lt, zero-present}
use mini_user_os.Paging.Walk.{InRange, Leads, IsTree, leaf}
use mini_user_os.Paging.Frame.{get_table-linked}
use mini_user_os.Paging.Create.{IsReady}
use mini_user_os.Paging.Small.{path_of}
use mini_user_os.Paging.Written.{leaf-none, leaf-other, IsReady-leaf}

levels : Option (ℕ × ℕ) → ℕ
levels none = 0
levels (some e) = e.1

mapped : Option (ℕ × ℕ) → Bool
mapped none = false
mapped (some e) = true

-- A walk to a small page goes on at each table above it.
leaf-step :
    (m : Memory) (t i : ℕ) (q : List ℕ)
    → mapped (leaf m t (i ∷ q)) ≡ true
    → levels (leaf m t (i ∷ q)) ≡ 0
    → length q ≢ 0
    → (is_present (m (slot t i)) ≡ true)
      × (is_large_page (m (slot t i)) ≡ false)
      × (leaf m t (i ∷ q) ≡ leaf m (get_table_ptr (m (slot t i))) q)
unfolding leaf levels mapped
leaf-step m t i q some_leaf small more = ground arith

leaf-end :
    (m : Memory) (t i : ℕ) → mapped (leaf m t (i ∷ [])) ≡ true → is_present (m (slot t i)) ≡ true
unfolding leaf mapped
leaf-end m t i some_leaf = ground arith

module _ {m : Memory} {root : ℕ} {xs : List ℕ} (tree : IsTree m root xs) where
  -- One level down on the way to a small page.
  down :
      (ks : List ℕ) (u i : ℕ) (q : List ℕ) (e : ℕ)
      → length ks ≤ 2
      → i < 512
      → Leads m root ks u
      → leaf m u (i ∷ q) ≡ some (e, 0)
      → length q ≢ 0
      → (get_table u i m ≢ null) × (leaf m (get_table u i m) q ≡ some (e, 0))
  unfolding levels mapped
  down ks u i q e short lt at h more =
      let s = leaf-step m u i q (ap mapped h) (ap levels h) more in
      let linked = get_table-linked m u i s.0 s.1 in
      (
        subst (λ v. v ≢ null) (sym linked) (tree.linked ks u i short lt at s.0 s.1),
        ap (λ v. leaf m v q) linked ∙ sym s.2 ∙ h,
      )

  -- The tables above a small page.
  to_table :
      (i4 i3 i2 i1 e : ℕ)
      → i4 < 512
      → i3 < 512
      → i2 < 512
      → leaf m root (i4 ∷ i3 ∷ i2 ∷ i1 ∷ []) ≡ some (e, 0)
      → let pdpt = get_table root i4 m in
        let pd = get_table pdpt i3 m in
        let pt = get_table pd i2 m in
        (pdpt ≢ null) × (pd ≢ null) × (pt ≢ null) × (is_present (m (slot pt i1)) ≡ true)
  unfolding mapped
  to_table i4 i3 i2 i1 e h4 h3 h2 h =
      let a = down [] root i4 (i3 ∷ i2 ∷ i1 ∷ []) e (omega arith) h4 refl h (omega arith) in
      let pdpt = get_table root i4 m in
      let b =
        down (i4 ∷ []) pdpt i3 (i2 ∷ i1 ∷ []) e (omega arith) h3 (h4, a.0, refl) a.1
          (omega arith) in
      let pd = get_table pdpt i3 m in
      let c =
        down (i4 ∷ i3 ∷ []) pd i2 (i1 ∷ []) e (omega arith) h2 (h4, a.0, (h3, b.0, refl)) b.1
          (omega arith) in
      (a.0, b.0, c.0, leaf-end m (get_table pd i2 m) i1 (ap mapped c.1))

unmap_page-table :
    (pml4 virt : ℕ) (s : Machine)
    → let root = root_of pml4 s in
      let pdpt = get_table root (get_pml4_index virt) s.mem in
      let pd = get_table pdpt (get_pdpt_index virt) s.mem in
      let pt = get_table pd (get_pd_index virt) s.mem in
      root ≢ null
      → pdpt ≢ null
      → pd ≢ null
      → pt ≢ null
      → is_present (s.mem (slot pt (get_pt_index virt))) ≡ true
      → unmap_page pml4 virt s ≡ (true, clear_leaf pt (get_pt_index virt) virt s)
unfolding unmap_page
unmap_page-table pml4 virt s a b c d present = rw present (ground arith)

-- One page is unmapped, and every other page is mapped as before.
pub record Unmaps (s s' : Machine) (root : ℕ) (path xs : List ℕ) : Type 0 where
  pub ready : IsReady s' root xs
  pub gone : leaf s'.mem root path ≡ none
  pub others :
      (q : List ℕ) → length q ≡ 4 → InRange q → q ≢ path → leaf s'.mem root q ≡ leaf s.mem root q

Unmaps-clear :
    (s : Machine) (root virt : ℕ) (xs : List ℕ) (t : ℕ)
    → IsReady s root xs
    → Leads s.mem root (get_pml4_index virt ∷ get_pdpt_index virt ∷ get_pd_index virt ∷ []) t
    → Unmaps s (clear_leaf t (get_pt_index virt) virt s) root (path_of virt) xs
unfolding clear_leaf install_leaf invalidate_page
Unmaps-clear s root virt xs t ready l =
    let ks = get_pml4_index virt ∷ get_pdpt_index virt ∷ get_pd_index virt ∷ [] in
    let j = get_pt_index virt in
    let j_in = (index-lt virt).3 in
    let after = IsReady-leaf s root xs ks t j 0 0 ready refl j_in l in
    record {
      ready = record {
        pool = record {
          chain = after.pool.chain;
          counted = after.pool.counted;
          small = after.pool.small;
        };
        frames = ready.frames;
        tree = after.tree;
      };
      gone = leaf-none ready.tree ks t j 0 refl j_in l zero-present;
      others = λ q four r ne. leaf-other ready.tree ks t j 0 refl j_in l q four r ne;
    }

-- With a root, tables and free pages in order and a page of 4 KB mapped at the address,
-- `paging_unmap_page` returns true, unmaps that page, leaves every other page's mapping, and leaves the
-- tables and the free pages in order.
pub unmap_page-Unmaps :
    (s : Machine) (pml4 virt e : ℕ) (xs : List ℕ)
    → root_of pml4 s ≢ null
    → IsReady s (root_of pml4 s) xs
    → leaf s.mem (root_of pml4 s) (path_of virt) ≡ some (e, 0)
    → ((unmap_page pml4 virt s).0 ≡ true)
      × Unmaps s (unmap_page pml4 virt s).1 (root_of pml4 s) (path_of virt) xs
unmap_page-Unmaps s pml4 virt e xs ne ready h =
    let root = root_of pml4 s in
    let i = index-lt virt in
    let t = to_table ready.tree _ _ _ _ e i.0 i.1 i.2 h in
    let call = unmap_page-table pml4 virt s ne t.0 t.1 t.2 t.3 in
    subst (λ r. (r.0 ≡ true) × Unmaps s r.1 root (path_of virt) xs) (sym call)
      (refl, Unmaps-clear s root virt xs _ ready (i.0, t.0, (i.1, t.1, (i.2, t.2, refl))))
