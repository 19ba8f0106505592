-- ===== src/Paging/Mapped.antt =====
-- `paging_map_page`, src/MemoryManager/paging.c: it maps exactly one page.
use mini_user_os.Prelude.{
  ℕ, ◌+◌, ◌<◌, ◌≤◌, ◌≡◌, ◌≢◌, ◌⊎◌, inl, inr, refl, ◌∙◌, true, false, Bool, some, List, [], ◌∷◌,
  arith, length, ◌==◌, if◌then◌else◌,
}
use mini_user_os.Machine.{Machine, null}
use mini_user_os.Paging.Entry.{
  page_size_4k, get_pml4_index, get_pdpt_index, get_pd_index, get_pt_index,
}
use mini_user_os.Paging.Table.{get_or_create_pt}
use mini_user_os.Paging.Map.{root_of, map_page, install_leaf, leaf_4k}
use mini_user_os.Paging.Bits.{leaf_4k-present, index-lt}
use mini_user_os.Paging.Walk.{InRange, Leads, leaf}
use mini_user_os.Paging.Create.{IsReady}
use mini_user_os.Paging.Small.{path_of, IsSmall, SameLeaves, Tabled}
use mini_user_os.Paging.Tabled.{get_or_create_pt-Tabled}
use mini_user_os.Paging.Written.{leaf-entry, leaf-other, IsReady-leaf}

-- One page is mapped by `entry`, and every other page as before.
pub record Maps (s s' : Machine) (root : ℕ) (path : List ℕ) (entry : ℕ) (xs ys : List ℕ)
    : Type 0 where
  pub ready : IsReady s' root ys
  pub mapped : leaf s'.mem root path ≡ some (entry, 0)
  pub others :
      (q : List ℕ) → length q ≡ 4 → InRange q → q ≢ path → leaf s'.mem root q ≡ leaf s.mem root q
  pub left : length xs ≤ 3 + length ys

-- `map_page` has mapped the page; or it has mapped nothing, and fewer than three pages were free.
abbrev pub MapResult : Machine → ℕ → List ℕ → ℕ → List ℕ → Bool × Machine → Type 0
MapResult s root path entry xs (ok, s') =
    ((ok ≡ true) × (ys : List ℕ) × Maps s s' root path entry xs ys)
    ⊎ (ok ≡ false) × (length xs < 3) × IsReady s' root [] × SameLeaves s s' root

not_null : (t : ℕ) → t ≢ null → (t == null) ≡ false
not_null t ne = ground arith

is_null : (t : ℕ) → t ≡ null → (t == null) ≡ true
is_null t e = ground arith

map_page-table :
    (pml4 virt phys flags t : ℕ) (s s' : Machine)
    → root_of pml4 s ≢ null
    → get_or_create_pt (root_of pml4 s) virt flags s ≡ (t, s')
    → map_page pml4 virt phys flags s ≡ (
        if t == null
        then (false, s')
        else (true, install_leaf t (get_pt_index virt) (leaf_4k phys flags) page_size_4k s'))
unfolding map_page
map_page-table pml4 virt phys flags t s s' ne e = ground (arith, e)

-- The entry is written into the table `t`.
Maps-leaf :
    (s s' : Machine) (root virt phys flags : ℕ) (xs ys : List ℕ) (t : ℕ)
    → IsReady s' root ys
    → Leads s'.mem root (get_pml4_index virt ∷ get_pdpt_index virt ∷ get_pd_index virt ∷ []) t
    → SameLeaves s s' root
    → length xs ≤ 3 + length ys
    → Maps s
        (install_leaf t (get_pt_index virt) (leaf_4k phys flags) page_size_4k s')
        root
        (path_of virt)
        (leaf_4k phys flags)
        xs
        ys
unfolding install_leaf
Maps-leaf s s' root virt phys flags xs ys t ready l leaves few =
    let ks = get_pml4_index virt ∷ get_pdpt_index virt ∷ get_pd_index virt ∷ [] in
    let entry = leaf_4k phys flags in
    let j_in = (index-lt virt).3 in
    record {
      ready = IsReady-leaf s' root ys ks t (get_pt_index virt) entry page_size_4k ready refl j_in l;
      mapped =
          leaf-entry ready.tree ks t (get_pt_index virt) entry refl j_in l
            (leaf_4k-present phys flags);
      others = λ q four r ne.
          leaf-other ready.tree ks t (get_pt_index virt) entry refl j_in l q four r ne
          ∙ leaves q four r;
      left = few;
    }

map_of :
    (s : Machine) (root virt phys flags : ℕ) (xs : List ℕ) (t : ℕ) (s' : Machine)
    → Tabled 3 s root
        (get_pml4_index virt ∷ get_pdpt_index virt ∷ get_pd_index virt ∷ [])
        xs
        (t, s')
    → MapResult s root (path_of virt) (leaf_4k phys flags) xs (
        if t == null
        then (false, s')
        else (true, install_leaf t (get_pt_index virt) (leaf_4k phys flags) page_size_4k s'))
map_of s root virt phys flags xs t s' (inl (ne, ys, ready, l, leaves, few)) =
    rw (not_null t ne)
      (inl (refl, ys, Maps-leaf s s' root virt phys flags xs ys t ready l leaves few))
map_of s root virt phys flags xs t s' (inr (no_table, few, ready, leaves)) =
    rw (is_null t no_table) (inr (refl, few, ready, leaves))

-- With a root, tables and free pages in order, and no large page at the address, `paging_map_page`
-- either maps the page at the address to the entry that holds its physical address and flags and
-- leaves every other page's mapping, with at most three pages taken from the allocator; or fewer than
-- three pages were free, it returns false, and maps and unmaps nothing. The tables and the free pages
-- are in order afterwards.
pub map_page-maps :
    (s : Machine) (pml4 virt phys flags : ℕ) (xs : List ℕ)
    → root_of pml4 s ≢ null
    → IsReady s (root_of pml4 s) xs
    → IsSmall s.mem (root_of pml4 s) (path_of virt)
    → MapResult s
        (root_of pml4 s)
        (path_of virt)
        (leaf_4k phys flags)
        xs
        (map_page pml4 virt phys flags s)
map_page-maps s pml4 virt phys flags xs ne ready small =
    rw (map_page-table pml4 virt phys flags _ s _ ne refl) (
      map_of s (root_of pml4 s) virt phys flags xs _ _
        (get_or_create_pt-Tabled (root_of pml4 s) virt flags s xs ready small))
