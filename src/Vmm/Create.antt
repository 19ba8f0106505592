-- ===== src/Vmm/Create.antt =====
-- `vmm_create_region` of src/MemoryManager/vmm.c on the sorted list of regions.
use mini_user_os.Prelude.{
  ℕ, ◌/◌, ◌%◌, ◌^◌, ◌<◌, ◌≡◌, ◌≢◌, inl, inr, refl, sym, ap, ◌∙◌, false, leb, List, [], ◌∷◌, length,
  arith,
}
use mathlib.Core.Path.{subst}
use mini_user_os.Machine.{Machine, Memory, null}
use mini_user_os.Pmm.{alloc_page, pop_page}
use mini_user_os.Pmm.Pool.{IsPool, Chain, Outside, alloc_page-pop, alloc_page-cons}
use mini_user_os.Pmm.Pages.{In}
use mini_user_os.Paging.Fresh.{Chain-agree}
use mini_user_os.Vmm.Structs.{space_regions, region_next}
use mini_user_os.Vmm.Regions.{create_region, fill_region, link_region, place_from}
use mini_user_os.Vmm.Cells.{Cell, Linked, Fresh, Separate, Elsewhere}
use mini_user_os.Vmm.Link.{linked, not_null, link_region-mem, link_region-pmm}
use mini_user_os.Vmm.Insert.{insert, Elsewhere-page}
use mini_user_os.Vmm.Place.{Inserted, IsNew, place-Inserted}
use mini_user_os.Vmm.Sorted.{Sorted, Sorted-insert, Fresh-insert, Separate-insert}
use mini_user_os.Vmm.Fill.{
  filled, fill_region-mem, fill_region-pmm, filled-start, filled-end, filled-flags, filled-same,
  Linked-agree,
}

-- The regions of an address space and the free pages lie in pages of their own.
pub record IsLaid (m : Memory) (space : ℕ) (cs : List Cell) (free : List ℕ) : Type 0 where
  pub ne_null : space ≢ null
  pub aligned : space % 4096 ≡ 0
  pub regions : Linked m null (m (space_regions space)) cs
  pub sorted : Sorted cs
  pub separate : Separate cs
  pub apart : Fresh space cs
  pub spare : (y : ℕ) → In y free → (y % 4096 ≡ 0) × (y ≢ space) × Fresh y cs

Linked-Fresh-null : (m : Memory) (prev r : ℕ) (cs : List Cell) → Linked m prev r cs → Fresh null cs
Linked-Fresh-null m prev r [] l = tt
Linked-Fresh-null m prev r (c ∷ cs) l =
    (λ e. l.0.ne_null (l.0.here ∙ e), Linked-Fresh-null m r (m (region_next r)) cs l.1)

In-apart : (x y : ℕ) (xs : List ℕ) → Outside x xs → In y xs → y ≢ x
In-apart x y [] o i q = elim i [ ]
In-apart x y (z ∷ xs) o (inl e) q = o.0 (e ∙ q)
In-apart x y (z ∷ xs) o (inr i) q = In-apart x y xs o.1 i q

pop_page-mem : (s : Machine) → (pop_page s).mem ≡ s.mem
unfolding pop_page
pop_page-mem s = refl

-- A pool is that of another state with the same counters, when its pages still form the list.
IsPool-same :
    (s s' : Machine) (xs : List ℕ)
    → s'.pmm ≡ s.pmm
    → Chain s'.mem s.pmm.free_list xs
    → IsPool s xs
    → IsPool s' xs
IsPool-same s s' xs e c p = record {
  chain = subst (λ q. Chain s'.mem q.free_list xs) (sym e) c;
  counted = ap (λ q. q.free_pages) e ∙ p.counted;
  small = p.small;
}

-- The region's new neighbours.
abbrev place : ℕ → ℕ → ℕ → Memory → ℕ × ℕ
place fuel space start m = place_from fuel null (m (space_regions space)) start m

create_region-new :
    (fuel space start end flags x : ℕ) (s : Machine)
    → space ≢ null
    → start < end
    → s.pmm.free_list ≡ x
    → x ≢ null
    → create_region fuel space start end flags s ≡ (
      x,
      link_region space x
          (place fuel space start (fill_region x start end flags (pop_page s)).mem).0
          (place fuel space start (fill_region x start end flags (pop_page s)).mem).1
          (fill_region x start end flags (pop_page s)),
    )
unfolding create_region
create_region-new fuel space start end flags x s ne order e nx =
    rw (alloc_page-pop s (λ h. nx (sym e ∙ h)), e, not_null space ne, not_null x nx, below) refl
  where
    below : leb end start ≡ false
    below = ground arith

module _ (fuel space start end flags x : ℕ) (xs : List ℕ) (s : Machine) (cs : List Cell)
    (pool : IsPool s (x ∷ xs)) (laid : IsLaid s.mem space cs (x ∷ xs)) (order : start < end)
    (small : flags < 2 ^ 32) (enough : length cs < fuel) where
  abbrev new_cell : Cell
  new_cell = record { page = x; start = start; end = end; flags = flags }

  abbrev before : Memory
  before = filled x start end flags s.mem

  abbrev after : Memory
  after = linked space x (place fuel space start before).0 (place fuel space start before).1 before

  x_aligned : x % 4096 ≡ 0
  x_aligned = (laid.spare x (inl refl)).0

  x_apart : x ≢ space
  x_apart = (laid.spare x (inl refl)).1

  space_aligned : space % 4096 ≡ 0
  space_aligned = laid.aligned

  kept : (q : ℕ) → q / 4096 ≢ x / 4096 → before q ≡ s.mem q
  kept q h = filled-same x start end flags s.mem q x_aligned h

  head-kept : before (space_regions space) ≡ s.mem (space_regions space)
  head-kept = kept (space_regions space) (λ e. x_apart (omega (arith, e, x_aligned, space_aligned)))

  is_new : IsNew before space x new_cell
  is_new = record {
    here = refl;
    ne_null = pool.chain.1;
    ne_space = x_apart;
    space_aligned = laid.aligned;
    r_aligned = x_aligned;
    start = filled-start x start end flags s.mem;
    end = filled-end x start end flags s.mem;
    flags = filled-flags x start end flags s.mem small;
  }

  listed : Linked before null (before (space_regions space)) cs
  listed = rw head-kept (
      Linked-agree s.mem before x null (s.mem (space_regions space)) cs kept x_aligned
        (laid.spare x (inl refl)).2 laid.separate laid.regions)

  inserted : Inserted before after space x null new_cell cs
  inserted =
      place-Inserted before space x new_cell is_new fuel null (before (space_regions space)) cs
        listed refl (λ e. pool.chain.1 (sym e)) laid.apart (laid.spare x (inl refl)).2
        (Linked-Fresh-null s.mem null _ cs laid.regions) laid.separate refl enough

  -- The first words of the pages that are still free stay.
  free-kept : (y : ℕ) → In y xs → after y ≡ s.mem y
  free-kept y i =
      inserted.same y (omega (arith, ya, x_aligned)) (omega (arith, ya, x_aligned))
        (omega (arith, ya, space_aligned))
        (subst (λ q. Elsewhere q cs) (omega arith)
          (Elsewhere-page y 0 cs ya (omega arith) (laid.spare y (inr i)).2 laid.separate))
      ∙ kept y (λ e. yx (omega (arith, e, ya, x_aligned)))
    where
      ya : y % 4096 ≡ 0
      ya = (laid.spare y (inr i)).0

      yx : y ≢ x
      yx = In-apart x y xs pool.chain.2 i

  created : create_region fuel space start end flags s ≡ (
    x,
    link_region space x
        (place fuel space start (fill_region x start end flags (pop_page s)).mem).0
        (place fuel space start (fill_region x start end flags (pop_page s)).mem).1
        (fill_region x start end flags (pop_page s)),
  )
  created =
      create_region-new fuel space start end flags x s laid.ne_null order pool.chain.0 pool.chain.1

  filled-mem : (fill_region x start end flags (pop_page s)).mem ≡ before
  filled-mem =
      fill_region-mem x start end flags (pop_page s)
      ∙ ap (filled x start end flags) (pop_page-mem s)

  created-mem : (create_region fuel space start end flags s).1.mem ≡ after
  created-mem =
      ap (λ r. r.1.mem) created
      ∙ link_region-mem space x _ _ (fill_region x start end flags (pop_page s))
      ∙ ap (λ m. linked space x (place fuel space start m).0 (place fuel space start m).1 m)
          filled-mem

  created-pmm : (create_region fuel space start end flags s).1.pmm ≡ (alloc_page s).1.pmm
  created-pmm =
      ap (λ r. r.1.pmm) created
      ∙ link_region-pmm space x _ _ (fill_region x start end flags (pop_page s))
      ∙ fill_region-pmm x start end flags (pop_page s)
      ∙ ap (λ r. r.1.pmm) (sym (alloc_page-pop s (λ e. pool.chain.1 (sym pool.chain.0 ∙ e))))

  created-IsPool : IsPool (create_region fuel space start end flags s).1 xs
  created-IsPool =
      IsPool-same (alloc_page s).1 (create_region fuel space start end flags s).1 xs created-pmm
        (subst (λ m. Chain m (alloc_page s).1.pmm.free_list xs) (sym created-mem)
          (Chain-agree s.mem after _ xs free-kept (
            subst (λ m. Chain m (alloc_page s).1.pmm.free_list xs) (alloc_page-cons pool).2
              (alloc_page-cons pool).1.chain)))
        (alloc_page-cons pool).1

  created-IsLaid :
      IsLaid (create_region fuel space start end flags s).1.mem space (insert new_cell cs) xs
  created-IsLaid = record {
    ne_null = laid.ne_null;
    aligned = laid.aligned;
    regions =
        subst (λ m. Linked m null (m (space_regions space)) (insert new_cell cs)) (sym created-mem)
          inserted.in_order;
    sorted = Sorted-insert new_cell cs laid.sorted;
    separate = Separate-insert new_cell cs x_aligned (laid.spare x (inl refl)).2 laid.separate;
    apart = Fresh-insert space new_cell cs x_apart laid.apart;
    spare = λ y i. (
      (laid.spare y (inr i)).0,
      (laid.spare y (inr i)).1,
      Fresh-insert y new_cell cs (λ e. In-apart x y xs pool.chain.2 i (sym e))
          (laid.spare y (inr i)).2,
    );
  }

-- In an address space whose sorted list of regions, with its free pages, is in order, and with a page
-- free, `vmm_create_region` of a range that is not empty takes that page for the new region, leaves the
-- other pages free, and links the region in before the first one that does not start below it; one
-- step of fuel more than there are regions is enough.
pub create_region-inserts :
    (fuel space start end flags x : ℕ) (xs : List ℕ) (s : Machine) (cs : List Cell)
    → IsPool s (x ∷ xs)
    → IsLaid s.mem space cs (x ∷ xs)
    → start < end
    → flags < 2 ^ 32
    → length cs < fuel
    → ((create_region fuel space start end flags s).0 ≡ x)
      × IsPool (create_region fuel space start end flags s).1 xs
      × IsLaid
          (create_region fuel space start end flags s).1.mem
          space
          (insert (record { page = x; start = start; end = end; flags = flags }) cs)
          xs
create_region-inserts fuel space start end flags x xs s cs pool laid order small enough = (
  ap (λ r. r.0) (created fuel space start end flags x xs s cs pool laid order small enough),
  created-IsPool fuel space start end flags x xs s cs pool laid order small enough,
  created-IsLaid fuel space start end flags x xs s cs pool laid order small enough,
)
