-- ===== src/Vmm/Link.antt =====
-- What the writes of `vmm_create_region` of src/MemoryManager/vmm.c that link a region in leave in
-- memory.
use mini_user_os.Prelude.{
  List, [], ◌∷◌, ℕ, ◌<◌, ◌+◌, ◌%◌, ◌≡◌, ◌≢◌, ◌⊎◌, inl, inr, refl, sym, ap, ◌∙◌, true, false, ◌==◌,
  if◌then◌else◌, arith, ℕ_discrete,
}
use mathlib.Core.Path.{subst}
use mini_user_os.Machine.{Machine, Memory, null, write, write_self, write_ne}
use mini_user_os.Vmm.Structs.{
  region_next, region_prev, space_regions, region_start, region_end, region_flags, flags_of,
  low_half,
}
use mini_user_os.Vmm.Regions.{link_region}
use mini_user_os.Vmm.Cells.{Cell, IsAt, Linked, Fresh, Separate}

-- The pointer that leads to what follows `prev`.
abbrev pub link_of : ℕ → ℕ → ℕ
link_of space prev = if prev == null then space_regions space else region_next prev

-- Memory with the three pointers around the new region.
abbrev pub around : ℕ → ℕ → ℕ → ℕ → Memory → Memory
around space r prev curr m =
    write (write (write m (region_next r) curr) (region_prev r) prev) (link_of space prev) r

-- Memory with all four.
abbrev pub linked : ℕ → ℕ → ℕ → ℕ → Memory → Memory
linked space r prev curr m =
    if curr == null
    then around space r prev curr m
    else write (around space r prev curr m) (region_prev curr) r

pub link_of-cases :
    (space prev : ℕ)
    → (link_of space prev ≡ space_regions space) ⊎ (link_of space prev ≡ region_next prev)
link_of-cases space prev = ground arith

pub is_null : (p : ℕ) → p ≡ null → (p == null) ≡ true
is_null p h = ground arith

pub not_null : (p : ℕ) → p ≢ null → (p == null) ≡ false
not_null p h = ground arith

module _ (space r prev curr : ℕ) (s : Machine) where
  pub link_region-mem : (link_region space r prev curr s).mem ≡ linked space r prev curr s.mem
  unfolding link_region
  link_region-mem = elim (ℕ_discrete prev null) [
    | yes p ↦ elim (ℕ_discrete curr null) [
      | yes c ↦ rw (is_null prev p, is_null curr c) refl
      | no c ↦ rw (is_null prev p, not_null curr c) refl
    ]
    | no p ↦ elim (ℕ_discrete curr null) [
      | yes c ↦ rw (not_null prev p, is_null curr c) refl
      | no c ↦ rw (not_null prev p, not_null curr c) refl
    ]
  ]

  pub link_region-pmm : (link_region space r prev curr s).pmm ≡ s.pmm
  unfolding link_region
  link_region-pmm = ground arith

-- All structures begin a page of their own.
module _ (space r prev curr : ℕ) (m : Memory) (space_aligned : space % 4096 ≡ 0)
    (r_aligned : r % 4096 ≡ 0) (prev_aligned : prev % 4096 ≡ 0) (curr_aligned : curr % 4096 ≡ 0)
    (prev_apart : prev ≢ r) (curr_apart : curr ≢ r) where
  linked-other :
      (q : ℕ)
      → (curr ≢ null → q ≢ region_prev curr)
      → linked space r prev curr m q ≡ around space r prev curr m q
  linked-other q h = elim (ℕ_discrete curr null) [
    | yes c ↦ rw (is_null curr c) refl
    | no c ↦ rw (not_null curr c) (write_ne _ _ _ q (h c))
  ]

  -- The pointer is that of the list's head or a `next` field.
  link_of-offset : (link_of space prev % 4096 ≡ 8) ⊎ (link_of space prev % 4096 ≡ 24)
  link_of-offset = elim (link_of-cases space prev) [
    | inl head ↦ inl (omega (arith, head))
    | inr next ↦ inr (omega (arith, next))
  ]

  link_of-ne_next : link_of space prev ≢ region_next r
  link_of-ne_next e = elim (link_of-cases space prev) [
    | inl head ↦ omega (arith, head, e)
    | inr next ↦ omega (arith, next, e)
  ]

  link_of-ne_prev : (p : ℕ) → p % 4096 ≡ 0 → link_of space prev ≢ region_prev p
  link_of-ne_prev p h e = elim link_of-offset [
    | inl head ↦ omega (arith, head, e)
    | inr next ↦ omega (arith, next, e)
  ]

  pub linked-link : linked space r prev curr m (link_of space prev) ≡ r
  linked-link =
      linked-other (link_of space prev) (λ c. link_of-ne_prev curr curr_aligned) ∙ write_self _ _ _

  pub linked-next : linked space r prev curr m (region_next r) ≡ curr
  linked-next =
      linked-other (region_next r) (λ c. omega arith)
      ∙ write_ne _ _ _ _ (λ e. link_of-ne_next (sym e))
      ∙ write_ne _ _ _ _ (omega arith)
      ∙ write_self _ _ _

  pub linked-prev : linked space r prev curr m (region_prev r) ≡ prev
  linked-prev =
      linked-other (region_prev r) (λ c. omega arith)
      ∙ write_ne _ _ _ _ (λ e. link_of-ne_prev r r_aligned (sym e))
      ∙ write_self _ _ _

  pub linked-behind : curr ≢ null → linked space r prev curr m (region_prev curr) ≡ r
  linked-behind c = rw (not_null curr c) (write_self _ _ _)

  pub linked-same :
      (q : ℕ)
      → q ≢ region_next r
      → q ≢ region_prev r
      → q ≢ link_of space prev
      → (curr ≢ null → q ≢ region_prev curr)
      → linked space r prev curr m q ≡ m q
  linked-same q a b c d =
      linked-other q d ∙ write_ne _ _ _ q c ∙ write_ne _ _ _ q b ∙ write_ne _ _ _ q a

  module _ (p : ℕ) (p_aligned : p % 4096 ≡ 0) where
    -- The bounds and flags of all regions stay.
    pub linked-field :
        (q k : ℕ) → q ≡ p + k → k < 24 → p ≢ space → linked space r prev curr m q ≡ m q
    linked-field q k e h apart =
        linked-same q (omega arith) (omega arith) off_link (λ c. omega arith)
      where
        off_link : q ≢ link_of space prev
        off_link o = elim (link_of-cases space prev) [
          | inl head ↦ omega (arith, head, o)
          | inr next ↦ omega (arith, next, o)
        ]

    pub linked-next_of :
        p ≢ r → p ≢ prev → linked space r prev curr m (region_next p) ≡ m (region_next p)
    linked-next_of a b =
        linked-same (region_next p) (omega arith) (omega arith) off_link (λ c. omega arith)
      where
        off_link : region_next p ≢ link_of space prev
        off_link o = elim (link_of-cases space prev) [
          | inl head ↦ omega (arith, head, o)
          | inr next ↦ omega (arith, next, o)
        ]

    pub linked-prev_of :
        p ≢ r → p ≢ curr → linked space r prev curr m (region_prev p) ≡ m (region_prev p)
    linked-prev_of a b =
        linked-same (region_prev p) (omega arith) (omega arith)
          (λ e. link_of-ne_prev p p_aligned (sym e)) (λ c. omega arith)

  -- Cells that the new pointers do not touch follow one another as before.
  Linked-kept :
      (before at : ℕ) (cs : List Cell)
      → Linked m before at cs
      → Fresh space cs
      → Fresh r cs
      → Fresh prev cs
      → Fresh curr cs
      → Separate cs
      → Linked (linked space r prev curr m) before at cs
  Linked-kept before at [] l a b c d s = l
  Linked-kept before at (x ∷ cs) l a b c d s = (
    record {
      here = l.0.here;
      ne_null = l.0.ne_null;
      start =
          linked-field at aligned (region_start at) 0 (omega arith) (omega arith)
            (λ e. a.0 (sym l.0.here ∙ e))
          ∙ l.0.start;
      end =
          linked-field at aligned (region_end at) 8 (omega arith) (omega arith)
            (λ e. a.0 (sym l.0.here ∙ e))
          ∙ l.0.end;
      flags =
          ap low_half (
            linked-field at aligned (region_flags at) 16 (omega arith) (omega arith)
              (λ e. a.0 (sym l.0.here ∙ e)))
          ∙ l.0.flags;
      behind =
          linked-prev_of at aligned (λ e. b.0 (sym l.0.here ∙ e)) (λ e. d.0 (sym l.0.here ∙ e))
          ∙ l.0.behind;
    },
    rw (linked-next_of at aligned (λ e. b.0 (sym l.0.here ∙ e)) (λ e. c.0 (sym l.0.here ∙ e)))
        (Linked-kept at (m (region_next at)) cs l.1 a.1 b.1 c.1 d.1 s.2),
  )
    where
      aligned : at % 4096 ≡ 0
      aligned = ap (λ q. q % 4096) l.0.here ∙ s.0

  -- The cell that `curr` names has the new region behind it.
  IsAt-curr :
      (before : ℕ) (c : Cell)
      → IsAt m before curr c
      → curr ≢ space
      → curr ≢ prev
      → IsAt (linked space r prev curr m) r curr c
  IsAt-curr before c i a b = record {
    here = i.here;
    ne_null = i.ne_null;
    start =
        linked-field curr curr_aligned (region_start curr) 0 (omega arith) (omega arith) a
        ∙ i.start;
    end = linked-field curr curr_aligned (region_end curr) 8 (omega arith) (omega arith) a ∙ i.end;
    flags =
        ap low_half
          (linked-field curr curr_aligned (region_flags curr) 16 (omega arith) (omega arith) a)
        ∙ i.flags;
    behind = linked-behind i.ne_null;
  }

  -- The new region, filled in, is the cell between `prev` and `curr`.
  pub IsAt-new :
      (n : Cell)
      → r ≡ n.page
      → r ≢ null
      → r ≢ space
      → m (region_start r) ≡ n.start
      → m (region_end r) ≡ n.end
      → flags_of m r ≡ n.flags
      → IsAt (linked space r prev curr m) prev r n
  IsAt-new n here ne apart start end flags = record {
    here = here;
    ne_null = ne;
    start = linked-field r r_aligned (region_start r) 0 (omega arith) (omega arith) apart ∙ start;
    end = linked-field r r_aligned (region_end r) 8 (omega arith) (omega arith) apart ∙ end;
    flags =
        ap low_half (linked-field r r_aligned (region_flags r) 16 (omega arith) (omega arith) apart)
        ∙ flags;
    behind = linked-prev;
  }

  -- What follows the new region.
  pub Linked-new :
      (cs : List Cell)
      → Linked m prev curr cs
      → Fresh space cs
      → Fresh r cs
      → Fresh prev cs
      → Separate cs
      → Linked (linked space r prev curr m) r (linked space r prev curr m (region_next r)) cs
  Linked-new [] l a b c s = linked-next ∙ l
  Linked-new (x ∷ cs) l a b c s = rw linked-next (
    IsAt-curr prev x l.0 (λ e. a.0 (sym l.0.here ∙ e)) (λ e. c.0 (sym l.0.here ∙ e)),
    rw (linked-next_of curr curr_aligned curr_apart (λ e. c.0 (sym l.0.here ∙ e))) (
        Linked-kept curr (m (region_next curr)) cs l.1 a.1 b.1 c.1
          (subst (λ q. Fresh q cs) (sym l.0.here) s.1) s.2),
  )
