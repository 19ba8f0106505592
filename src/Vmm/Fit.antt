-- ===== src/Vmm/Fit.antt =====
-- Which addresses `vmm_find_free_region` of src/MemoryManager/vmm.c finds.
use mini_user_os.Prelude.{
  ℕ, zero, suc, ◌+◌, ◌/◌, ◌*◌, ◌<◌, ◌≤◌, ◌≡◌, ◌≢◌, ◌⊎◌, inl, inr, refl, sym, ap, ◌∙◌, List, [], ◌∷◌,
  length, arith, dec_lt, ℕ_discrete,
}
use mathlib.Core.Path.{subst}
use mini_user_os.Machine.{Memory, null, word}
use mini_user_os.Vmm.Structs.{
  region_start, region_end, region_next, space_regions, region_free, flags_of,
}
use mini_user_os.Vmm.Regions.{free_from, find_free_region, find_free_region_aligned}
use mini_user_os.Vmm.Align.{align_up-page}
use mini_user_os.Vmm.Cells.{Cell, Linked}

-- The next multiple of the page size.
abbrev pub round_up : ℕ → ℕ
round_up x = 4096 * ((x + 4095) / 4096)

-- A free region that has room for `needed` bytes from a page's start on.
abbrev pub Fits : ℕ → Cell → Type 0
Fits needed c = (c.flags ≡ region_free) × (round_up c.start + needed ≤ c.end)

-- The first page of the first region that has the room, or 0.
abbrev pub FirstFit : ℕ → List Cell → ℕ → Type 0
FirstFit needed [] v = v ≡ 0
FirstFit needed (c ∷ cs) v =
    (Fits needed c × (v ≡ round_up c.start)) ⊎ ((¬ (Fits needed c)) × FirstFit needed cs v)

-- Adding the size to a region's start does not wrap.
abbrev pub Low : ℕ → List Cell → Type 0
Low needed [] = Unit {0}
Low needed (c ∷ cs) = (c.start + 4095 + needed < word) × Low needed cs

dec-Fits : (needed : ℕ) (c : Cell) → Fits needed c ⊎ ¬ (Fits needed c)
dec-Fits needed c = elim (ℕ_discrete c.flags region_free) [
  | no used ↦ inr (λ h. used h.0)
  | yes free ↦ elim (dec_lt c.end (round_up c.start + needed)) [
    | yes short ↦ inr (λ h. absurd (omega (arith, h.1)))
    | no room ↦ inl (free, omega arith)
  ]
]

free_from-here :
    (fuel r needed : ℕ) (m : Memory)
    → r ≢ null
    → m (region_start r) + 4095 + needed < word
    → (flags_of m r ≡ region_free) × (round_up (m (region_start r)) + needed ≤ m (region_end r))
    → free_from (suc fuel) r needed 4096 m ≡ round_up (m (region_start r))
unfolding free_from
free_from-here fuel r needed m ne low h =
    rw (align_up-page (m (region_start r)) (omega arith)) (ground arith)

free_from-there :
    (fuel r needed : ℕ) (m : Memory)
    → r ≢ null
    → m (region_start r) + 4095 + needed < word
    → ¬ ((flags_of m r ≡ region_free) × (round_up (m (region_start r)) + needed ≤ m (region_end r)))
    → free_from (suc fuel) r needed 4096 m ≡ free_from fuel (m (region_next r)) needed 4096 m
unfolding free_from
free_from-there fuel r needed m ne low h =
    rw (align_up-page (m (region_start r)) (omega arith)) (ground arith)

free_from-end : (fuel needed : ℕ) (m : Memory) → free_from fuel null needed 4096 m ≡ 0
unfolding free_from
free_from-end zero needed m = refl
free_from-end (suc fuel) needed m = refl

free_from-FirstFit :
    (m : Memory) (needed prev : ℕ) (cs : List Cell) (fuel r : ℕ)
    → Linked m prev r cs
    → Low needed cs
    → length cs < fuel
    → FirstFit needed cs (free_from fuel r needed 4096 m)
free_from-FirstFit m needed prev [] fuel r l low h =
    ap (λ q. free_from fuel q needed 4096 m) l ∙ free_from-end fuel needed m
free_from-FirstFit m needed prev (c ∷ cs) zero r l low h = absurd (omega arith)
free_from-FirstFit m needed prev (c ∷ cs) (suc fuel) r l low h = elim (dec-Fits needed c) [
  | inl fits ↦ inl (
    fits,
    free_from-here fuel r needed m l.0.ne_null (rw l.0.start low.0)
          (rw (l.0.start, l.0.end, l.0.flags) fits)
        ∙ ap round_up l.0.start,
  )
  | inr no_room ↦ inr (
    no_room,
    subst (FirstFit needed cs)
        (sym (
          free_from-there fuel r needed m l.0.ne_null (rw l.0.start low.0)
            (rw (l.0.start, l.0.end, l.0.flags) no_room)))
        (free_from-FirstFit m needed r cs fuel (m (region_next r)) l.1 low.1 (omega arith)),
  )
]

find_free_region-list :
    (fuel space size : ℕ) (m : Memory)
    → space ≢ null
    → size ≢ 0
    → size + 4095 < word
    → find_free_region fuel space size m
      ≡ free_from fuel (m (space_regions space)) (round_up size) 4096 m
unfolding find_free_region find_free_region_aligned
find_free_region-list fuel space size m ne some h = rw (align_up-page size h) (ground arith)

-- For a size that is not 0 and does not wrap at the regions' starts, `vmm_find_free_region` returns the
-- first page of the first free region that has room for the size in whole pages behind it, and 0 if
-- there is none; one step of fuel more than there are regions is enough.
pub find_free_region-FirstFit :
    (fuel space size : ℕ) (m : Memory) (cs : List Cell)
    → space ≢ null
    → size ≢ 0
    → size + 4095 < word
    → Linked m null (m (space_regions space)) cs
    → Low (round_up size) cs
    → length cs < fuel
    → FirstFit (round_up size) cs (find_free_region fuel space size m)
find_free_region-FirstFit fuel space size m cs ne some small l low h =
    subst (FirstFit (round_up size) cs)
      (sym (find_free_region-list fuel space size m ne some small))
      (free_from-FirstFit m (round_up size) null cs fuel _ l low h)
