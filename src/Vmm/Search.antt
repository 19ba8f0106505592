-- ===== src/Vmm/Search.antt =====
-- Which region `vmm_find_region` of src/MemoryManager/vmm.c finds.
use mini_user_os.Prelude.{
  ℕ, zero, suc, ◌<◌, ◌≤◌, ◌≡◌, ◌≢◌, inl, inr, refl, sym, ap, ◌∙◌, List, [], ◌∷◌, length, arith,
}
use mathlib.Core.Path.{subst}
use mini_user_os.Machine.{Memory, null}
use mini_user_os.Vmm.Structs.{region_start, region_end, region_next, space_regions}
use mini_user_os.Vmm.Regions.{find_from, find_region}
use mini_user_os.Vmm.Cells.{Cell, Linked, Found, dec-Holds}

find_from-here :
    (fuel r addr : ℕ) (m : Memory)
    → r ≢ null
    → (m (region_start r) ≤ addr) × (addr < m (region_end r))
    → find_from (suc fuel) r addr m ≡ r
unfolding find_from
find_from-here fuel r addr m ne h = ground arith

find_from-there :
    (fuel r addr : ℕ) (m : Memory)
    → r ≢ null
    → ¬ ((m (region_start r) ≤ addr) × (addr < m (region_end r)))
    → find_from (suc fuel) r addr m ≡ find_from fuel (m (region_next r)) addr m
unfolding find_from
find_from-there fuel r addr m ne out = ground arith

find_from-end : (fuel addr : ℕ) (m : Memory) → find_from fuel null addr m ≡ null
unfolding find_from
find_from-end zero addr m = refl
find_from-end (suc fuel) addr m = refl

find_from-Found :
    (m : Memory) (addr prev : ℕ) (cs : List Cell) (fuel r : ℕ)
    → Linked m prev r cs
    → length cs < fuel
    → Found addr cs (find_from fuel r addr m)
find_from-Found m addr prev [] fuel r l h =
    ap (λ q. find_from fuel q addr m) l ∙ find_from-end fuel addr m
find_from-Found m addr prev (c ∷ cs) zero r l h = absurd (omega arith)
find_from-Found m addr prev (c ∷ cs) (suc fuel) r l h = elim (dec-Holds c addr) [
  | inl inside ↦
      inl (
        inside,
        find_from-here fuel r addr m l.0.ne_null (rw (l.0.start, l.0.end) inside) ∙ l.0.here,
      )
  | inr outside ↦ inr (
    outside,
    subst (Found addr cs)
        (sym (find_from-there fuel r addr m l.0.ne_null (rw (l.0.start, l.0.end) outside)))
        (find_from-Found m addr r cs fuel (m (region_next r)) l.1 (omega arith)),
  )
]

find_region-list :
    (fuel space addr : ℕ) (m : Memory)
    → space ≢ null
    → find_region fuel space addr m ≡ find_from fuel (m (space_regions space)) addr m
unfolding find_region
find_region-list fuel space addr m h = ground arith

-- In the regions of an address space, `vmm_find_region` finds the first one that holds the address, and
-- NULL if there is none; one step of fuel more than there are regions is enough.
pub find_region-Found :
    (fuel space addr : ℕ) (m : Memory) (cs : List Cell)
    → space ≢ null
    → Linked m null (m (space_regions space)) cs
    → length cs < fuel
    → Found addr cs (find_region fuel space addr m)
find_region-Found fuel space addr m cs ne l h =
    subst (Found addr cs) (sym (find_region-list fuel space addr m ne))
      (find_from-Found m addr null cs fuel _ l h)
