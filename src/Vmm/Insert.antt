-- ===== src/Vmm/Insert.antt =====
-- The place of a new region in the sorted list of src/MemoryManager/vmm.c.
use mini_user_os.Prelude.{
  ℕ, zero, suc, ◌+◌, ◌%◌, ◌<◌, ◌≡◌, ◌≢◌, inl, inr, refl, sym, true, false, ltb, if◌then◌else◌, List,
  [], ◌∷◌, arith,
}
use mathlib.Core.Path.{subst}
use mini_user_os.Machine.{Memory, null}
use mini_user_os.Vmm.Structs.{region_start, region_next, region_prev}
use mini_user_os.Vmm.Regions.{place_from}
use mini_user_os.Vmm.Cells.{Cell, Fresh, Separate, Elsewhere}
use mini_user_os.Vmm.Link.{link_of, link_of-cases, not_null}

-- The new cell stands before the first one that does not start below it.
abbrev pub insert : Cell → List Cell → List Cell
insert n [] = n ∷ []
insert n (c ∷ cs) = if ltb c.start n.start then c ∷ insert n cs else n ∷ c ∷ cs

pub Elsewhere-page :
    (p k : ℕ) (cs : List Cell)
    → p % 4096 ≡ 0
    → k < 4096
    → Fresh p cs
    → Separate cs
    → Elsewhere (p + k) cs
Elsewhere-page p k [] a h f s = tt
Elsewhere-page p k (c ∷ cs) a h f s = (
  λ e. f.0 (omega (arith, e, s.0)),
  λ e. f.0 (omega (arith, e, s.0)),
  Elsewhere-page p k cs a h f.1 s.2,
)

pub Elsewhere-link :
    (space prev : ℕ) (cs : List Cell)
    → space % 4096 ≡ 0
    → prev % 4096 ≡ 0
    → Fresh space cs
    → Fresh prev cs
    → Separate cs
    → Elsewhere (link_of space prev) cs
Elsewhere-link space prev cs a b f g s = elim (link_of-cases space prev) [
  | inl head ↦
      subst (λ q. Elsewhere q cs) (sym head) (Elsewhere-page space 8 cs a (omega arith) f s)
  | inr next ↦
      subst (λ q. Elsewhere q cs) (sym next) (Elsewhere-page prev 24 cs b (omega arith) g s)
]

pub link_of-ne_next :
    (space prev p : ℕ)
    → space % 4096 ≡ 0
    → prev % 4096 ≡ 0
    → p % 4096 ≡ 0
    → prev ≢ p
    → link_of space prev ≢ region_next p
link_of-ne_next space prev p a b c ne e = elim (link_of-cases space prev) [
  | inl head ↦ omega (arith, head, e)
  | inr next ↦ omega (arith, next, e)
]

pub link_of-ne_prev :
    (space prev p : ℕ)
    → space % 4096 ≡ 0
    → prev % 4096 ≡ 0
    → p % 4096 ≡ 0
    → link_of space prev ≢ region_prev p
link_of-ne_prev space prev p a b c e = elim (link_of-cases space prev) [
  | inl head ↦ omega (arith, head, e)
  | inr next ↦ omega (arith, next, e)
]

pub place_from-end :
    (fuel prev start : ℕ) (m : Memory) → place_from fuel prev null start m ≡ (prev, null)
unfolding place_from
place_from-end zero prev start m = refl
place_from-end (suc fuel) prev start m = refl

pub place_from-stop :
    (fuel prev curr start : ℕ) (m : Memory)
    → curr ≢ null
    → ¬ (m (region_start curr) < start)
    → place_from fuel prev curr start m ≡ (prev, curr)
unfolding place_from
place_from-stop zero prev curr start m ne h = refl
place_from-stop (suc fuel) prev curr start m ne h = rw (not_null curr ne, above) refl
  where
    above : ltb (m (region_start curr)) start ≡ false
    above = ground arith

pub place_from-pass :
    (fuel prev curr start : ℕ) (m : Memory)
    → curr ≢ null
    → m (region_start curr) < start
    → place_from (suc fuel) prev curr start m ≡ place_from fuel curr (m (region_next curr)) start m
unfolding place_from
place_from-pass fuel prev curr start m ne h = rw (not_null curr ne, below) refl
  where
    below : ltb (m (region_start curr)) start ≡ true
    below = ground arith
