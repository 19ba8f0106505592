-- ===== src/Heap/Coalesce.antt =====
-- What joining the free blocks means (`kfree`, src/MemoryManager/heap.c).
use mini_user_os.Prelude.{
  ℕ, ◌+◌, ◌<◌, ◌≡◌, ◌≢◌, ◌⊎◌, inl, inr, refl, sym, ap, ◌∙◌, ◌==◌, if◌then◌else◌, List, [], ◌∷◌,
  ◌++◌, length, arith, ℕ_discrete,
}
use mathlib.Core.Path.{subst}
use mini_user_os.Heap.{Heap, block_size, heap_start, kfree}
use mini_user_os.Heap.Tiles.{Cell, IsHeap, behind}
use mini_user_os.Heap.Cut.{cell}
use mini_user_os.Heap.Merge.{join, coalesce}
use mini_user_os.Heap.Free.{address, kfree-coalesce}

-- The `free` byte of the first cell.
abbrev pub head_free : List Cell → ℕ
head_free [] = 0
head_free (c ∷ cs) = c.free

-- No two neighbours are free.
abbrev pub Apart : List Cell → Type 0
Apart [] = Unit {0}
Apart (c ∷ cs) = ((c.free ≡ 0) ⊎ (head_free cs ≡ 0)) × Apart cs

-- The addresses and sizes of the blocks in use.
abbrev pub in_use : ℕ → List Cell → List (ℕ × ℕ)
in_use p [] = []
in_use p (c ∷ cs) =
    let rest = in_use (behind p c.size) cs in if c.free == 0 then (p, c.size) ∷ rest else rest

join-apart :
    (c d : Cell) (ds : List Cell) → (c.free ≡ 0) ⊎ (d.free ≡ 0) → join c (d ∷ ds) ≡ c ∷ join d ds
join-apart c d ds (inl e) = ground (arith, e)
join-apart c d ds (inr e) = ground (arith, e)

join-together :
    (c d : Cell) (ds : List Cell)
    → c.free ≢ 0
    → d.free ≢ 0
    → join c (d ∷ ds) ≡ join (cell (c.size + block_size + d.size) c.free) ds
join-together c d ds e f = ground (arith, e, f)

-- Either one of two cells is in use, or both are free.
one_used : (a b : ℕ) → ((a ≡ 0) ⊎ (b ≡ 0)) ⊎ (a ≢ 0) × (b ≢ 0)
one_used a b = elim (ℕ_discrete a 0) [
  | yes e ↦ inl (inl e)
  | no e ↦ elim (ℕ_discrete b 0) [ yes f ↦ inl (inr f) | no f ↦ inr (e, f) ]
]

join-head : (c : Cell) (cs : List Cell) → head_free (join c cs) ≡ c.free
join-head c [] = refl
join-head c (d ∷ ds) = elim (one_used c.free d.free) [
  | inl used ↦ ap head_free (join-apart c d ds used)
  | inr free ↦
      ap head_free (join-together c d ds free.0 free.1)
      ∙ join-head (cell (c.size + block_size + d.size) c.free) ds
]

join-Apart : (c : Cell) (cs : List Cell) → Apart (join c cs)
join-Apart c [] = (inr refl, tt)
join-Apart c (d ∷ ds) = elim (one_used c.free d.free) [
  | inl used ↦ subst Apart (sym (join-apart c d ds used)) (either used, join-Apart d ds)
  | inr free ↦
      subst Apart (sym (join-together c d ds free.0 free.1))
        (join-Apart (cell (c.size + block_size + d.size) c.free) ds)
]
  where
    either : (c.free ≡ 0) ⊎ (d.free ≡ 0) → (c.free ≡ 0) ⊎ (head_free (join d ds) ≡ 0)
    either (inl e) = inl e
    either (inr e) = inr (join-head d ds ∙ e)

in_use-cons :
    (p : ℕ) (c : Cell) (cs ds : List Cell)
    → in_use (behind p c.size) cs ≡ in_use (behind p c.size) ds
    → in_use p (c ∷ cs) ≡ in_use p (c ∷ ds)
in_use-cons p c cs ds e = rw e refl

in_use-free :
    (p : ℕ) (c : Cell) (cs : List Cell)
    → c.free ≢ 0
    → in_use p (c ∷ cs) ≡ in_use (behind p c.size) cs
in_use-free p c cs ne = ground (arith, ne)

in_use-join : (p : ℕ) (c : Cell) (cs : List Cell) → in_use p (join c cs) ≡ in_use p (c ∷ cs)
in_use-join p c [] = refl
in_use-join p c (d ∷ ds) = elim (one_used c.free d.free) [
  | inl used ↦
      ap (in_use p) (join-apart c d ds used)
      ∙ in_use-cons p c (join d ds) (d ∷ ds) (in_use-join (behind p c.size) d ds)
  | inr free ↦
      let e = cell (c.size + block_size + d.size) c.free in
      ap (in_use p) (join-together c d ds free.0 free.1)
      ∙ in_use-join p e ds
      ∙ in_use-free p e ds free.0
      ∙ ap (λ q. in_use q ds) (omega arith)
      ∙ sym (in_use-free (behind p c.size) d ds free.1)
      ∙ sym (in_use-free p c (d ∷ ds) free.0)
]

coalesce-Apart :
    (p : ℕ) (cs : List Cell) → Apart (coalesce cs) × (in_use p (coalesce cs) ≡ in_use p cs)
coalesce-Apart p [] = (tt, refl)
coalesce-Apart p (c ∷ cs) = (join-Apart c cs, in_use-join p c cs)

-- In a well-formed heap, `kfree` of a block's address leaves a well-formed heap in which no two free
-- blocks are neighbours, and in which the blocks in use are those of the old heap without the freed
-- one, at their addresses and with their sizes. One step of fuel more than there are blocks is enough.
pub kfree-joins :
    (fuel : ℕ) (h : Heap) (xs : List Cell) (c : Cell) (ys : List Cell)
    → IsHeap h (xs ++ (c ∷ ys))
    → length (xs ++ (c ∷ ys)) < fuel
    → (out : List Cell) × IsHeap (kfree fuel (address heap_start xs + block_size) h) out
      × Apart out
      × (in_use heap_start out ≡ in_use heap_start (xs ++ (cell c.size 1 ∷ ys)))
kfree-joins fuel h xs c ys heap enough =
    let freed = xs ++ (cell c.size 1 ∷ ys) in
    (
      coalesce freed,
      kfree-coalesce fuel h xs c ys heap enough,
      (coalesce-Apart heap_start freed).0,
      (coalesce-Apart heap_start freed).1,
    )
