-- ===== src/Heap/Take.antt =====
-- `kmalloc` where a block fits (src/MemoryManager/heap.c): first fit on the list of cells.
use mini_user_os.Prelude.{
  ℕ, suc, ◌+◌, ◌<◌, ◌≤◌, ◌≡◌, ◌≢◌, inl, inr, refl, sym, ap, ◌∙◌, Bool, true, false, leb,
  if◌then◌else◌, List, [], ◌∷◌, ◌++◌, length, arith, Bool-cases,
}
use mathlib.Core.Path.{subst}
use mathlib.Core.Bool.{false≢true}
use mini_user_os.Machine.{word, add64}
use mini_user_os.Heap.{
  Block, Blocks, Heap, Search, fits, exhausted, corrupt, block_size, heap_start, search_from,
  split_block, take_block, kmalloc, align,
}
use mini_user_os.Heap.Tiles.{
  Cell, Tiles, IsHeap, behind, suits, first_fit, Tiles-end, put_block-other, search_from-first_fit,
}
use mini_user_os.Heap.Cut.{cut, suits-le, take_block-other, take_block-Tiles}

-- First fit: the first cell that suits is cut.
abbrev pub take_first : ℕ → List Cell → List Cell
take_first size [] = []
take_first size (c ∷ cs) =
    let rest = take_first size cs in if suits size c then cut size c ++ cs else c ∷ rest

take_first-here :
    (size : ℕ) (c : Cell) (cs : List Cell)
    → suits size c ≡ true
    → take_first size (c ∷ cs) ≡ cut size c ++ cs
take_first-here size c cs h = rw h refl

found_at : Search → ℕ
found_at (fits p) = p
found_at exhausted = 0
found_at (corrupt p) = 0

found : Search → Bool
found (fits p) = true
found exhausted = false
found (corrupt p) = false

first_fit-here :
    (size p : ℕ) (c : Cell) (cs : List Cell)
    → suits size c ≡ true
    → first_fit size p (c ∷ cs) ≡ fits p
first_fit-here size p c cs h = rw h refl

first_fit-there :
    (size p : ℕ) (c : Cell) (cs : List Cell)
    → suits size c ≡ false
    → first_fit size p (c ∷ cs) ≡ first_fit size (behind p c.size) cs
first_fit-there size p c cs h = rw h refl

first_fit-nil : (size p q : ℕ) → first_fit size p [] ≢ fits q
unfolding found
first_fit-nil size p q e = false≢true (ap found e)

fits-place : (p q : ℕ) → fits p ≡ fits q → p ≡ q
unfolding found_at
fits-place p q e = ap found_at e

-- The cell that the search finds lies in the heap.
pub first_fit-inside :
    (bs : Blocks) (size end : ℕ) (cs : List Cell) (p q : ℕ)
    → Tiles bs p end cs
    → first_fit size p cs ≡ fits q
    → (p ≤ q) × (behind q size ≤ end)
first_fit-inside bs size end [] p q t e = absurd (first_fit-nil size p q e)
first_fit-inside bs size end (c ∷ cs) p q t e = elim (Bool-cases (suits size c)) [
  | inl fit ↦
      let same = fits-place p q (sym (first_fit-here size p c cs fit) ∙ e) in
      (
        omega (arith, same),
        omega (arith, same, suits-le size c fit, Tiles-end bs (behind p c.size) end cs t.4),
      )
  | inr miss ↦
      let rest =
        first_fit-inside bs size end cs (behind p c.size) q t.4
          (sym (first_fit-there size p c cs miss) ∙ e) in
      (omega (arith, rest.0), rest.1)
]

-- A header below the block that is taken stays.
take_block-below :
    (bs : Blocks) (size q r : ℕ) → r < q → behind q size < word → take_block q size bs r ≡ bs r
unfolding split_block
take_block-below bs size q r h inside =
    take_block-other q size bs r (omega arith)
    ∙ elim (Bool-cases (leb (add64 (add64 size block_size) 8) (bs q).size)) [
      | inl large ↦
          rw large (put_block-other q _ _ r (omega arith) ∙ put_block-other _ _ _ r (omega arith))
      | inr small ↦ rw small refl
    ]

take_first-there :
    (size : ℕ) (c : Cell) (cs : List Cell)
    → suits size c ≡ false
    → take_first size (c ∷ cs) ≡ c ∷ take_first size cs
take_first-there size c cs h = rw h refl

-- Taking the block that the search finds cuts the first cell that suits, wherever it stands.
pub take_first-Tiles :
    (bs : Blocks) (size end : ℕ) (cs : List Cell) (p q : ℕ)
    → Tiles bs p end cs
    → 8 ≤ p
    → end < word
    → first_fit size p cs ≡ fits q
    → Tiles (take_block q size bs) p end (take_first size cs)
take_first-Tiles bs size end [] p q t low inside e = absurd (first_fit-nil size p q e)
take_first-Tiles bs size end (c ∷ cs) p q t low inside e = elim (Bool-cases (suits size c)) [
  | inl fit ↦
      let same = fits-place p q (sym (first_fit-here size p c cs fit) ∙ e) in
      subst (λ r. Tiles (take_block r size bs) p end (take_first size (c ∷ cs))) same
        (subst (Tiles (take_block p size bs) p end) (sym (take_first-here size c cs fit))
          (take_block-Tiles bs p end size c cs t low inside fit))
  | inr miss ↦
      let further = sym (first_fit-there size p c cs miss) ∙ e in
      let bound = first_fit-inside bs size end cs (behind p c.size) q t.4 further in
      let kept = take_block-below bs size q p (omega (arith, bound.0)) (omega (arith, bound.1)) in
      subst (Tiles (take_block q size bs) p end) (sym (take_first-there size c cs miss)) (
        ap (λ (b : Block). b.magic) kept ∙ t.0,
        ap (λ (b : Block). b.size) kept ∙ t.1,
        ap (λ (b : Block). b.free) kept ∙ t.2,
        ap (λ (b : Block). b.next) kept ∙ t.3,
        take_first-Tiles bs size end cs (behind p c.size) q t.4 (omega arith) inside further,
      )
]

kmalloc-search :
    (calls fuel size p : ℕ) (h : Heap)
    → size ≢ 0
    → search_from fuel h.heap_first (align size) h.blocks ≡ fits p
    → kmalloc (suc calls) fuel size h
      ≡ (add64 p block_size, record h { blocks = take_block p (align size) h.blocks })
unfolding kmalloc
kmalloc-search calls fuel size p h ne e = rw e (ground arith)

-- In a well-formed heap with a free block for the aligned size, for a size that is not 0, `kmalloc` returns
-- the address behind the
-- header of the first one. The heap's blocks are those it had, with that one cut: its first part, in
-- use, has the aligned size and the rest is a free block, or all of it is in use if fewer than 40 bytes
-- would be left. The heap is well-formed again. One step of fuel more than there are blocks is enough.
pub kmalloc-first_fit :
    (calls fuel size p : ℕ) (h : Heap) (cs : List Cell)
    → IsHeap h cs
    → size ≢ 0
    → length cs < fuel
    → first_fit (align size) heap_start cs ≡ fits p
    → ((kmalloc (suc calls) fuel size h).0 ≡ p + block_size)
      × IsHeap (kmalloc (suc calls) fuel size h).1 (take_first (align size) cs)
kmalloc-first_fit calls fuel size p h cs heap ne enough e =
    let end = heap_start + h.heap_current_size in
    let search =
      ap (λ q. search_from fuel q (align size) h.blocks) heap.first
      ∙ search_from-first_fit h.blocks (align size) end cs fuel heap_start heap.tiles (omega arith)
          enough
      ∙ e in
    let found = first_fit-inside h.blocks (align size) end cs heap_start p heap.tiles e in
    rw (kmalloc-search calls fuel size p h ne search) (
      omega (arith, found.1, heap.small),
      record {
        first = heap.first;
        tiles =
            take_first-Tiles h.blocks (align size) end cs heap_start p heap.tiles (omega arith)
              heap.small e;
        small = heap.small;
      },
    )
