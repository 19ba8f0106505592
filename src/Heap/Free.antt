-- ===== src/Heap/Free.antt =====
-- `kfree` (src/MemoryManager/heap.c): the block becomes free, and no two free blocks are neighbours.
use mini_user_os.Prelude.{
  ℕ, zero, suc, ◌+◌, ◌<◌, ◌≤◌, ◌≡◌, ◌≢◌, refl, sym, ap, ◌∙◌, List, [], ◌∷◌, ◌++◌, length,
  length-append, arith, ℕ_discrete,
}
use mathlib.Core.Path.{subst}
use mini_user_os.Machine.{null, word, sub64}
use mini_user_os.Heap.{
  Block, Blocks, Heap, block_magic, block_size, heap_start, put_block, merge_blocks, merge_all,
  kfree,
}
use mini_user_os.Heap.Tiles.{
  Cell, Tiles, IsHeap, link, behind, Tiles-end, Tiles-agree, put_block-at, put_block-other,
  link_self, link-null,
}
use mini_user_os.Heap.Cut.{cell}
use mini_user_os.Heap.Merge.{gather, join, coalesce, merge_blocks-other, merge_blocks-Tiles}

length-gather : (n : ℕ) (cs : List Cell) → length (gather n cs).1 ≤ length cs
length-gather n [] = omega arith
length-gather n (d ∷ ds) = ground (arith, length-gather (n + block_size + d.size) ds)

-- A free cell gathers, and the rest is coalesced.
join-gather :
    (n f : ℕ) (cs : List Cell)
    → f ≢ 0
    → join (cell n f) cs ≡ cell (gather n cs).0 f ∷ coalesce (gather n cs).1
join-gather n f [] ne = refl
join-gather n f (d ∷ ds) ne = ground (arith, join-gather (n + block_size + d.size) f ds ne)

-- A cell in use stays as it is.
join-used : (c : Cell) (cs : List Cell) → c.free ≡ 0 → join c cs ≡ c ∷ coalesce cs
join-used c [] e = refl
join-used c (d ∷ ds) e = ground (arith, e)

merge_all-used :
    (fuel p : ℕ) (bs : Blocks)
    → p ≢ null
    → (bs p).free ≡ 0
    → merge_all (suc fuel) p bs ≡ merge_all fuel (bs p).next bs
unfolding merge_all
merge_all-used fuel p bs ne used = ground (arith, used)

merge_all-free :
    (fuel p : ℕ) (bs : Blocks)
    → p ≢ null
    → (bs p).free ≢ 0
    → merge_all (suc fuel) p bs
      ≡ merge_all fuel (merge_blocks fuel p bs p).next (merge_blocks fuel p bs)
unfolding merge_all
merge_all-free fuel p bs ne free = ground arith

merge_all-null : (fuel : ℕ) (bs : Blocks) → merge_all fuel null bs ≡ bs
unfolding merge_all
merge_all-null zero bs = refl
merge_all-null (suc fuel) bs = refl

-- `bs'` has the cells from `p` on, and the headers of `bs` before `p`.
record Leaves (bs bs' : Blocks) (p end : ℕ) (cs : List Cell) : Type 0 where
  tiles : Tiles bs' p end cs
  below : (r : ℕ) → r < p → bs' r ≡ bs r

-- The first cell is as the loop wants it; what follows is merged from the next one on.
Leaves-cons :
    (bs bs1 bs2 : Blocks) (p end : ℕ) (c : Cell) (cs out : List Cell)
    → Tiles bs1 p end (c ∷ cs)
    → ((r : ℕ) → r < p → bs1 r ≡ bs r)
    → Leaves bs1 bs2 (behind p c.size) end out
    → Leaves bs bs2 p end (c ∷ out)
Leaves-cons bs bs1 bs2 p end c cs out t below m =
    let kept = m.below p (omega arith) in
    record {
      tiles = (
        ap (λ (b : Block). b.magic) kept ∙ t.0,
        ap (λ (b : Block). b.size) kept ∙ t.1,
        ap (λ (b : Block). b.free) kept ∙ t.2,
        ap (λ (b : Block). b.next) kept ∙ t.3,
        m.tiles,
      );
      below = λ r h. m.below r (omega arith) ∙ below r h;
    }

Leaves-same :
    (bs b b' : Blocks) (p end : ℕ) (cs cs' : List Cell)
    → b ≡ b'
    → cs ≡ cs'
    → Leaves bs b p end cs
    → Leaves bs b' p end cs'
Leaves-same bs b b' p end cs cs' e f l =
    subst (λ x. Leaves bs x p end cs') e (subst (Leaves bs b p end) f l)

-- The loop of `kfree` coalesces the cells from `p` on, and leaves the headers before `p` alone.
merge_all-Leaves :
    (fuel : ℕ) (bs : Blocks) (p end : ℕ) (cs : List Cell)
    → Tiles bs p end cs
    → p ≢ 0
    → end < word
    → length cs < fuel
    → Leaves bs (merge_all fuel (link p end) bs) p end (coalesce cs)
merge_all-Leaves fuel bs p end [] t ne inside h =
    Leaves-same bs bs _ p end [] []
      (sym (ap (λ q. merge_all fuel q bs) (link-null p end t) ∙ merge_all-null fuel bs)) refl
      record { tiles = t; below = λ r lt. refl }
merge_all-Leaves zero bs p end (c ∷ cs) t ne inside h = absurd (omega arith)
merge_all-Leaves (suc fuel) bs p end (c ∷ cs) t ne inside h =
    let here = link_self p end (omega (arith, Tiles-end bs (behind p c.size) end cs t.4)) in
    let start = ap (λ q. merge_all (suc fuel) q bs) here in
    elim (ℕ_discrete c.free 0) [
      | yes used ↦
          Leaves-same bs (merge_all fuel (link (behind p c.size) end) bs) _ p end (c ∷ coalesce cs)
            _
            (sym (
              start ∙ merge_all-used fuel p bs ne (t.2 ∙ used) ∙ ap (λ q. merge_all fuel q bs) t.3))
            (sym (join-used c cs used))
            (Leaves-cons bs bs _ p end c cs _ t (λ r lt. refl)
              (merge_all-Leaves fuel bs (behind p c.size) end cs t.4 (omega arith) inside
                (omega arith)))
      | no free ↦
          let bs' = merge_blocks fuel p bs in
          let n = (gather c.size cs).0 in
          let rest = (gather c.size cs).1 in
          let t' = merge_blocks-Tiles fuel bs p end c cs t ne inside (omega arith) in
          Leaves-same bs (merge_all fuel (link (behind p n) end) bs') _ p end
            (cell n c.free ∷ coalesce rest) _
            (sym (
              start
              ∙ merge_all-free fuel p bs ne (λ e. free (sym t.2 ∙ e))
              ∙ ap (λ q. merge_all fuel q bs') t'.3))
            (sym (join-gather c.size c.free cs free))
            (Leaves-cons bs bs' _ p end (cell n c.free) rest _ t'
              (λ r lt. merge_blocks-other fuel p bs r (omega arith))
              (merge_all-Leaves fuel bs' (behind p n) end rest t'.4 (omega arith) inside
                (omega (arith, length-gather c.size cs))))
    ]

-- The address of the cell behind the cells `cs`.
abbrev pub address : ℕ → List Cell → ℕ
address p [] = p
address p (c ∷ cs) = address (behind p c.size) cs

address-ge : (p : ℕ) (cs : List Cell) → p ≤ address p cs
address-ge p [] = omega arith
address-ge p (c ∷ cs) = omega (arith, address-ge (behind p c.size) cs)

-- One `free` byte is set.
freed-Tiles :
    (bs : Blocks) (p end : ℕ) (xs : List Cell) (c : Cell) (ys : List Cell)
    → Tiles bs p end (xs ++ (c ∷ ys))
    → let q = address p xs in
      Tiles (put_block q (record (bs q) { free = 1 }) bs) p end (xs ++ (cell c.size 1 ∷ ys))
      × ((bs q).magic ≡ block_magic)
      × (behind q c.size ≤ end)
freed-Tiles bs p end [] c ys t =
    let at = put_block-at p (record (bs p) { free = 1 }) bs in
    (
      (
        ap (λ (b : Block). b.magic) at ∙ t.0,
        ap (λ (b : Block). b.size) at ∙ t.1,
        ap (λ (b : Block). b.free) at,
        ap (λ (b : Block). b.next) at ∙ t.3,
        Tiles-agree _ bs (behind p c.size) end ys (λ r h. put_block-other p _ bs r (omega arith))
            t.4,
      ),
      t.0,
      Tiles-end bs (behind p c.size) end ys t.4,
    )
freed-Tiles bs p end (x ∷ xs) c ys t =
    let rest = freed-Tiles bs (behind p x.size) end xs c ys t.4 in
    let q = address (behind p x.size) xs in
    let kept =
      put_block-other q (record (bs q) { free = 1 }) bs p
        (omega (arith, address-ge (behind p x.size) xs)) in
    (
      (
        ap (λ (b : Block). b.magic) kept ∙ t.0,
        ap (λ (b : Block). b.size) kept ∙ t.1,
        ap (λ (b : Block). b.free) kept ∙ t.2,
        ap (λ (b : Block). b.next) kept ∙ t.3,
        rest.0,
      ),
      rest.1,
      rest.2,
    )

kfree-block :
    (fuel ptr q : ℕ) (h : Heap)
    → ptr ≢ null
    → sub64 ptr block_size ≡ q
    → (h.blocks q).magic ≡ block_magic
    → kfree fuel ptr h ≡ record h {
      blocks =
          merge_all fuel h.heap_first (put_block q (record (h.blocks q) { free = 1 }) h.blocks);
    }
unfolding kfree
kfree-block fuel ptr q h ne e ok = rw (e, ok) (ground arith)

-- In a well-formed heap, `kfree` of a block's address makes the block free and then joins every run of
-- neighbouring free blocks into one; the heap is well-formed again. One step of fuel more than there
-- are blocks is enough.
pub kfree-coalesce :
    (fuel : ℕ) (h : Heap) (xs : List Cell) (c : Cell) (ys : List Cell)
    → IsHeap h (xs ++ (c ∷ ys))
    → length (xs ++ (c ∷ ys)) < fuel
    → IsHeap
        (kfree fuel (address heap_start xs + block_size) h)
        (coalesce (xs ++ (cell c.size 1 ∷ ys)))
kfree-coalesce fuel h xs c ys heap enough =
    let end = heap_start + h.heap_current_size in
    let q = address heap_start xs in
    let freed = freed-Tiles h.blocks heap_start end xs c ys heap.tiles in
    let bs = put_block q (record (h.blocks q) { free = 1 }) h.blocks in
    let cells = xs ++ (cell c.size 1 ∷ ys) in
    let same : length cells ≡ length (xs ++ (c ∷ ys)) =
      omega (arith, length-append xs (c ∷ ys), length-append xs (cell c.size 1 ∷ ys)) in
    let merged =
      merge_all-Leaves fuel bs heap_start end cells freed.0 (omega arith) heap.small
        (omega (arith, same)) in
    let low = address-ge heap_start xs in
    let call =
      kfree-block fuel (q + block_size) q h (omega (arith, low))
        (omega (arith, low, freed.2, heap.small)) freed.1
      ∙ ap (λ r. record h { blocks = merge_all fuel r bs }) heap.first in
    subst (λ k. IsHeap k (coalesce cells)) (sym call)
      record { first = heap.first; tiles = merged.tiles; small = heap.small }
