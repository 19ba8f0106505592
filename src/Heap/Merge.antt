-- ===== src/Heap/Merge.antt =====
-- `merge_blocks` and the loop of `kfree` (src/MemoryManager/heap.c): neighbouring free cells become one.
use mini_user_os.Prelude.{
  ℕ, zero, suc, ◌+◌, ◌<◌, ◌≤◌, ◌≡◌, ◌≢◌, refl, sym, ap, ◌∙◌, Bool, true, false, not, ◌||◌, ◌==◌,
  if◌then◌else◌, List, [], ◌∷◌, length, arith, ℕ_discrete,
}
use mathlib.Core.Path.{subst}
use mini_user_os.Machine.{null, word, add64}
use mini_user_os.Heap.{Block, Blocks, block_magic, block_size, put_block, join_next, merge_blocks}
use mini_user_os.Heap.Tiles.{
  Cell, Tiles, link, behind, Tiles-end, Tiles-agree, put_block-at, put_block-other, link_self,
  link-null,
}
use mini_user_os.Heap.Cut.{cell}

-- The size of a cell that takes in the free cells behind it, and the cells that are left.
abbrev pub gather : ℕ → List Cell → ℕ × List Cell
gather n [] = (n, [])
gather n (d ∷ ds) =
    let more = gather (n + block_size + d.size) ds in if d.free == 0 then (n, d ∷ ds) else more

-- The specification: a free cell takes in the free cells behind it.
abbrev pub join : Cell → List Cell → List Cell
join c [] = c ∷ []
join c (d ∷ ds) =
    let apart = c ∷ join d ds in
    let together = join (cell (c.size + block_size + d.size) c.free) ds in
    if c.free == 0 || d.free == 0 then apart else together

abbrev pub coalesce : List Cell → List Cell
coalesce [] = []
coalesce (c ∷ cs) = join c cs

either_way :
    (b : Bool) (x y : Blocks) (r : ℕ) (v : Block) → x r ≡ v → y r ≡ v → (if b then x else y) r ≡ v
either_way true x y r v e f = e
either_way false x y r v e f = f

join_next-other : (p : ℕ) (bs : Blocks) (r : ℕ) → r ≢ p → join_next p bs r ≡ bs r
unfolding put_block
join_next-other p bs r ne = ground arith

pub merge_blocks-other :
    (fuel p : ℕ) (bs : Blocks) (r : ℕ) → r ≢ p → merge_blocks fuel p bs r ≡ bs r
unfolding merge_blocks
merge_blocks-other zero p bs r ne = refl
merge_blocks-other (suc fuel) p bs r ne =
    either_way ((bs p).next == null || (bs (bs p).next).free == 0) bs
      (if not ((bs (bs p).next).magic == block_magic)
        then bs
        else merge_blocks fuel p (join_next p bs))
      r (bs r) refl
      (either_way (not ((bs (bs p).next).magic == block_magic)) bs
        (merge_blocks fuel p (join_next p bs)) r (bs r) refl
        (merge_blocks-other fuel p (join_next p bs) r ne ∙ join_next-other p bs r ne))

merge_cell :
    (fuel p : ℕ) (bs : Blocks)
    → (bs p).next ≢ null
    → (bs (bs p).next).free ≢ 0
    → (bs (bs p).next).magic ≡ block_magic
    → merge_blocks (suc fuel) p bs ≡ merge_blocks fuel p (join_next p bs)
unfolding merge_blocks
merge_cell fuel p bs ne free ok = ground arith

merge_end : (fuel p : ℕ) (bs : Blocks) → (bs p).next ≡ null → merge_blocks (suc fuel) p bs ≡ bs
unfolding merge_blocks
merge_end fuel p bs e = ground arith

merge_stop :
    (fuel p : ℕ) (bs : Blocks) → (bs (bs p).next).free ≡ 0 → merge_blocks (suc fuel) p bs ≡ bs
unfolding merge_blocks
merge_stop fuel p bs e = ground arith

gather-here : (n : ℕ) (d : Cell) (ds : List Cell) → d.free ≡ 0 → gather n (d ∷ ds) ≡ (n, d ∷ ds)
gather-here n d ds e = ground (arith, e)

gather-more :
    (n : ℕ) (d : Cell) (ds : List Cell)
    → d.free ≢ 0
    → gather n (d ∷ ds) ≡ gather (n + block_size + d.size) ds
gather-more n d ds e = ground (arith, e)

-- The tiles of a block that has taken in its neighbour.
module _ (bs : Blocks) (p end : ℕ) (c d : Cell) (ds : List Cell) (t : Tiles bs p end (c ∷ d ∷ ds))
    (inside : end < word) where
  reaches : behind (behind p c.size) d.size ≤ end
  reaches = Tiles-end bs (behind (behind p c.size) d.size) end ds t.4.4

  next_at : (bs p).next ≡ behind p c.size
  next_at = t.3 ∙ link_self (behind p c.size) end (omega (arith, reaches))

  abbrev grown : Block
  grown = record (bs p) {
    size = add64 (bs p).size (add64 block_size (bs (bs p).next).size);
    next = (bs (bs p).next).next;
  }

  joined_size :
      add64 (bs p).size (add64 block_size (bs (bs p).next).size) ≡ c.size + block_size + d.size
  joined_size =
      ap (λ q. add64 (bs p).size (add64 block_size (bs q).size)) next_at
      ∙ rw (t.1, t.4.1) (omega (arith, reaches, inside))

  joined-Tiles :
      Tiles (put_block p grown bs) p end (cell (c.size + block_size + d.size) c.free ∷ ds)
  joined-Tiles =
      let at = put_block-at p grown bs in
      let place : behind (behind p c.size) d.size ≡ behind p (c.size + block_size + d.size) =
        omega arith in
      (
        ap (λ (b : Block). b.magic) at ∙ t.0,
        ap (λ (b : Block). b.size) at ∙ joined_size,
        ap (λ (b : Block). b.free) at ∙ t.2,
        ap (λ (b : Block). b.next) at
            ∙ ap (λ q. (bs q).next) next_at
            ∙ t.4.3
            ∙ ap (λ q. link q end) place,
        subst (λ q. Tiles (put_block p grown bs) q end ds) place
            (Tiles-agree (put_block p grown bs) bs (behind (behind p c.size) d.size) end ds
              (λ r h. put_block-other p grown bs r (omega arith)) t.4.4),
      )

ne_null : (p n : ℕ) → behind p n ≢ null
ne_null p n e = absurd (omega (arith, e))

-- `merge_blocks` gathers the free cells behind a cell, with fuel for one step more than there are.
pub merge_blocks-Tiles :
    (fuel : ℕ) (bs : Blocks) (p end : ℕ) (c : Cell) (cs : List Cell)
    → Tiles bs p end (c ∷ cs)
    → p ≢ 0
    → end < word
    → length cs < fuel
    → Tiles (merge_blocks fuel p bs) p end (cell (gather c.size cs).0 c.free ∷ (gather c.size cs).1)
merge_blocks-Tiles zero bs p end c cs t ne inside h = absurd (omega arith)
merge_blocks-Tiles (suc fuel) bs p end c [] t ne inside h =
    subst (λ f. Tiles f p end (c ∷ []))
      (sym (merge_end fuel p bs (t.3 ∙ link-null (behind p c.size) end t.4))) t
merge_blocks-Tiles (suc fuel) bs p end c (d ∷ ds) t ne inside h = elim (ℕ_discrete d.free 0) [
  | yes used ↦
      let stop =
        merge_stop fuel p bs
          (ap (λ q. (bs q).free) (next_at bs p end c d ds t inside) ∙ t.4.2 ∙ used) in
      rw (gather-here c.size d ds used) (subst (λ f. Tiles f p end (c ∷ d ∷ ds)) (sym stop) t)
  | no free ↦
      let at = next_at bs p end c d ds t inside in
      let step =
        merge_cell fuel p bs (λ e. ne_null p c.size (sym at ∙ e))
          (λ e. free (sym t.4.2 ∙ sym (ap (λ q. (bs q).free) at) ∙ e))
          (ap (λ q. (bs q).magic) at ∙ t.4.0) in
      rw (gather-more c.size d ds free) (
        subst
          (λ f. Tiles f p end (
            cell (gather (c.size + block_size + d.size) ds).0 c.free
            ∷ (gather (c.size + block_size + d.size) ds).1))
          (sym step)
          (merge_blocks-Tiles fuel _ p end (cell (c.size + block_size + d.size) c.free) ds
            (joined-Tiles bs p end c d ds t inside) ne inside (omega arith)))
]
