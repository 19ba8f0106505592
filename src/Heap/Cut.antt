-- ===== src/Heap/Cut.antt =====
-- What `kmalloc` does to the block that it takes (src/MemoryManager/heap.c): the block is cut in two or
-- taken whole.
use mini_user_os.Prelude.{
  ℕ, ◌+◌, ◌-◌, ◌<◌, ◌≤◌, ◌≡◌, ◌≢◌, inl, inr, refl, sym, ap, ◌∙◌, true, false, leb, if◌then◌else◌,
  List, [], ◌∷◌, ◌++◌, arith, Bool-cases,
}
use mathlib.Core.Path.{subst}
use mini_user_os.Machine.{word, add64, sub64}
use mini_user_os.Heap.{Block, Blocks, block_size, free_block, put_block, split_block, take_block}
use mini_user_os.Heap.Tiles.{
  Cell, Tiles, link, behind, suits, Tiles-end, Tiles-agree, put_block-at, put_block-other,
  link_self,
}

abbrev pub cell : ℕ → ℕ → Cell
cell size free = record { size = size; free = free }

-- The cells that a cell becomes when `size` bytes of it are taken.
abbrev pub cut : ℕ → Cell → List Cell
cut size c =
    if leb (size + block_size + 8) c.size
    then cell size 0 ∷ cell (c.size - size - block_size) 1 ∷ []
    else cell c.size 0 ∷ []

pub suits-le : (size : ℕ) (c : Cell) → suits size c ≡ true → size ≤ c.size
suits-le size c h = ground arith

module _ (bs : Blocks) (p size n next : ℕ) (sized : (bs p).size ≡ n) (linked : (bs p).next ≡ next)
    (low : 8 ≤ p) (inside : behind p n < word) (room : size ≤ n) where
  split_block-large :
      leb (size + block_size + 8) n ≡ true
      → split_block p size bs
        ≡ put_block p
            (record (bs p) { size = size; next = behind p size })
            (put_block (behind p size) (free_block (n - size - block_size) next) bs)
  unfolding split_block
  split_block-large large = rw (sized, linked, wrapped, place, rest, large) refl
    where
      wrapped : add64 (add64 size block_size) 8 ≡ size + block_size + 8
      wrapped = omega arith

      place : add64 (add64 p block_size) size ≡ behind p size
      place = omega arith

      fits_in : size + block_size + 8 ≤ n
      fits_in = ground (arith, large)

      rest : sub64 (sub64 n size) block_size ≡ n - size - block_size
      rest = omega (arith, fits_in)

  split_block-small : leb (size + block_size + 8) n ≡ false → split_block p size bs ≡ bs
  unfolding split_block
  split_block-small small = rw (sized, wrapped, small) refl
    where
      wrapped : add64 (add64 size block_size) 8 ≡ size + block_size + 8
      wrapped = omega arith

take_block-at :
    (p size : ℕ) (bs : Blocks)
    → take_block p size bs p ≡ record (split_block p size bs p) { free = 0 }
unfolding take_block
take_block-at p size bs = put_block-at p _ _

pub take_block-other :
    (p size : ℕ) (bs : Blocks) (r : ℕ) → r ≢ p → take_block p size bs r ≡ split_block p size bs r
unfolding take_block
take_block-other p size bs r ne = put_block-other p _ _ r ne

module _ (bs : Blocks) (p end size : ℕ) (c : Cell) (cs : List Cell) (t : Tiles bs p end (c ∷ cs))
    (low : 8 ≤ p) (inside : end < word) (fit : suits size c ≡ true) where
  reaches : behind p c.size ≤ end
  reaches = Tiles-end bs (behind p c.size) end cs t.4

  room : size ≤ c.size
  room = suits-le size c fit

  -- A block that is cut is followed by the free block of what is left.
  take_block-cut :
      leb (size + block_size + 8) c.size ≡ true
      → Tiles (take_block p size bs) p end (cell size 0 ∷ cell (c.size - size - block_size) 1 ∷ cs)
  take_block-cut large = (
    ap (λ (b : Block). b.magic) here ∙ t.0,
    ap (λ (b : Block). b.size) here,
    ap (λ (b : Block). b.free) here,
    ap (λ (b : Block). b.next) here ∙ sym (link_self q end (omega (arith, enough, reaches))),
    (
      ap (λ (b : Block). b.magic) there,
      ap (λ (b : Block). b.size) there,
      ap (λ (b : Block). b.free) there,
      ap (λ (b : Block). b.next) there ∙ ap (λ r. link r end) (sym whole),
      subst (λ r. Tiles (take_block p size bs) r end cs) (sym whole)
          (Tiles-agree (take_block p size bs) bs (behind p c.size) end cs others t.4),
    ),
  )
    where
      q : ℕ
      q = behind p size

      bs' : Blocks
      bs' = split_block p size bs

      enough : size + block_size + 8 ≤ c.size
      enough = ground (arith, large)

      whole : behind q (c.size - size - block_size) ≡ behind p c.size
      whole = omega (arith, enough)

      e :
          bs'
          ≡ put_block p
              (record (bs p) { size = size; next = q })
              (put_block q
                (free_block (c.size - size - block_size) (link (behind p c.size) end))
                bs)
      e =
          split_block-large bs p size c.size (link (behind p c.size) end) t.1 t.3 low
            (omega (arith, reaches)) room large

      here : take_block p size bs p ≡ record (bs p) { size = size; next = q; free = 0 }
      here =
          take_block-at p size bs
          ∙ ap (λ (b : Block). record b { free = 0 })
              (ap (λ (f : Blocks). f p) e ∙ put_block-at p _ _)

      there :
          take_block p size bs q
          ≡ free_block (c.size - size - block_size) (link (behind p c.size) end)
      there =
          take_block-other p size bs q (omega arith)
          ∙ ap (λ (f : Blocks). f q) e
          ∙ put_block-other p _ _ q (omega arith)
          ∙ put_block-at q _ _

      others : (r : ℕ) → behind p c.size ≤ r → take_block p size bs r ≡ bs r
      others r h =
          take_block-other p size bs r (omega arith)
          ∙ ap (λ (f : Blocks). f r) e
          ∙ put_block-other p _ _ r (omega arith)
          ∙ put_block-other q _ _ r (omega (arith, enough))

  -- A block that is taken whole only changes its `free` byte.
  take_block-whole :
      leb (size + block_size + 8) c.size ≡ false
      → Tiles (take_block p size bs) p end (cell c.size 0 ∷ cs)
  take_block-whole small = (
    ap (λ (b : Block). b.magic) here ∙ t.0,
    ap (λ (b : Block). b.size) here ∙ t.1,
    ap (λ (b : Block). b.free) here,
    ap (λ (b : Block). b.next) here ∙ t.3,
    Tiles-agree (take_block p size bs) bs (behind p c.size) end cs others t.4,
  )
    where
      e : split_block p size bs ≡ bs
      e =
          split_block-small bs p size c.size (link (behind p c.size) end) t.1 t.3 low
            (omega (arith, reaches)) room small

      here : take_block p size bs p ≡ record (bs p) { free = 0 }
      here = take_block-at p size bs ∙ ap (λ (f : Blocks). record (f p) { free = 0 }) e

      others : (r : ℕ) → behind p c.size ≤ r → take_block p size bs r ≡ bs r
      others r h = take_block-other p size bs r (omega arith) ∙ ap (λ (f : Blocks). f r) e

  pub take_block-Tiles : Tiles (take_block p size bs) p end (cut size c ++ cs)
  take_block-Tiles = elim (Bool-cases (leb (size + block_size + 8) c.size)) [
    | inl large ↦ rw large (take_block-cut large)
    | inr small ↦ rw small (take_block-whole small)
  ]
