-- ===== src/Heap/Tiles.antt =====
-- The heap's blocks (src/MemoryManager/heap.c) as a list of cells that tile its pages.
use mini_user_os.Prelude.{
  ℕ, zero, suc, ◌+◌, ◌<◌, ◌≤◌, ◌≡◌, ◌≢◌, refl, ap, ◌∙◌, Bool, not, ◌&&◌, ◌==◌, leb, if◌then◌else◌,
  List, [], ◌∷◌, length, arith,
}
use mini_user_os.Machine.{null, word}
use mini_user_os.Heap.{
  Block, Blocks, Heap, Search, fits, exhausted, block_magic, block_size, heap_start, put_block,
  search_from,
}

-- A block's size and its `free` byte.
pub record Cell : Type 0 where
  pub size : ℕ
  pub free : ℕ

-- The `next` pointer to the block at `q`, NULL at the end of the heap.
abbrev pub link : ℕ → ℕ → ℕ
link q end = if q == end then null else q

abbrev pub behind : ℕ → ℕ → ℕ
behind p size = p + block_size + size

-- The blocks from `p` to `end` are the cells, one behind the other.
abbrev pub Tiles : Blocks → ℕ → ℕ → List Cell → Type 0
Tiles bs p end [] = p ≡ end
Tiles bs p end (c ∷ cs) =
    ((bs p).magic ≡ block_magic)
    × ((bs p).size ≡ c.size)
    × ((bs p).free ≡ c.free)
    × ((bs p).next ≡ link (behind p c.size) end)
    × Tiles bs (behind p c.size) end cs

pub record IsHeap (h : Heap) (cs : List Cell) : Type 0 where
  pub first : h.heap_first ≡ link heap_start (heap_start + h.heap_current_size)
  pub tiles : Tiles h.blocks heap_start (heap_start + h.heap_current_size) cs
  pub small : heap_start + h.heap_current_size < word

pub Tiles-end : (bs : Blocks) (p end : ℕ) (cs : List Cell) → Tiles bs p end cs → p ≤ end
Tiles-end bs p end [] t = omega (arith, t)
Tiles-end bs p end (c ∷ cs) t = omega (arith, Tiles-end bs (behind p c.size) end cs t.4)

-- Headers before `p` do not matter.
pub Tiles-agree :
    (old bs : Blocks) (p end : ℕ) (cs : List Cell)
    → ((q : ℕ) → p ≤ q → old q ≡ bs q)
    → Tiles bs p end cs
    → Tiles old p end cs
Tiles-agree old bs p end [] same t = t
Tiles-agree old bs p end (c ∷ cs) same t =
    let e = same p (omega arith) in
    (
      ap (λ (b : Block). b.magic) e ∙ t.0,
      ap (λ (b : Block). b.size) e ∙ t.1,
      ap (λ (b : Block). b.free) e ∙ t.2,
      ap (λ (b : Block). b.next) e ∙ t.3,
      Tiles-agree old bs (behind p c.size) end cs (λ q h. same q (omega arith)) t.4,
    )

pub put_block-at : (p : ℕ) (b : Block) (bs : Blocks) → put_block p b bs p ≡ b
unfolding put_block
put_block-at p b bs = ground arith

pub put_block-other : (p : ℕ) (b : Block) (bs : Blocks) (q : ℕ) → q ≢ p → put_block p b bs q ≡ bs q
unfolding put_block
put_block-other p b bs q ne = ground arith

-- The specification of the search: the first free cell that is large enough.
abbrev pub suits : ℕ → Cell → Bool
suits size c = not (c.free == 0) && leb size c.size

abbrev pub first_fit : ℕ → ℕ → List Cell → Search
first_fit size p [] = exhausted
first_fit size p (c ∷ cs) =
    let rest = first_fit size (behind p c.size) cs in if suits size c then fits p else rest

pub link-null : (p end : ℕ) → p ≡ end → link p end ≡ null
link-null p end e = ground arith

pub link_self : (p end : ℕ) → p < end → link p end ≡ p
link_self p end h = ground arith

search_cell :
    (fuel p size : ℕ) (bs : Blocks)
    → p ≢ 0
    → (bs p).magic ≡ block_magic
    → search_from (suc fuel) p size bs ≡ (
        if not ((bs p).free == 0) && leb size (bs p).size
        then fits p
        else search_from fuel (bs p).next size bs)
unfolding search_from
search_cell fuel p size bs ne ok = ground (arith, ok)

-- The search finds the first cell that fits, with fuel for one step more than there are cells.
pub search_from-first_fit :
    (bs : Blocks) (size end : ℕ) (cs : List Cell) (fuel p : ℕ)
    → Tiles bs p end cs
    → p ≢ 0
    → length cs < fuel
    → search_from fuel (link p end) size bs ≡ first_fit size p cs
unfolding search_from
search_from-first_fit bs size end cs zero p t ne h = absurd (omega arith)
search_from-first_fit bs size end [] (suc fuel) p t ne h = rw (link-null p end t) refl
search_from-first_fit bs size end (c ∷ cs) (suc fuel) p t ne h =
    ap (λ q. search_from (suc fuel) q size bs)
      (link_self p end (omega (arith, Tiles-end bs (behind p c.size) end cs t.4)))
    ∙ search_cell fuel p size bs ne t.0
    ∙ rw (t.1, t.2, t.3)
        (ap (λ r. if suits size c then fits p else r)
          (search_from-first_fit bs size end cs fuel (behind p c.size) t.4 (omega arith)
            (omega arith)))
