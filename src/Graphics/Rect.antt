-- ===== src/Graphics/Rect.antt =====
-- The pixels that `DrawRect` of src/Initialize/baseGraphic.c changes.
use mini_user_os.Prelude.{
  ℕ, zero, suc, ◌+◌, ◌*◌, ◌/◌, ◌%◌, ◌<◌, ◌≤◌, ◌≡◌, ◌⊎◌, inl, inr, refl, sym, ap, ◌∙◌, Bool, true,
  false, ◌&&◌, ◌==◌, leb, ltb, if◌then◌else◌, arith, dec_lt, ℕ_discrete,
}
use native.Mathlib.Nat.{mul-le-mul_right, mul-add-div_right, div-eq_of_lt}
use mathlib.Core.Path.{subst}
use mini_user_os.Graphics.{
  Graphics, word32, add32, offset_of, put_pixel, row_from, rows_from, draw_rect, store, store_back,
}

line-below : (x y w h p : ℕ) → x < w → w ≤ p → y < h → y * p + x < h * p
line-below x y w h p a b c = omega (arith, mul-le-mul_right p c)

line-row : (x y p : ℕ) → x < p → (y * p + x) / p ≡ y
line-row x y p a = omega (arith, mul-add-div_right positive y x, div-eq_of_lt a)
  where
    positive : 0 < p
    positive = omega arith

line-apart : (x y u v p : ℕ) → x < p → u < p → y * p + x ≡ v * p + u → (y ≡ v) × (x ≡ u)
line-apart x y u v p a b e = (rows, omega (arith, e, ap (λ t. t * p) rows))
  where
    rows : y ≡ v
    rows = sym (line-row x y p a) ∙ ap (λ t. t / p) e ∙ line-row u v p b

-- The number is one of `count` from `from` on.
abbrev pub between : ℕ → ℕ → ℕ → Bool
between from count v = leb from v && ltb v (from + count)

-- A screen of the given size whose lines have `line` pixels, and whose indices fit into 32 bits.
pub record IsScreen (width height line : ℕ) (g : Graphics) : Type 0 where
  pub is_width : g.width ≡ width
  pub is_height : g.height ≡ height
  pub is_line : g.pixels_per_scan_line ≡ line
  pub wide : width ≤ line
  pub fits : height * line ≤ word32

-- A pixel that is put is on the screen, and stored; or nothing changes.
put_pixel-cases :
    (x y color : ℕ) (g : Graphics)
    → ((x < g.width)
        × (y < g.height)
        × (put_pixel x y color g ≡ record g {
          framebuffer = store (offset_of x y g) color g.framebuffer;
          back_buffer = store_back (offset_of x y g) color g.back_buffer;
        }))
      ⊎ ((¬ ((x < g.width) × (y < g.height))) × (put_pixel x y color g ≡ g))
unfolding put_pixel
put_pixel-cases x y color g = elim (dec_lt x g.width) [
  | yes a ↦ elim (dec_lt y g.height) [
    | yes b ↦
        let left : leb g.width x ≡ false = ground arith in
        let right : leb g.height y ≡ false = ground arith in inl (a, b, rw (left, right) refl)
    | no b ↦
        let left : leb g.width x ≡ false = ground arith in
        let right : leb g.height y ≡ true = ground arith in inr (λ i. b i.1, rw (left, right) refl)
  ]
  | no a ↦ let left : leb g.width x ≡ true = ground arith in inr (λ i. a i.0, rw left refl)
]

module _ (width height line px py color : ℕ) (inside : px < width) (below : py < height) where
  -- The colour at the point.
  abbrev shown : Graphics → ℕ
  shown g = g.framebuffer (py * line + px)

  put_pixel-IsScreen :
      (x y : ℕ) (g : Graphics)
      → IsScreen width height line g
      → IsScreen width height line (put_pixel x y color g)
  put_pixel-IsScreen x y g i = elim (put_pixel-cases x y color g) [
    | inl (a, b, e) ↦ subst (IsScreen width height line) (sym e) (record {
      is_width = i.is_width;
      is_height = i.is_height;
      is_line = i.is_line;
      wide = i.wide;
      fits = i.fits;
    })
    | inr (n, e) ↦ subst (IsScreen width height line) (sym e) i
  ]

  -- The index of a pixel of the screen does not wrap.
  offset_of-line :
      (x y : ℕ) (g : Graphics)
      → IsScreen width height line g
      → x < width
      → y < height
      → offset_of x y g ≡ y * line + x
  offset_of-line x y g i a b =
      let small = line-below x y width height line a i.wide b in
      ap (λ l. (y * l + x) % word32) i.is_line ∙ omega (arith, small, i.fits)

  store-shown :
      (x y offset : ℕ) (buffer : ℕ → ℕ)
      → x < line
      → px < line
      → offset ≡ y * line + x
      → store offset color buffer (py * line + px)
        ≡ (if (px == x) && (py == y) then color else buffer (py * line + px))
  store-shown x y offset buffer a b e = elim (ℕ_discrete (py * line + px) offset) [
    | yes same ↦
        let point = line-apart px py x y line b a (same ∙ e) in
        let here : (py * line + px == offset) ≡ true = ground arith in
        let there : ((px == x) && (py == y)) ≡ true = ground (arith, point) in rw (here, there) refl
    | no other ↦
        let here : (py * line + px == offset) ≡ false = ground arith in
        let there : ((px == x) && (py == y)) ≡ false = not_both (λ h k. other (rows h k ∙ sym e)) in
        rw (here, there) refl
  ]
    where
      rows : px ≡ x → py ≡ y → py * line + px ≡ y * line + x
      rows h k = rw (h, k) refl

      not_both : (px ≡ x → py ≡ y → ⊥) → ((px == x) && (py == y)) ≡ false
      not_both f = ground arith

  put_pixel-shown :
      (x y : ℕ) (g : Graphics)
      → IsScreen width height line g
      → shown (put_pixel x y color g) ≡ (if (px == x) && (py == y) then color else shown g)
  put_pixel-shown x y g i = elim (put_pixel-cases x y color g) [
    | inl (a, b, e) ↦
        ap shown e
        ∙ store-shown x y (offset_of x y g) g.framebuffer (omega (arith, i.is_width, i.wide))
            (omega (arith, i.wide))
            (offset_of-line x y g i (omega (arith, i.is_width)) (omega (arith, i.is_height)))
    | inr (n, e) ↦
        let off : ((px == x) && (py == y)) ≡ false = ground (arith, n, i.is_width, i.is_height) in
        rw off (ap shown e)
  ]

  row_from-IsScreen :
      (left dx x y : ℕ) (g : Graphics)
      → IsScreen width height line g
      → IsScreen width height line (row_from left dx x y color g)
  unfolding row_from
  row_from-IsScreen zero dx x y g i = i
  row_from-IsScreen (suc left) dx x y g i =
      row_from-IsScreen left (dx + 1) x y _ (put_pixel-IsScreen (add32 x dx) y g i)

  row_from-shown :
      (left dx x y : ℕ) (g : Graphics)
      → IsScreen width height line g
      → x + dx + left ≤ word32
      → shown (row_from left dx x y color g)
        ≡ (if between (x + dx) left px && (py == y) then color else shown g)
  unfolding row_from
  row_from-shown zero dx x y g i h =
      let none : (between (x + dx) 0 px && (py == y)) ≡ false = ground arith in rw none refl
  row_from-shown (suc left) dx x y g i h =
      let rest =
        row_from-shown left (dx + 1) x y (put_pixel (add32 x dx) y color g)
          (put_pixel-IsScreen (add32 x dx) y g i) (omega arith) in
      let first = put_pixel-shown (add32 x dx) y g i in
      let column : add32 x dx ≡ x + dx = omega arith in
      rest
      ∙ ap (λ c. if between (x + (dx + 1)) left px && (py == y) then color else c) first
      ∙ widen (x + dx) left y (add32 x dx) (x + (dx + 1)) (shown g) column (omega arith)
    where
      widen :
          (from left y at next old : ℕ)
          → at ≡ from
          → next ≡ from + 1
          → (if between next left px && (py == y)
              then color
              else if (px == at) && (py == y)
              then color
              else old)
            ≡ (if between from (suc left) px && (py == y) then color else old)
      widen from left y at next old e f = ground arith

  rows_from-shown :
      (left dy x y w : ℕ) (g : Graphics)
      → IsScreen width height line g
      → x + w ≤ word32
      → y + dy + left ≤ word32
      → shown (rows_from left dy x y w color g)
        ≡ (if between x w px && between (y + dy) left py then color else shown g)
  unfolding rows_from
  rows_from-shown zero dy x y w g i hw h =
      let none : (between x w px && between (y + dy) 0 py) ≡ false = ground arith in rw none refl
  rows_from-shown (suc left) dy x y w g i hw h =
      let rest =
        rows_from-shown left (dy + 1) x y w (row_from w 0 x (add32 y dy) color g)
          (row_from-IsScreen w 0 x (add32 y dy) g i) hw (omega arith) in
      let first = row_from-shown w 0 x (add32 y dy) g i (omega arith) in
      let line_at : add32 y dy ≡ y + dy = omega arith in
      rest
      ∙ ap (λ c. if between x w px && between (y + (dy + 1)) left py then color else c) first
      ∙ widen x (x + 0) w (y + dy) left (add32 y dy) (y + (dy + 1)) (shown g) (omega arith) line_at
          (omega arith)
    where
      widen :
          (x x' w from left at next old : ℕ)
          → x' ≡ x
          → at ≡ from
          → next ≡ from + 1
          → (if between x w px && between next left py
              then color
              else if between x' w px && (py == at)
              then color
              else old)
            ≡ (if between x w px && between from (suc left) py then color else old)
      widen x x' w from left at next old e f k = ground arith

-- On a screen whose lines are as long as it is wide and whose indices fit into 32 bits, and for a rectangle
-- whose right and lower edges are at most 2 ^ 32, `DrawRect` gives the colour to the points of the screen that
-- lie in the rectangle, and leaves every other point as it was; the rectangle may reach beyond the screen.
pub draw_rect-between :
    (width height line px py x y w h color : ℕ) (g : Graphics)
    → px < width
    → py < height
    → IsScreen width height line g
    → x + w ≤ word32
    → y + h ≤ word32
    → (draw_rect x y w h color g).framebuffer (py * line + px)
      ≡ (if between x w px && between y h py then color else g.framebuffer (py * line + px))
unfolding draw_rect
draw_rect-between width height line px py x y w h color g a b i hw hh =
    rows_from-shown width height line px py color a b h 0 x y w g i hw (omega arith)
    ∙ ap (λ q. if between x w px && between q h py then color else g.framebuffer (py * line + px))
        (omega arith)
