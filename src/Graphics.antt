-- ===== src/Graphics.antt =====
-- Drawing into the frame buffer, src/Initialize/baseGraphic.c. A buffer holds 32-bit colours by their
-- index.
pub mod Rect
pub mod Bmp
mod Tests
use mini_user_os.Prelude.{
  ℕ, zero, suc, ◌+◌, ◌-◌, ◌*◌, ◌/◌, ◌%◌, ◌^◌, ◌||◌, ◌==◌, leb, if◌then◌else◌, Option, none, some,
  bit_or,
}

-- `UINT32` arithmetic
abbrev pub word32 : ℕ
word32 = 2 ^ 32

abbrev pub add32 : ℕ → ℕ → ℕ
add32 a b = (a + b) % word32

abbrev pub sub32 : ℕ → ℕ → ℕ
sub32 a b = (a + word32 - b) % word32

-- `GRAPHICS_INFO`; no back buffer is `none`.
pub record Graphics : Type 0 where
  pub framebuffer : ℕ → ℕ
  pub back_buffer : Option (ℕ → ℕ)
  pub framebuffer_size : ℕ
  pub width : ℕ
  pub height : ℕ
  pub pixels_per_scan_line : ℕ
  pub pixel_format : ℕ

abbrev pub store : ℕ → ℕ → (ℕ → ℕ) → ℕ → ℕ
store offset color buffer o = if o == offset then color else buffer o

abbrev pub store_back : ℕ → ℕ → Option (ℕ → ℕ) → Option (ℕ → ℕ)
store_back offset color none = none
store_back offset color (some buffer) = some (store offset color buffer)

abbrev pub offset_of : ℕ → ℕ → Graphics → ℕ
offset_of x y g = (y * g.pixels_per_scan_line + x) % word32

unfoldable pub put_pixel : ℕ → ℕ → ℕ → Graphics → Graphics
put_pixel x y color g = if leb g.width x || leb g.height y then g else record g {
  framebuffer = store (offset_of x y g) color g.framebuffer;
  back_buffer = store_back (offset_of x y g) color g.back_buffer;
}

-- `for (dx; dx < W; dx++)`, with the rounds that are left first
unfoldable pub row_from : ℕ → ℕ → ℕ → ℕ → ℕ → Graphics → Graphics
row_from zero dx x y color g = g
row_from (suc left) dx x y color g =
    row_from left (dx + 1) x y color (put_pixel (add32 x dx) y color g)

-- `for (dy; dy < H; dy++)`
unfoldable pub rows_from : ℕ → ℕ → ℕ → ℕ → ℕ → ℕ → Graphics → Graphics
rows_from zero dy x y w color g = g
rows_from (suc left) dy x y w color g =
    rows_from left (dy + 1) x y w color (row_from w 0 x (add32 y dy) color g)

unfoldable pub draw_rect : ℕ → ℕ → ℕ → ℕ → ℕ → Graphics → Graphics
draw_rect x y w h color g = rows_from h 0 x y w color g

unfoldable pub draw_rect_outline : ℕ → ℕ → ℕ → ℕ → ℕ → ℕ → Graphics → Graphics
draw_rect_outline x y w h color thickness g =
    let g1 = draw_rect x y w thickness color g in
    let g2 = draw_rect x (sub32 (add32 y h) thickness) w thickness color g1 in
    let g3 = draw_rect x y thickness h color g2 in
    draw_rect (sub32 (add32 x w) thickness) y thickness h color g3

-- `rgb_format` is `PixelRedGreenBlueReserved8BitPerColor` of the firmware's headers.
unfoldable pub make_color : ℕ → ℕ → ℕ → ℕ → Graphics → ℕ
make_color rgb_format r green b g =
    if g.pixel_format == rgb_format
    then bit_or (bit_or r (green * 2 ^ 8)) (b * 2 ^ 16)
    else bit_or (bit_or b (green * 2 ^ 8)) (r * 2 ^ 16)

-- `for (i; i < n / 8; i++)`: 64 bits, two pixels, at a time, with the rounds that are left first
unfoldable pub copy_from : ℕ → ℕ → ℕ → (ℕ → ℕ) → (ℕ → ℕ) → ℕ → ℕ
copy_from zero i first src dst = dst
copy_from (suc left) i first src dst =
    let low = first + 2 * i in
    copy_from left (i + 1) first src (store (low + 1) (src (low + 1)) (store low (src low) dst))

-- `fast_memcpy` between two buffers at the same index; what is left of `bytes` below 8 is not copied.
unfoldable pub fast_memcpy : ℕ → ℕ → (ℕ → ℕ) → (ℕ → ℕ) → ℕ → ℕ
fast_memcpy first bytes src dst = copy_from (bytes / 8) 0 first src dst

-- `for (row; row < h; row++)`
unfoldable pub update_from : ℕ → ℕ → ℕ → ℕ → ℕ → (ℕ → ℕ) → Graphics → Graphics
update_from zero row x y w back g = g
update_from (suc left) row x y w back g = update_from left (row + 1) x y w back (record g {
  framebuffer = fast_memcpy (offset_of x (add32 y row) g) ((w * 4) % word32) back g.framebuffer;
})

unfoldable pub update_rect : ℕ → ℕ → ℕ → ℕ → Graphics → Graphics
update_rect x y w h g = elim g.back_buffer [ none ↦ g | some back ↦ update_from h 0 x y w back g ]

unfoldable pub swap_buffers : Graphics → Graphics
swap_buffers g = elim g.back_buffer [
  | none ↦ g
  | some back ↦ record g { framebuffer = fast_memcpy 0 g.framebuffer_size back g.framebuffer }
]

-- `for (x; x < Width; x++)` and `for (y; y < Height; y++)` of `FillScreen`
unfoldable pub fill_row : ℕ → ℕ → ℕ → ℕ → (ℕ → ℕ) → ℕ → ℕ
fill_row zero x start color buffer = buffer
fill_row (suc left) x start color buffer =
    fill_row left (x + 1) start color (store (start + x) color buffer)

unfoldable pub fill_rows : ℕ → ℕ → ℕ → ℕ → ℕ → (ℕ → ℕ) → ℕ → ℕ
fill_rows zero y line width color buffer = buffer
fill_rows (suc left) y line width color buffer =
    fill_rows left (y + 1) line width color (fill_row width 0 (y * line) color buffer)

unfoldable pub fill_screen : ℕ → Graphics → Graphics
fill_screen color g = record g {
  framebuffer = fill_rows g.height 0 g.pixels_per_scan_line g.width color g.framebuffer;
}
