-- ===== src/Graphics/Bmp.antt =====
-- Bitmap files, src/Initialize/baseGraphic.c. A file is given by its bytes.
use mini_user_os.Prelude.{
  ℕ, zero, suc, ◌+◌, ◌-◌, ◌*◌, ◌/◌, ◌%◌, ◌^◌, Bool, true, false, not, ◌||◌, ◌==◌, leb, ltb,
  if◌then◌else◌, Option, none, some,
}
use mini_user_os.SystemTables.{Bytes, field}
use mini_user_os.Graphics.{Graphics, word32, add32, sub32, put_pixel, make_color}

-- `BMP_IMAGE`; `pixel_data` and `palette` are indices of bytes of the file.
pub record BmpImage : Type 0 where
  pub width : ℕ
  pub height : ℕ
  pub bits_per_pixel : ℕ
  pub top_down : Bool
  pub pixel_data : ℕ
  pub palette : ℕ
  pub palette_size : ℕ
  pub row_size : ℕ

-- `sizeof(BMP_FILE_HEADER)` and `sizeof(BMP_INFO_HEADER)`
abbrev pub file_header_size : ℕ
file_header_size = 14

abbrev pub info_header_size : ℕ
info_header_size = 40

-- An `INT32` by its pattern of bits: its sign, and `(v < 0) ? -v : v`.
abbrev pub is_negative : ℕ → Bool
is_negative v = leb (2 ^ 31) v

abbrev pub magnitude : ℕ → ℕ
magnitude v = if is_negative v then word32 - v else v

-- `((width * bits + 31) / 32) * 4` in 32 bits
unfoldable pub row_size_of : ℕ → ℕ → ℕ
row_size_of width bits = (((width * bits + 31) % word32) / 32 * 4) % word32

-- The image that the headers describe. The fields of the info header begin at byte 14.
unfoldable pub image_of : Bytes → BmpImage
image_of d =
    let width = magnitude (field 4 18 d) in
    let bits = field 2 28 d in
    let colors = field 4 46 d in
    let indexed = leb bits 8 in
    record {
      width = width;
      height = magnitude (field 4 22 d);
      bits_per_pixel = bits;
      top_down = is_negative (field 4 22 d);
      pixel_data = field 4 10 d;
      palette = if indexed then file_header_size + field 4 14 d else 0;
      palette_size = if indexed then (if colors == 0 then 2 ^ bits else colors) else 0;
      row_size = row_size_of width bits;
    }

-- `none` is FALSE.
unfoldable pub parse_bmp : ℕ → Bytes → Option BmpImage
parse_bmp data_size d =
    if ltb data_size (file_header_size + info_header_size)
    then none
    else if not (field 2 0 d == 0x4D42)
    then none
    else if not (field 4 30 d == 0)
    then none
    else some (image_of d)

module _ (rgb_format : ℕ) where
  unfoldable pub get_bmp_pixel : Bytes → BmpImage → ℕ → ℕ → Graphics → ℕ
  get_bmp_pixel d image x y g =
      let row = if image.top_down then y else sub32 (sub32 image.height 1) y in
      let row_data = image.pixel_data + (row * image.row_size) % word32 in
      let at = row_data + (x * (image.bits_per_pixel / 8)) % word32 in
      let color = image.palette + d (row_data + x) * 4 in
      if (image.bits_per_pixel == 32) || (image.bits_per_pixel == 24)
      then make_color rgb_format (d (at + 2)) (d (at + 1)) (d at) g
      else if image.bits_per_pixel == 8
      then make_color rgb_format (d (color + 2)) (d (color + 1)) (d color) g
      else make_color rgb_format 0 0 0 g

  -- `for (dx; dx < Image.Width; dx++)`, with the rounds that are left first
  unfoldable pub bmp_row_from : ℕ → ℕ → ℕ → ℕ → ℕ → Bytes → BmpImage → Graphics → Graphics
  bmp_row_from zero dx dy x y d image g = g
  bmp_row_from (suc left) dx dy x y d image g =
      bmp_row_from left (dx + 1) dy x y d image
        (put_pixel (add32 x dx) (add32 y dy) (get_bmp_pixel d image dx dy g) g)

  unfoldable pub bmp_rows_from : ℕ → ℕ → ℕ → ℕ → Bytes → BmpImage → Graphics → Graphics
  bmp_rows_from zero dy x y d image g = g
  bmp_rows_from (suc left) dy x y d image g =
      bmp_rows_from left (dy + 1) x y d image (bmp_row_from image.width 0 dy x y d image g)

  -- Whether the file could be read, and the screen.
  unfoldable pub draw_bmp : ℕ → ℕ → ℕ → Bytes → Graphics → Bool × Graphics
  draw_bmp x y data_size d g = elim (parse_bmp data_size d) [
    | none ↦ (false, g)
    | some image ↦ (true, bmp_rows_from image.height 0 x y d image g)
  ]

unfoldable pub get_bmp_size : ℕ → Bytes → Option (ℕ × ℕ)
get_bmp_size data_size d = elim (parse_bmp data_size d) [
  | none ↦ none
  | some image ↦ some (image.width, image.height)
]
