-- ===== src/Console.antt =====
-- The text console, src/Initialize/baseConsole.c: the cursor, the control characters and the printing
-- of numbers. What is drawn is a list of calls of the graphics functions, the latest first.
use mini_user_os.Prelude.{
  ℕ, zero, suc, ◌+◌, ◌*◌, ◌-◌, ◌/◌, ◌%◌, ◌^◌, Bool, true, false, not, ◌||◌, ◌==◌, leb, ltb,
  if◌then◌else◌, List, [], ◌∷◌, ◌++◌, bit_and,
}
use mini_user_os.Machine.{word}
pub mod Cursor
pub mod Digits
mod Tests

-- The calls of src/Initialize/baseGraphic.c that the console makes: `DrawChar` with its position, code
-- and colours, `FillScreen`, and the copying of `scroll_up`.
pub data Draw : Type 0 where
  draw_char : ℕ → ℕ → ℕ → ℕ → ℕ → Draw
  fill_screen : ℕ → Draw
  scroll_up : ℕ → Draw

-- The parts of `Graphics` and `CurrentFont` that the console reads.
pub record Screen : Type 0 where
  pub width : ℕ
  pub height : ℕ
  pub char_width : ℕ
  pub char_height : ℕ

pub record Console : Type 0 where
  pub con_x : ℕ
  pub con_y : ℕ
  pub con_fg : ℕ
  pub con_bg : ℕ
  pub con_clear_bg : ℕ
  pub avalible_output : Bool
  pub drawn : List Draw

abbrev pub con_tab : ℕ
con_tab = 4

abbrev pub get_char_w : Screen → ℕ
get_char_w g = if g.char_width == 0 then 8 else g.char_width

abbrev pub get_char_h : Screen → ℕ
get_char_h g = if g.char_height == 0 then 16 else g.char_height

abbrev pub get_cols : Screen → ℕ
get_cols g = g.width / get_char_w g

abbrev pub get_rows : Screen → ℕ
get_rows g = g.height / get_char_h g

-- `uint32_t` arithmetic
abbrev pub word32 : ℕ
word32 = 2 ^ 32

abbrev pub add32 : ℕ → ℕ → ℕ
add32 a b = (a + b) % word32

abbrev pub draw : Draw → Console → Console
draw d k = record k { drawn = d ∷ k.drawn }

unfoldable pub console_init : ℕ → ℕ → Console → Console
console_init fg bg k = record k {
  con_x = 0;
  con_y = 0;
  con_fg = fg;
  con_bg = bg;
  con_clear_bg = bg;
}

unfoldable pub console_set_color : ℕ → ℕ → Console → Console
console_set_color fg bg k = if k.avalible_output then record k { con_fg = fg; con_bg = bg } else k

unfoldable pub console_clear : Console → Console
console_clear k =
    if k.avalible_output
    then record k { con_x = 0; con_y = 0; drawn = fill_screen k.con_bg ∷ k.drawn }
    else k

module _ (g : Screen) where
  unfoldable pub newline : Console → Console
  newline k =
      let y = add32 k.con_y 1 in
      if not k.avalible_output
      then k
      else if leb (get_rows g) y
      then record k {
        con_x = 0;
        con_y = (get_rows g + word32 - 1) % word32;
        drawn = scroll_up k.con_bg ∷ k.drawn;
      }
      else record k { con_x = 0; con_y = y }

  -- `if (con_x >= cols) newline();`
  unfoldable pub wrap : Console → Console
  wrap k = if leb (get_cols g) k.con_x then newline k else k

  -- `DrawChar` at the cursor
  unfoldable pub draw_at : ℕ → Console → Console
  draw_at c k =
      draw
        (draw_char ((k.con_x * get_char_w g) % word32) ((k.con_y * get_char_h g) % word32) c
          k.con_fg k.con_bg)
        k

  -- The cases of `console_putchar`: a tabulator, …
  unfoldable pub put_tab : Console → Console
  put_tab k = wrap (record k { con_x = add32 k.con_x con_tab / 4 * 4 })

  -- … a backspace …
  unfoldable pub put_back : Console → Console
  put_back k = if k.con_x == 0 then k else draw_at 32 (record k { con_x = k.con_x - 1 })

  -- … and all that are left. A `char` is signed: codes from 128 on are below 32.
  unfoldable pub put_default : ℕ → Console → Console
  put_default c k =
      if ltb c 32 || leb 128 c then k else wrap (record (draw_at c k) { con_x = add32 k.con_x 1 })

  unfoldable pub put_any : ℕ → Console → Console
  put_any c k =
      if c == 10
      then newline k
      else if c == 13
      then record k { con_x = 0 }
      else if c == 9
      then put_tab k
      else if c == 8
      then put_back k
      else put_default c k

  unfoldable pub console_putchar : ℕ → Console → Console
  console_putchar c k = if k.avalible_output then put_any c k else k

  unfoldable pub put_all : List ℕ → Console → Console
  put_all [] k = k
  put_all (c ∷ cs) k = put_all cs (console_putchar c k)

  unfoldable pub console_print : List ℕ → Console → Console
  console_print str k = if k.avalible_output then put_all str k else k

-- `"0123456789ABCDEF"[d]`
abbrev pub hex_char : ℕ → ℕ
hex_char d = if ltb d 10 then 48 + d else 55 + d

-- `for (i; i < 16; i++)`, with the rounds that are left first; the buffer is filled from its end.
unfoldable pub hex_from : ℕ → ℕ → List ℕ → List ℕ
hex_from zero val buf = buf
hex_from (suc left) val buf = hex_from left (val / 2 ^ 4) (hex_char (bit_and val 0xF) ∷ buf)

-- `"0x"` and the sixteen digits
unfoldable pub hex_string : ℕ → List ℕ
hex_string val = 48 ∷ 120 ∷ hex_from 16 val []

-- `while (val > 0) { buf[--pos] = '0' + (val % 10); val /= 10; }`; the fuel is the room in the buffer.
unfoldable pub dec_from : ℕ → ℕ → List ℕ → List ℕ
dec_from zero val buf = buf
dec_from (suc room) val buf =
    let rest = dec_from room (val / 10) ((48 + val % 10) ∷ buf) in if val == 0 then buf else rest

module _ (g : Screen) where
  unfoldable pub console_print_hex : ℕ → Console → Console
  console_print_hex val k = console_print g (hex_string val) k

  unfoldable pub console_print_dec : ℕ → Console → Console
  console_print_dec val k =
      if val == 0 then console_putchar g 48 k else console_print g (dec_from 20 val []) k

  -- A signed number is given by its 64-bit pattern; `-val` wraps.
  unfoldable pub console_print_int : ℕ → Console → Console
  console_print_int val k =
      if leb (2 ^ 63) val
      then console_print_dec ((word - val) % word) (console_putchar g 45 k)
      else console_print_dec val k
