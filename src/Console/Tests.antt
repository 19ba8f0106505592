-- ===== src/Console/Tests.antt =====
-- The console at concrete inputs: a screen of 800 by 600 pixels.
use mini_user_os.Prelude.{◌≡◌, true, ◌∷◌, [], arith}
use mini_user_os.Console.{Screen, Console, console_print, dec_from, hex_from}
use mini_user_os.Console.Cursor.{OnScreen, HasRoom, console_print-OnScreen}
use mini_user_os.Console.Digits.{read_dec, read_hex, printed-read}

abbrev svga : Screen
svga = record { width = 800; height = 600; char_width = 0; char_height = 0 }

-- The cursor is in the last column of the last row.
abbrev corner : Console
corner = record {
  con_x = 99;
  con_y = 36;
  con_fg = 0xFFFFFFFF;
  con_bg = 0;
  con_clear_bg = 0;
  avalible_output = true;
  drawn = [];
}

svga-HasRoom : HasRoom svga
svga-HasRoom = (omega arith, omega arith, omega arith, omega arith)

corner-OnScreen : OnScreen svga corner
corner-OnScreen = (omega arith, omega arith)

console_print-OnScreen_example :
    OnScreen svga (console_print svga (65 ∷ 10 ∷ 9 ∷ 8 ∷ 200 ∷ []) corner)
console_print-OnScreen_example =
    console_print-OnScreen svga svga-HasRoom (65 ∷ 10 ∷ 9 ∷ 8 ∷ 200 ∷ []) corner corner-OnScreen

printed-read_example :
    (read_dec 0 (dec_from 20 1234567890 []) ≡ 1234567890)
    × (read_hex 0 (hex_from 16 1234567890 []) ≡ 1234567890)
printed-read_example = printed-read 1234567890 (omega arith)
