-- ===== src/Graphics/Tests.antt =====
-- Drawing on a small screen.
use mini_user_os.Prelude.{◌+◌, ◌*◌, ◌≡◌, ◌&&◌, if◌then◌else◌, none, refl, arith}
use mini_user_os.Graphics.{Graphics, draw_rect}
use mini_user_os.Graphics.Rect.{IsScreen, between, draw_rect-between}

abbrev screen : Graphics
screen = record {
  framebuffer = λ o. 7;
  back_buffer = none;
  framebuffer_size = 192;
  width = 6;
  height = 6;
  pixels_per_scan_line = 8;
  pixel_format = 0;
}

screen-IsScreen : IsScreen 6 6 8 screen
screen-IsScreen = record {
  is_width = refl;
  is_height = refl;
  is_line = refl;
  wide = omega arith;
  fits = omega arith;
}

-- A rectangle that reaches beyond the screen.
draw_rect-between_example :
    (draw_rect 3 4 10 10 9 screen).framebuffer (5 * 8 + 4)
    ≡ (if between 3 10 4 && between 4 10 5 then 9 else screen.framebuffer (5 * 8 + 4))
draw_rect-between_example =
    draw_rect-between 6 6 8 4 5 3 4 10 10 9 screen (omega arith) (omega arith) screen-IsScreen
      (omega arith) (omega arith)
