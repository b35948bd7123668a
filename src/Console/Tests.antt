-- ===== src/Console/Tests.antt =====
-- kernel/graphics/fbcon.c: runs, and the theorems at a screen of 320 by 200 pixels.
use sypas.Base.{ℕ, ◌≡◌, refl, arith, true, false, byte_test}
use sypas.Console.Draw.{to_native, fill_line, fill_rect, draw_dots, draw_rows, copy_up}
use sypas.Console.Cursor.{
  Console, Framebuffer, draw_glyph, scroll, fbcon_init, fbcon_set_colors, advance, fbcon_putc,
}
use sypas.Console.Stays.{IsValid, fbcon_putc-IsValid}
use sypas.Console.Bounds.{fbcon_putc-beyond}

program : Unit {0}
unfolding byte_test to_native fill_line fill_rect draw_dots draw_rows copy_up draw_glyph scroll
    fbcon_init fbcon_set_colors advance fbcon_putc
program = tt

abbrev screen : Framebuffer
screen = record {
  fb_base = 0x80000000;
  fb_width = 320;
  fb_height = 200;
  fb_pitch = 1280;
  fb_format = 1;
  pixels = λ i. 0;
}

-- The state before fbcon_init.
abbrev blank : Console
blank = record {
  fb = λ i. 0;
  fb_width = 0;
  fb_height = 0;
  fb_pitch32 = 0;
  fb_format = 0;
  cols = 0;
  rows = 0;
  cur_col = 0;
  cur_row = 0;
  fg = 0x00e8e3d5;
  bg = 0x000b0e14;
  ready = false;
}

-- Blocks for every character.
abbrev font : ℕ → ℕ → ℕ
font ch row = 255

-- The screen with the cursor in the last cell.
abbrev full : Console
full = record {
  fb = λ i. 0;
  fb_width = 320;
  fb_height = 200;
  fb_pitch32 = 320;
  fb_format = 1;
  cols = 19;
  rows = 11;
  cur_col = 18;
  cur_row = 10;
  fg = 0x00e8e3d5;
  bg = 0x000b0e14;
  ready = true;
}

fbcon_init_cells : ((fbcon_init screen blank).1.cols ≡ 19) × ((fbcon_init screen blank).1.rows ≡ 11)
unfolding program
fbcon_init_cells = (refl, refl)

-- The last cell scrolls the screen: the cursor stays in the last line.
fbcon_putc_last :
    ((fbcon_putc font 0x41 full).cur_col ≡ 0) × ((fbcon_putc font 0x41 full).cur_row ≡ 10)
unfolding program
fbcon_putc_last = (refl, refl)

fbcon_putc-IsValid_example : IsValid (fbcon_putc font 0x41 full)
fbcon_putc-IsValid_example = fbcon_putc-IsValid font 0x41 full (record {
  wide = omega arith;
  high = omega arith;
  width_fits = omega arith;
  height_fits = omega arith;
  column = omega arith;
  line = omega arith;
})

fbcon_putc-beyond_example : (fbcon_putc font 0x41 full).fb 64000 ≡ full.fb 64000
fbcon_putc-beyond_example =
    fbcon_putc-beyond font 0x41 full 64000
      (record {
        wide = omega arith;
        high = omega arith;
        width_fits = omega arith;
        height_fits = omega arith;
        column = omega arith;
        line = omega arith;
      })
      (omega arith) (omega arith)
