-- ===== src/Console/Cursor.antt =====
-- kernel/graphics/fbcon.c: the state of the console and its operations.
use sypas.Base.{
  ℕ, ◌+◌, ◌-◌, ◌*◌, ◌/◌, ◌%◌, ◌^◌, Bool, true, false, not, ltb, leb, ◌==◌, ◌&&◌, ◌||◌,
  if◌then◌else◌, Memory,
}
use sypas.Console.Draw.{to_native, fill_rect, draw_rows, copy_up}

pub record Console : Type 0 where
  pub fb : Memory
  pub fb_width : ℕ
  pub fb_height : ℕ
  pub fb_pitch32 : ℕ
  pub fb_format : ℕ
  pub cols : ℕ
  pub rows : ℕ
  pub cur_col : ℕ
  pub cur_row : ℕ
  pub fg : ℕ
  pub bg : ℕ
  pub ready : Bool

-- The fields of the boot information that describe the framebuffer; the pixels at `fb_base` are those
-- of `pixels`.
pub record Framebuffer : Type 0 where
  pub fb_base : ℕ
  pub fb_width : ℕ
  pub fb_height : ℕ
  pub fb_pitch : ℕ
  pub fb_format : ℕ
  pub pixels : Memory

unfoldable pub draw_glyph : (ℕ → ℕ → ℕ) → ℕ → ℕ → ℕ → Console → Console
draw_glyph font col row ch s =
    let x0 = (8 + col * 16) % 2 ^ 32 in
    let y0 = (8 + row * 16) % 2 ^ 32 in
    let nfg = to_native s.fb_format s.fg in
    let nbg = to_native s.fb_format s.bg in
    record s { fb = draw_rows 8 0 s.fb_pitch32 x0 y0 (font (ch % 128)) nfg nbg s.fb }

unfoldable pub scroll : Console → Console
scroll s =
    let last = (s.rows + 2 ^ 32 - 1) % 2 ^ 32 in
    let row_px = 16 * s.fb_pitch32 in
    let dst = 8 * s.fb_pitch32 in
    let moved = copy_up (row_px * last % 2 ^ 64) 0 dst (dst + row_px) s.fb in
    record s {
      fb =
          fill_rect s.fb_pitch32 0 ((8 + last * 16) % 2 ^ 32) s.fb_width 16
            (to_native s.fb_format s.bg) moved;
    }

-- The return value, and the state.
unfoldable pub fbcon_init : Framebuffer → Console → Bool × Console
fbcon_init bi s =
    let native = to_native bi.fb_format s.bg in
    if not (bi.fb_format == 1) && not (bi.fb_format == 2)
    then (false, s)
    else if bi.fb_base == 0 || ltb bi.fb_width 320 || ltb bi.fb_height 200
    then (false, s)
    else (
      true,
      record {
        fb = fill_rect (bi.fb_pitch / 4) 0 0 bi.fb_width bi.fb_height native bi.pixels;
        fb_width = bi.fb_width;
        fb_height = bi.fb_height;
        fb_pitch32 = bi.fb_pitch / 4;
        fb_format = bi.fb_format;
        cols = (bi.fb_width + 2 ^ 32 - 16) % 2 ^ 32 / 16;
        rows = (bi.fb_height + 2 ^ 32 - 16) % 2 ^ 32 / 16;
        cur_col = 0;
        cur_row = 0;
        fg = s.fg;
        bg = s.bg;
        ready = true;
      },
    )

unfoldable pub fbcon_set_colors : ℕ → ℕ → Console → Console
fbcon_set_colors new_fg new_bg s = record s { fg = new_fg; bg = new_bg }

-- `cur_col` and `cur_row` after a line feed, a return or another character; a `char` is signed, so
-- one from 0x80 on is below 0x20.
unfoldable pub advance : (ℕ → ℕ → ℕ) → ℕ → Console → Console
advance font c s =
    let drawn = draw_glyph font s.cur_col s.cur_row c s in
    let col = (s.cur_col + 1) % 2 ^ 32 in
    let next_row = (s.cur_row + 1) % 2 ^ 32 in
    if c == 10
    then record s { cur_col = 0; cur_row = next_row }
    else if c == 13
    then record s { cur_col = 0 }
    else if leb 0x20 c && ltb c 0x80
    then (if leb s.cols col
        then record drawn { cur_col = 0; cur_row = next_row }
        else record drawn { cur_col = col })
    else s

unfoldable pub fbcon_putc : (ℕ → ℕ → ℕ) → ℕ → Console → Console
fbcon_putc font c s =
    let t = advance font c s in
    if not s.ready
    then s
    else if leb t.rows t.cur_row
    then record (scroll t) { cur_row = (t.rows + 2 ^ 32 - 1) % 2 ^ 32 }
    else t
