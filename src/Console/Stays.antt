-- ===== src/Console/Stays.antt =====
-- kernel/graphics/fbcon.c: the cursor stays on the screen, and no pixel outside the framebuffer is
-- written.
use sypas.Base.{
  ℕ, ◌+◌, ◌-◌, ◌*◌, ◌/◌, ◌%◌, ◌^◌, ◌≤◌, ◌<◌, ◌≡◌, arith, sym, subst, ◌⊎◌, inl, inr, true,
}
use sypas.Console.Cursor.{Console, Framebuffer, draw_glyph, scroll, fbcon_init, advance, fbcon_putc}

-- The cells lie in the framebuffer with a margin of 8 pixels on each side, and the cursor in the cells.
pub record IsValid (s : Console) : Type 0 where
  pub wide : s.cols * 16 + 16 ≤ s.fb_width
  pub high : s.rows * 16 + 16 ≤ s.fb_height
  pub width_fits : s.fb_width < 2 ^ 32
  pub height_fits : s.fb_height < 2 ^ 32
  pub column : s.cur_col < s.cols
  pub line : s.cur_row < s.rows

fbcon_init-true :
    (bi : Framebuffer) (s : Console) {t : Console}
    → fbcon_init bi s ≡ (true, t)
    → (320 ≤ bi.fb_width)
      × (200 ≤ bi.fb_height)
      × (t.fb_width ≡ bi.fb_width)
      × (t.fb_height ≡ bi.fb_height)
      × (t.cols ≡ (bi.fb_width + 2 ^ 32 - 16) % 2 ^ 32 / 16)
      × (t.rows ≡ (bi.fb_height + 2 ^ 32 - 16) % 2 ^ 32 / 16)
      × (t.cur_col ≡ 0)
      × (t.cur_row ≡ 0)
unfolding fbcon_init
fbcon_init-true bi s e = ground arith

-- A framebuffer that fbcon_init accepts leaves a valid console.
pub fbcon_init-IsValid :
    (bi : Framebuffer) (s : Console) {t : Console}
    → bi.fb_width < 2 ^ 32
    → bi.fb_height < 2 ^ 32
    → fbcon_init bi s ≡ (true, t)
    → IsValid t
fbcon_init-IsValid bi s {t} w h e =
    let (i0, i1, i2, i3, i4, i5, i6, i7) = fbcon_init-true bi s e in
    record {
      wide = omega (arith, i0, i2, i4);
      high = omega (arith, i1, i3, i5);
      width_fits = omega (arith, i2);
      height_fits = omega (arith, i3);
      column = omega (arith, i0, i4, i6);
      line = omega (arith, i1, i5, i7);
    }

pub advance-cases :
    (font : ℕ → ℕ → ℕ) (c : ℕ) (s : Console)
    → IsValid s
    → ((advance font c s).cols ≡ s.cols)
      × ((advance font c s).rows ≡ s.rows)
      × ((advance font c s).fb_width ≡ s.fb_width)
      × ((advance font c s).fb_height ≡ s.fb_height)
      × ((advance font c s).cur_col < s.cols)
      × ((advance font c s).cur_row ≤ s.rows)
unfolding advance draw_glyph
advance-cases font c s v = ground arith

abbrev pub scrolled : Console → Console
scrolled t = record (scroll t) { cur_row = (t.rows + 2 ^ 32 - 1) % 2 ^ 32 }

pub fbcon_putc-cases :
    (font : ℕ → ℕ → ℕ) (c : ℕ) (s : Console)
    → (fbcon_putc font c s ≡ s)
      ⊎ (fbcon_putc font c s ≡ scrolled (advance font c s))
      ⊎ (((advance font c s).cur_row < (advance font c s).rows)
          × (fbcon_putc font c s ≡ advance font c s))
unfolding fbcon_putc
fbcon_putc-cases font c s = ground arith

-- fbcon_putc keeps a console valid, whatever the character.
pub fbcon_putc-IsValid :
    (font : ℕ → ℕ → ℕ) (c : ℕ) (s : Console) → IsValid s → IsValid (fbcon_putc font c s)
unfolding scroll
fbcon_putc-IsValid font c s v =
    let t = advance font c s in
    let (a0, a1, a2, a3, a4, a5) = advance-cases font c s v in
    elim (fbcon_putc-cases font c s) [
      | inl e ↦ subst IsValid (sym e) v
      | inr (inl e) ↦ subst IsValid (sym e) (record {
        wide = omega (arith, a0, a2, v.wide);
        high = omega (arith, a1, a3, v.high);
        width_fits = omega (arith, a2, v.width_fits);
        height_fits = omega (arith, a3, v.height_fits);
        column = omega (arith, a0, a4);
        line = omega (arith, a1, a3, v.line, v.high, v.height_fits);
      })
      | inr (inr (below, e)) ↦ subst IsValid (sym e) (record {
        wide = omega (arith, a0, a2, v.wide);
        high = omega (arith, a1, a3, v.high);
        width_fits = omega (arith, a2, v.width_fits);
        height_fits = omega (arith, a3, v.height_fits);
        column = omega (arith, a0, a4);
        line = below;
      })
    ]
