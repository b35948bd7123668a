-- ===== src/Console/Inside.antt =====
-- kernel/graphics/fbcon.c: a console that stays inside its framebuffer, from one operation to the next.
use sypas.Base.{ℕ, ◌*◌, ◌/◌, ◌≤◌, ◌<◌, ◌^◌, ◌≡◌, refl, arith, ap, ap₂, subst, sym, ◌∙◌, true}
use sypas.Console.Cursor.{
  Console, Framebuffer, fbcon_init, fbcon_set_colors, fbcon_putc, advance, draw_glyph, scroll,
}
use sypas.Console.Stays.{IsValid, fbcon_init-IsValid, fbcon_putc-IsValid}
use sypas.Console.Draw.{to_native, fill_rect}
use sypas.Console.Bounds.{fill_rect-beyond, fbcon_putc-beyond}

pub record IsInside (c : Console) : Type 0 where
  pub valid : IsValid c
  pub pitch : c.fb_width ≤ c.fb_pitch32

-- The second console is inside if the first is, with a framebuffer of the same size and the same
-- memory behind it.
pub record Stays (c d : Console) : Type 0 where
  pub inside : IsInside c → IsInside d
  pub size : d.fb_height * d.fb_pitch32 ≡ c.fb_height * c.fb_pitch32
  pub behind : IsInside c → (i : ℕ) → c.fb_height * c.fb_pitch32 ≤ i → d.fb i ≡ c.fb i

pub Stays-refl : (c : Console) → Stays c c
Stays-refl c = record { inside = λ h. h; size = refl; behind = λ h i l. refl }

pub Stays-trans : (c d e : Console) → Stays c d → Stays d e → Stays c e
Stays-trans c d e p q = record {
  inside = λ h. q.inside (p.inside h);
  size = q.size ∙ p.size;
  behind = λ h i l. q.behind (p.inside h) i (subst (λ n. n ≤ i) (sym p.size) l) ∙ p.behind h i l;
}

putc_size :
    (font : ℕ → ℕ → ℕ) (ch : ℕ) (c : Console)
    → ((fbcon_putc font ch c).fb_width ≡ c.fb_width)
      × ((fbcon_putc font ch c).fb_height ≡ c.fb_height)
      × ((fbcon_putc font ch c).fb_pitch32 ≡ c.fb_pitch32)
unfolding fbcon_putc advance draw_glyph scroll
putc_size font ch c = ground arith

pub putc_Stays : (font : ℕ → ℕ → ℕ) (ch : ℕ) (c : Console) → Stays c (fbcon_putc font ch c)
putc_Stays font ch c =
    let (w, h, p) = putc_size font ch c in
    record {
      inside = λ i. record {
        valid = fbcon_putc-IsValid font ch c i.valid;
        pitch = omega (arith, w, p, i.pitch);
      };
      size = ap₂ (λ a b. a * b) h p;
      behind = λ i j l. fbcon_putc-beyond font ch c j i.valid i.pitch l;
    }

pub fbcon_set_colors-Stays : (fg bg : ℕ) (c : Console) → Stays c (fbcon_set_colors fg bg c)
unfolding fbcon_set_colors
fbcon_set_colors-Stays fg bg c = record {
  inside = λ i. record {
    valid = record {
      wide = i.valid.wide;
      high = i.valid.high;
      width_fits = i.valid.width_fits;
      height_fits = i.valid.height_fits;
      column = i.valid.column;
      line = i.valid.line;
    };
    pitch = i.pitch;
  };
  size = refl;
  behind = λ i j l. refl;
}

fbcon_init-sizes :
    (bi : Framebuffer) (s : Console) {t : Console}
    → fbcon_init bi s ≡ (true, t)
    → (t.fb_width ≡ bi.fb_width)
      × (t.fb_height ≡ bi.fb_height)
      × (t.fb_pitch32 ≡ bi.fb_pitch / 4)
      × (t.fb
          ≡ fill_rect
              (bi.fb_pitch / 4)
              0
              0
              bi.fb_width
              bi.fb_height
              (to_native bi.fb_format s.bg)
              bi.pixels)
unfolding fbcon_init
fbcon_init-sizes bi s e = ground arith

-- A framebuffer whose lines have room for their pixels, and which fbcon_init accepts, gives a console
-- inside it; clearing it leaves the memory behind it as it was.
pub fbcon_init-IsInside :
    (bi : Framebuffer) (s t : Console)
    → bi.fb_width < 2 ^ 32
    → bi.fb_height < 2 ^ 32
    → bi.fb_width ≤ bi.fb_pitch / 4
    → fbcon_init bi s ≡ (true, t)
    → IsInside t
      × (t.fb_height * t.fb_pitch32 ≡ bi.fb_height * (bi.fb_pitch / 4))
      × ((i : ℕ) → bi.fb_height * (bi.fb_pitch / 4) ≤ i → t.fb i ≡ bi.pixels i)
fbcon_init-IsInside bi s t w h p e =
    let (e0, e1, e2, e3) = fbcon_init-sizes bi s e in
    (
      record { valid = fbcon_init-IsValid bi s w h e; pitch = omega (arith, e0, e2, p) },
      ap₂ (λ a b. a * b) e1 e2,
      λ i l.
          ap (λ fb. fb i) e3
          ∙ fill_rect-beyond (bi.fb_pitch / 4) 0 0 bi.fb_width bi.fb_height
              (to_native bi.fb_format s.bg) bi.pixels bi.fb_height i (omega arith) h
              (omega (arith, p)) l,
    )
