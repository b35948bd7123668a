-- ===== src/Console/Bounds.antt =====
-- kernel/graphics/fbcon.c: the console writes inside the framebuffer only.
use sypas.Base.{
  ℕ, zero, suc, ◌+◌, ◌-◌, ◌*◌, ◌%◌, ◌^◌, ◌≤◌, ◌<◌, ◌≡◌, refl, arith, ap, ap₂, ◌∙◌, ◌⊎◌, inl, inr,
  if◌then◌else◌, Memory, update, byte_test,
}
use native.Mathlib.Nat.{mul-le-mul_right, suc-mul, add-mul, mul_comm, mul_assoc}
use sypas.Console.Draw.{to_native, fill_line, fill_rect, draw_dots, draw_rows, copy_up}
use sypas.Console.Cursor.{Console, draw_glyph, scroll, advance, fbcon_putc}
use sypas.Console.Stays.{IsValid, advance-cases, fbcon_putc-cases}

row_end : (y high pitch x w : ℕ) → y < high → x + w ≤ pitch → y * pitch + x + w ≤ high * pitch
row_end y high pitch x w l r =
    let up = mul-le-mul_right {m = suc y} {n = high} pitch (omega arith) in
    omega (arith, up, suc-mul y pitch)

fill_line-beyond :
    (n at v : ℕ) (fb : Memory) (limit i : ℕ)
    → at + n ≤ limit
    → limit ≤ i
    → fill_line n at v fb i ≡ fb i
unfolding fill_line
fill_line-beyond zero at v fb limit i l r = refl
fill_line-beyond (suc n) at v fb limit i l r =
    fill_line-beyond n (at + 1) v (update fb at v) limit i (omega arith) r ∙ ground arith

pub fill_rect-beyond :
    (pitch x y w h v : ℕ) (fb : Memory) (high i : ℕ)
    → y + h ≤ high
    → high < 2 ^ 32
    → x + w ≤ pitch
    → high * pitch ≤ i
    → fill_rect pitch x y w h v fb i ≡ fb i
unfolding fill_rect
fill_rect-beyond pitch x y w zero v fb high i l b r beyond = refl
fill_rect-beyond pitch x y w (suc h) v fb high i l b r beyond =
    fill_rect-beyond pitch x (y + 1) w h v (fill_line w (y % 2 ^ 32 * pitch + x) v fb) high i
      (omega arith) b r beyond
    ∙ fill_line-beyond w (y % 2 ^ 32 * pitch + x) v fb (high * pitch) i
        (row_end (y % 2 ^ 32) high pitch x w (omega arith) r) beyond

draw_dots-beyond :
    (n gx line bits nfg nbg : ℕ) (fb : Memory) (limit i : ℕ)
    → line + gx * 2 + n * 2 ≤ limit
    → limit ≤ i
    → draw_dots n gx line bits nfg nbg fb i ≡ fb i
unfolding draw_dots
draw_dots-beyond zero gx line bits nfg nbg fb limit i l r = refl
draw_dots-beyond (suc n) gx line bits nfg nbg fb limit i l r =
    let c = if byte_test bits gx then nfg else nbg in
    draw_dots-beyond n (gx + 1) line bits nfg nbg (fill_line 2 (line + gx * 2) c fb) limit i
      (omega arith) r
    ∙ fill_line-beyond 2 (line + gx * 2) c fb limit i (omega arith) r

draw_rows-beyond :
    (n gy pitch x0 y0 : ℕ) (bits : ℕ → ℕ) (nfg nbg : ℕ) (fb : Memory) (high i : ℕ)
    → y0 + gy * 2 + n * 2 ≤ high
    → high < 2 ^ 32
    → x0 + 16 ≤ pitch
    → high * pitch ≤ i
    → draw_rows n gy pitch x0 y0 bits nfg nbg fb i ≡ fb i
unfolding draw_rows
draw_rows-beyond zero gy pitch x0 y0 bits nfg nbg fb high i l b r beyond = refl
draw_rows-beyond (suc n) gy pitch x0 y0 bits nfg nbg fb high i l b r beyond =
    let one : ℕ = (y0 + gy * 2) % 2 ^ 32 in
    let two : ℕ = (y0 + gy * 2 + 1) % 2 ^ 32 in
    let first = draw_dots 8 0 (one * pitch + x0) (bits gy) nfg nbg fb in
    let second = draw_dots 8 0 (two * pitch + x0) (bits gy) nfg nbg first in
    let one_end = row_end one high pitch x0 16 (omega arith) r in
    let two_end = row_end two high pitch x0 16 (omega arith) r in
    draw_rows-beyond n (gy + 1) pitch x0 y0 bits nfg nbg second high i (omega arith) b r beyond
    ∙ draw_dots-beyond 8 0 (two * pitch + x0) (bits gy) nfg nbg first (high * pitch) i
        (omega (arith, two_end)) beyond
    ∙ draw_dots-beyond 8 0 (one * pitch + x0) (bits gy) nfg nbg fb (high * pitch) i
        (omega (arith, one_end)) beyond

copy_up-beyond :
    (n k dst src : ℕ) (fb : Memory) (limit i : ℕ)
    → dst + k + n ≤ limit
    → limit ≤ i
    → copy_up n k dst src fb i ≡ fb i
unfolding copy_up
copy_up-beyond zero k dst src fb limit i l r = refl
copy_up-beyond (suc n) k dst src fb limit i l r =
    copy_up-beyond n (k + 1) dst src (update fb (dst + k) (fb (src + k))) limit i (omega arith) r
    ∙ ground arith

draw_glyph-beyond :
    (font : ℕ → ℕ → ℕ) (c : ℕ) (s : Console) (i : ℕ)
    → IsValid s
    → s.fb_width ≤ s.fb_pitch32
    → s.fb_height * s.fb_pitch32 ≤ i
    → (draw_glyph font s.cur_col s.cur_row c s).fb i ≡ s.fb i
unfolding draw_glyph
draw_glyph-beyond font c s i v wide beyond =
    draw_rows-beyond 8 0 s.fb_pitch32 ((8 + s.cur_col * 16) % 2 ^ 32)
      ((8 + s.cur_row * 16) % 2 ^ 32) (font (c % 128)) (to_native s.fb_format s.fg)
      (to_native s.fb_format s.bg) s.fb s.fb_height i (omega (arith, v.high, v.line)) v.height_fits
      (omega (arith, v.wide, v.column, wide)) beyond

advance-fb :
    (font : ℕ → ℕ → ℕ) (c : ℕ) (s : Console)
    → ((advance font c s).fb ≡ s.fb)
      ⊎ ((advance font c s).fb ≡ (draw_glyph font s.cur_col s.cur_row c s).fb)
unfolding advance
advance-fb font c s = ground arith

advance-pitch :
    (font : ℕ → ℕ → ℕ) (c : ℕ) (s : Console) → (advance font c s).fb_pitch32 ≡ s.fb_pitch32
unfolding advance draw_glyph
advance-pitch font c s = ground arith

advance-beyond :
    (font : ℕ → ℕ → ℕ) (c : ℕ) (s : Console) (i : ℕ)
    → IsValid s
    → s.fb_width ≤ s.fb_pitch32
    → s.fb_height * s.fb_pitch32 ≤ i
    → (advance font c s).fb i ≡ s.fb i
advance-beyond font c s i v wide beyond = elim (advance-fb font c s) [
  | inl e ↦ ap (λ (fb : Memory). fb i) e
  | inr e ↦ ap (λ (fb : Memory). fb i) e ∙ draw_glyph-beyond font c s i v wide beyond
]

scroll-beyond :
    (t : Console) (i : ℕ)
    → 0 < t.rows
    → t.rows * 16 + 16 ≤ t.fb_height
    → t.fb_height < 2 ^ 32
    → t.fb_width ≤ t.fb_pitch32
    → t.fb_height * t.fb_pitch32 ≤ i
    → (scroll t).fb i ≡ t.fb i
unfolding scroll
scroll-beyond t i some_rows high fits wide beyond =
    let last : ℕ = (t.rows + 2 ^ 32 - 1) % 2 ^ 32 in
    let pitch : ℕ = t.fb_pitch32 in
    let before : last + 1 ≡ t.rows = omega arith in
    let moved = copy_up (16 * pitch * last % 2 ^ 64) 0 (8 * pitch) (8 * pitch + 16 * pitch) t.fb in
    let scaled =
      mul-le-mul_right {m = 8 + 16 * last} {n = t.fb_height} pitch (omega (arith, before)) in
    let split = add-mul 8 (16 * last) pitch in
    let flip : 16 * last * pitch ≡ 16 * pitch * last =
      omega (arith, mul_assoc 16 last pitch, mul_assoc 16 pitch last, mul_comm last pitch) in
    fill_rect-beyond pitch 0 ((8 + last * 16) % 2 ^ 32) t.fb_width 16 (to_native t.fb_format t.bg)
      moved t.fb_height i (omega (arith, before)) fits (omega (arith, wide)) beyond
    ∙ copy_up-beyond (16 * pitch * last % 2 ^ 64) 0 (8 * pitch) (8 * pitch + 16 * pitch) t.fb
        (t.fb_height * pitch) i (omega (arith, scaled, split, flip)) beyond

-- Where a line of the framebuffer has room for its pixels, fbcon_putc writes no pixel behind the last
-- line.
pub fbcon_putc-beyond :
    (font : ℕ → ℕ → ℕ) (c : ℕ) (s : Console) (i : ℕ)
    → IsValid s
    → s.fb_width ≤ s.fb_pitch32
    → s.fb_height * s.fb_pitch32 ≤ i
    → (fbcon_putc font c s).fb i ≡ s.fb i
fbcon_putc-beyond font c s i v wide beyond =
    let t = advance font c s in
    let (a0, a1, a2, a3, a4, a5) = advance-cases font c s v in
    let p = advance-pitch font c s in
    let size : t.fb_height * t.fb_pitch32 ≡ s.fb_height * s.fb_pitch32 = ap₂ (λ a b. a * b) a3 p in
    let drawn = advance-beyond font c s i v wide beyond in
    elim (fbcon_putc-cases font c s) [
      | inl e ↦ ap (λ (x : Console). x.fb i) e
      | inr (inl e) ↦
          ap (λ (x : Console). x.fb i) e
          ∙ scroll-beyond t i (omega (arith, a1, v.line)) (omega (arith, a1, a3, v.high))
              (omega (arith, a3, v.height_fits)) (omega (arith, a2, p, wide))
              (omega (arith, size, beyond))
          ∙ drawn
      | inr (inr (below, e)) ↦ ap (λ (x : Console). x.fb i) e ∙ drawn
    ]
