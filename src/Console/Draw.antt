-- ===== src/Console/Draw.antt =====
-- kernel/graphics/fbcon.c: the drawing. The framebuffer is a function from the index of a pixel to its
-- value; the font is a function from a character and a row to the eight bits of that row.
use sypas.Base.{
  ℕ, zero, suc, ◌+◌, ◌*◌, ◌/◌, ◌%◌, ◌^◌, if◌then◌else◌, ◌==◌, bit_and, bit_or, byte_test, update,
  Memory,
}

-- `(rgb & 0x00FF0000) >> 16` and the like.
unfoldable pub to_native : ℕ → ℕ → ℕ
to_native format rgb =
    if format == 2
    then bit_or (bit_or (bit_and rgb 0x0000ff00) (bit_and rgb 0x00ff0000 / 2 ^ 16))
        ((bit_and rgb 0x000000ff * 2 ^ 16) % 2 ^ 32)
    else rgb

-- `line[dx] = native` for so many pixels.
unfoldable pub fill_line : ℕ → ℕ → ℕ → Memory → Memory
fill_line zero at native fb = fb
fill_line (suc n) at native fb = fill_line n (at + 1) native (update fb at native)

-- The lines of a rectangle, from line `y` on; `y + dy` is a 32-bit sum.
unfoldable pub fill_rect : ℕ → ℕ → ℕ → ℕ → ℕ → ℕ → Memory → Memory
fill_rect pitch x y w zero native fb = fb
fill_rect pitch x y w (suc h) native fb =
    fill_rect pitch x (y + 1) w h native (fill_line w (y % 2 ^ 32 * pitch + x) native fb)

-- The loop over `gx`, for so many bits of a row; each is two pixels wide.
unfoldable pub draw_dots : ℕ → ℕ → ℕ → ℕ → ℕ → ℕ → Memory → Memory
draw_dots zero gx line rowbits nfg nbg fb = fb
draw_dots (suc n) gx line rowbits nfg nbg fb =
    let c = if byte_test rowbits gx then nfg else nbg in
    draw_dots n (gx + 1) line rowbits nfg nbg (fill_line 2 (line + gx * 2) c fb)

-- The loops over `gy` and `sy`: each row of the glyph fills two lines.
unfoldable pub draw_rows : ℕ → ℕ → ℕ → ℕ → ℕ → (ℕ → ℕ) → ℕ → ℕ → Memory → Memory
draw_rows zero gy pitch x0 y0 bits nfg nbg fb = fb
draw_rows (suc n) gy pitch x0 y0 bits nfg nbg fb =
    let first = draw_dots 8 0 ((y0 + gy * 2) % 2 ^ 32 * pitch + x0) (bits gy) nfg nbg fb in
    let second = draw_dots 8 0 ((y0 + gy * 2 + 1) % 2 ^ 32 * pitch + x0) (bits gy) nfg nbg first in
    draw_rows n (gy + 1) pitch x0 y0 bits nfg nbg second

-- `dst[i] = src[i]` for so many pixels, upwards.
unfoldable pub copy_up : ℕ → ℕ → ℕ → ℕ → Memory → Memory
copy_up zero i dst src fb = fb
copy_up (suc n) i dst src fb = copy_up n (i + 1) dst src (update fb (dst + i) (fb (src + i)))
