-- ===== src/Console.antt =====
-- kernel/graphics/fbcon.c: the text console on the framebuffer. `Draw` has what writes pixels,
-- `Cursor` the state and the operations, `Stays` what is proved of them.
pub mod Draw
pub mod Cursor
pub mod Stays
pub mod Bounds
pub mod Inside
mod Tests
