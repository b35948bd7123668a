-- ===== src/Interrupts.antt =====
-- kernel/arch/x86_64/pic.c, idt.c and io.h: interrupts. `Pic` has the 8259 controllers, `Idt` the
-- table and the dispatch, `Eoi` what is proved of the dispatch, `Gates` of the table.
pub mod Pic
pub mod Idt
pub mod Eoi
pub mod Gates
pub mod Timer
mod Tests
