-- ===== src/Pmm.antt =====
-- kernel/mm/pmm.c, the bitmap page allocator. `Bitmap` has the bit operations, `State` the static
-- variables, the other modules the functions and what is proved of them.
pub mod Bitmap
pub mod State
pub mod Alloc
pub mod AllocCorrect
pub mod Free
pub mod Marks
pub mod Tracked
pub mod Ranges
pub mod Init
pub mod Totals
pub mod Place
pub mod InitCorrect
pub mod InitAlloc
pub mod PastEnd
pub mod History
pub mod Selftest
pub mod SelftestLoops
pub mod SelftestPasses
mod Tests
