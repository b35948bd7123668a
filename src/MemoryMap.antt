-- ===== src/MemoryMap.antt =====
-- bootloader/uefi/memory_map.c and memory_map.h, the translation of the firmware's memory map.
-- `Types` has the structures, `Sort` the sort of the descriptors, `Append` and `Split` the building
-- of the output, `Translate` the function itself; the other modules what is proved of them.
pub mod Types
pub mod Sort
pub mod Sorted
pub mod Append
pub mod Split
pub mod Splits
pub mod SplitEnds
pub mod Translate
pub mod Sound
pub mod Capacity
pub mod Sourced
pub mod Classified
mod Tests
