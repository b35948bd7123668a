-- ===== src/Kernel/Boot.antt =====
-- kernel/main.c: the checks of `kmain` on the structure that the loader hands over.
use sypas.Base.{ℕ, not, ltb, ◌==◌, if◌then◌else◌, Option, none, some, Result, ok, err}
use sypas.BootProto.Info.{BootInfo, boot_magic, boot_version_major, bootinfo_v1_0_size}

-- The panics, with what they print.
pub data BootPanic : Type 0 where
  null_bootinfo : BootPanic
  bad_magic : (magic : ℕ) → BootPanic
  unsupported_major : (major : ℕ) → BootPanic
  short_bootinfo : (size : ℕ) → BootPanic

-- `none` is the null pointer.
unfoldable pub check_bootinfo : Option BootInfo → Result BootPanic BootInfo
check_bootinfo none = err null_bootinfo
check_bootinfo (some bi) =
    if not (bi.magic == boot_magic)
    then err (bad_magic bi.magic)
    else if not (bi.version_major == boot_version_major)
    then err (unsupported_major bi.version_major)
    else if ltb bi.size bootinfo_v1_0_size
    then err (short_bootinfo bi.size)
    else ok bi
