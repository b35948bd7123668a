-- ===== src/Acpi/Sample.antt =====
-- A root pointer for the tests, at 0xe0000, in the format that bootloader/uefi/acpi.c reads.
use sypas.Base.{ℕ, ◌-◌, leb, get_or, if◌then◌else◌, List, [], ◌∷◌, Memory}

abbrev pub bytes_of : List ℕ
bytes_of =
    82 ∷ 83 ∷ 68 ∷ 32 ∷ 80 ∷ 84 ∷ 82 ∷ 32 ∷ 47 ∷ 83 ∷ 89 ∷ 80 ∷ 65 ∷ 83 ∷ 32 ∷ 2 ∷ 0 ∷ 0 ∷ 0 ∷ 0
    ∷ 36 ∷ 0 ∷ 0 ∷ 0 ∷ 0 ∷ 0 ∷ 0 ∷ 0 ∷ 0 ∷ 0 ∷ 0 ∷ 0 ∷ 220 ∷ 0 ∷ 0 ∷ 0 ∷ []

abbrev pub tables : Memory
tables i = if leb 0xe0000 i then get_or bytes_of (i - 0xe0000) 0 else 0
