-- ===== src/Acpi/Rsdp.antt =====
-- bootloader/uefi/acpi.c: `sypas_acpi_validate_rsdp`, on the memory that the pointer leads to.
use sypas.Base.{
  ℕ, zero, suc, ◌+◌, ◌%◌, Bool, true, false, not, ltb, ◌==◌, ◌||◌, if◌then◌else◌, List, [], ◌∷◌,
  Memory, u8_at, u32_at,
}

-- `sypas_acpi_rsdp_status_t`
pub data RsdpStatus : Type 0 where
  rsdp_ok rsdp_null signature checksum revision length extended_checksum : RsdpStatus

-- The characters of "RSD PTR ".
abbrev pub expected : List ℕ
expected = 0x52 ∷ 0x53 ∷ 0x44 ∷ 0x20 ∷ 0x50 ∷ 0x54 ∷ 0x52 ∷ 0x20 ∷ []

unfoldable pub equal_from : List ℕ → Memory → ℕ → Bool
equal_from [] m a = true
equal_from (c ∷ cs) m a = elim (m a == c) [ false ↦ false | true ↦ equal_from cs m (a + 1) ]

unfoldable pub equal_signature : Memory → ℕ → Bool
equal_signature m a = equal_from expected m a

-- The sum of so many bytes, in a byte.
unfoldable pub sum_from : ℕ → ℕ → Memory → ℕ → ℕ
sum_from zero sum m a = sum
sum_from (suc n) sum m a = sum_from n ((sum + m a) % 256) m (a + 1)

unfoldable pub checksum_ok : Memory → ℕ → ℕ → Bool
checksum_ok m a n = sum_from n 0 m a == 0

-- `acpi_rsdp_t`, packed: the revision is byte 15, the length the four bytes from 20 on.
abbrev pub revision_of : Memory → ℕ → ℕ
revision_of m r = u8_at m (r + 15)

abbrev pub length_of : Memory → ℕ → ℕ
length_of m r = u32_at m (r + 20)

unfoldable pub validate_rsdp : Memory → ℕ → RsdpStatus
validate_rsdp m r =
    if r == 0
    then rsdp_null
    else if not (equal_signature m r)
    then signature
    else if not (checksum_ok m r 20)
    then checksum
    else if revision_of m r == 0
    then rsdp_ok
    else if ltb (revision_of m r) 2
    then revision
    else if ltb (length_of m r) 36 || ltb 4096 (length_of m r)
    then length
    else if not (checksum_ok m r (length_of m r))
    then extended_checksum
    else rsdp_ok
