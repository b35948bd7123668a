-- ===== src/Acpi/Validates.antt =====
-- bootloader/uefi/acpi.c: what the validator accepts.
use sypas.Base.{
  ℕ, zero, suc, ◌+◌, ◌%◌, ◌≤◌, ◌<◌, ◌≡◌, ◌≢◌, ◌↔◌, ◌⊎◌, inl, inr, refl, arith, ◌∙◌, true, ◌==◌,
  List, [], ◌∷◌, Memory, Bool-cases,
}
use sypas.Acpi.Rsdp.{
  rsdp_ok, expected, equal_from, equal_signature, sum_from, checksum_ok, revision_of, length_of,
  validate_rsdp,
}

-- The characters stand in memory from an address on.
abbrev pub Stands : List ℕ → Memory → ℕ → Type 0
Stands [] m a = Unit {0}
Stands (c ∷ cs) m a = (m a ≡ c) × Stands cs m (a + 1)

-- The true sum of so many bytes.
abbrev pub byte_sum : ℕ → Memory → ℕ → ℕ
byte_sum zero m a = 0
byte_sum (suc n) m a = m a + byte_sum n m (a + 1)

-- A root pointer of ACPI 1.0, or one of ACPI 2.0 or later of a bounded length.
pub record IsRsdp (m : Memory) (r : ℕ) : Type 0 where
  pub not_null : r ≢ 0
  pub signed : Stands expected m r
  pub sum_20 : byte_sum 20 m r % 256 ≡ 0
  pub extended :
      (revision_of m r ≡ 0)
      ⊎ ((2 ≤ revision_of m r)
          × (36 ≤ length_of m r)
          × (length_of m r ≤ 4096)
          × (byte_sum (length_of m r) m r % 256 ≡ 0))

equal_from-Stands : (cs : List ℕ) (m : Memory) (a : ℕ) → (equal_from cs m a ≡ true) ↔ Stands cs m a
unfolding equal_from
equal_from-Stands [] m a = (λ e. tt, λ s. refl)
equal_from-Stands (c ∷ cs) m a =
    let (to, from) = equal_from-Stands cs m (a + 1) in
    elim (Bool-cases (m a == c)) [
      | inl e ↦ rw (e, equal_from) (λ h. (ground (arith, e), to h), λ s. from s.1)
      | inr e ↦ rw (e, equal_from) (λ h. absurd (cc), λ s. absurd (ground (arith, e, s.0)))
    ]

sum_from-byte_sum :
    (n sum : ℕ) (m : Memory) (a : ℕ) → sum < 256 → sum_from n sum m a ≡ (sum + byte_sum n m a) % 256
unfolding sum_from
sum_from-byte_sum zero sum m a l = omega arith
sum_from-byte_sum (suc n) sum m a l =
    sum_from-byte_sum n ((sum + m a) % 256) m (a + 1) (omega arith) ∙ omega arith

checksum_ok-byte_sum :
    (m : Memory) (a n : ℕ) → (checksum_ok m a n ≡ true) ↔ (byte_sum n m a % 256 ≡ 0)
unfolding checksum_ok
checksum_ok-byte_sum m a n =
    let e = sum_from-byte_sum n 0 m a (omega arith) in
    (λ h. ground (arith, e), λ h. ground (arith, e))

-- The tests that are passed.
abbrev Passes : Memory → ℕ → Type 0
Passes m r =
    (r ≢ 0)
    × (equal_signature m r ≡ true)
    × (checksum_ok m r 20 ≡ true)
    × ((revision_of m r ≡ 0)
        ⊎ ((2 ≤ revision_of m r)
            × (36 ≤ length_of m r)
            × (length_of m r ≤ 4096)
            × (checksum_ok m r (length_of m r) ≡ true)))

Passes-holds : (m : Memory) (r : ℕ) → validate_rsdp m r ≡ rsdp_ok → Passes m r
unfolding validate_rsdp
Passes-holds m r h = ground arith

Passes-suffices : (m : Memory) (r : ℕ) → Passes m r → validate_rsdp m r ≡ rsdp_ok
unfolding validate_rsdp
Passes-suffices m r (not_null, signed, sum, rest) = ground arith

-- The validator accepts exactly the root pointers: the signature, the sum of the first 20 bytes, and
-- from revision 2 on a length of 36 to 4096 bytes and the sum over that length.
pub validate_rsdp-IsRsdp : (m : Memory) (r : ℕ) → (validate_rsdp m r ≡ rsdp_ok) ↔ IsRsdp m r
unfolding equal_signature
validate_rsdp-IsRsdp m r =
    let (signs, unsigns) = equal_from-Stands expected m r in
    let (short, unshort) = checksum_ok-byte_sum m r 20 in
    let (long, unlong) = checksum_ok-byte_sum m r (length_of m r) in
    (
      λ h.
          let (n, s, c, rest) = Passes-holds m r h in
          record {
            not_null = n;
            signed = signs s;
            sum_20 = short c;
            extended = elim rest [
              | inl zero_revision ↦ inl zero_revision
              | inr (two, low, high, sum) ↦ inr (two, low, high, long sum)
            ];
          },
      λ p. Passes-suffices m r (
        p.not_null,
        unsigns p.signed,
        unshort p.sum_20,
        elim p.extended [
          | inl zero_revision ↦ inl zero_revision
          | inr (two, low, high, sum) ↦ inr (two, low, high, unlong sum)
        ],
      ),
    )
