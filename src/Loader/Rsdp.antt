-- ===== src/Loader/Rsdp.antt =====
-- bootloader/uefi/main.c: what `find_acpi_rsdp` finds.
use sypas.Base.{
  ℕ, ◌≡◌, refl, arith, ap, Bool, true, false, if◌then◌else◌, List, [], ◌∷◌, Memory, All, Among, ◌⊎◌,
  inl, inr,
}
use sypas.Acpi.Rsdp.{RsdpStatus, rsdp_ok, validate_rsdp}
use sypas.Acpi.Validates.{IsRsdp, validate_rsdp-IsRsdp}
use sypas.Loader.Discover.{
  Guid, guid_eq, acpi_20, acpi_10, ConfigTable, is_ok, offers, find_from, find_acpi_rsdp,
}

-- A table of the firmware that has the GUID, and leads to a root pointer.
pub record Offers (m : Memory) (guid : Guid) (ct : ConfigTable) : Type 0 where
  pub low : ct.vendor_guid.low ≡ guid.low
  pub high : ct.vendor_guid.high ≡ guid.high
  pub leads : IsRsdp m ct.vendor_table

is_ok-true : (status : RsdpStatus) → is_ok status ≡ true → status ≡ rsdp_ok
is_ok-true rsdp_ok h = refl
is_ok-true s h = absurd (cc)

offers-true :
    (m : Memory) (guid : Guid) (ct : ConfigTable) → offers m guid ct ≡ true → Offers m guid ct
unfolding offers guid_eq
offers-true m guid ct h =
    let valid : is_ok (validate_rsdp m ct.vendor_table) ≡ true = ground arith in
    record {
      low = ground arith;
      high = ground arith;
      leads = (validate_rsdp-IsRsdp m ct.vendor_table).0 (is_ok-true _ valid);
    }

offers-false :
    (m : Memory) (guid : Guid) (ct : ConfigTable) → offers m guid ct ≡ false → Offers m guid ct → ⊥
unfolding offers guid_eq
offers-false m guid ct h o =
    let valid : validate_rsdp m ct.vendor_table ≡ rsdp_ok =
      (validate_rsdp-IsRsdp m ct.vendor_table).1 o.leads in
    let good : is_ok (validate_rsdp m ct.vendor_table) ≡ true = ap is_ok valid in
    let l = o.low in let h' = o.high in ground (arith, l, h', good)

abbrev pub Offered : Memory → Guid → List ConfigTable → ℕ → Type 0
Offered m guid tables r =
    (ct : ConfigTable) × (Among ct tables × Offers m guid ct × (r ≡ ct.vendor_table))

abbrev pub NotOffered : Memory → Guid → List ConfigTable → Type 0
NotOffered m guid tables = All (λ ct. Offers m guid ct → ⊥) tables

-- What a search has found, where `v1` is what it began with.
abbrev pub Found : Memory → List ConfigTable → ℕ → ℕ → Type 0
Found m tables v1 r =
    Offered m acpi_20 tables r
    ⊎ (NotOffered m acpi_20 tables
        × (Offered m acpi_10 tables r ⊎ (NotOffered m acpi_10 tables × (r ≡ v1))))

later :
    (m : Memory) (guid : Guid) (ct : ConfigTable) (cts : List ConfigTable) (r : ℕ)
    → Offered m guid cts r
    → Offered m guid (ct ∷ cts) r
later m guid ct cts r (found, (among, offered, e)) = (found, (inr among, offered, e))

-- A table before the others, none of them of ACPI 2.0 where the search goes on.
Found-cons :
    (m : Memory) (ct : ConfigTable) (cts : List ConfigTable) (v1 r : ℕ) (b10 : Bool)
    → offers m acpi_20 ct ≡ false
    → offers m acpi_10 ct ≡ b10
    → Found m cts (if b10 then ct.vendor_table else v1) r
    → Found m (ct ∷ cts) v1 r
Found-cons m ct cts v1 r b10 e20 e10 (inl found) = inl (later m acpi_20 ct cts r found)
Found-cons m ct cts v1 r b10 e20 e10 (inr (no20, inl found)) =
    inr ((offers-false m acpi_20 ct e20, no20), inl (later m acpi_10 ct cts r found))
Found-cons m ct cts v1 r true e20 e10 (inr (no20, inr (no10, e))) =
    inr
      ((offers-false m acpi_20 ct e20, no20), inl (ct, (inl refl, offers-true m acpi_10 ct e10, e)))
Found-cons m ct cts v1 r false e20 e10 (inr (no20, inr (no10, e))) =
    inr ((offers-false m acpi_20 ct e20, no20), inr ((offers-false m acpi_10 ct e10, no10), e))

find_from-Found :
    (m : Memory) (tables : List ConfigTable) (v1 : ℕ) → Found m tables v1 (find_from m tables v1)
unfolding find_from
find_from-Found m [] v1 = inr (tt, inr (tt, refl))
find_from-Found m (ct ∷ cts) v1 =
    go (offers m acpi_20 ct) refl
      (find_from-Found m cts (if offers m acpi_10 ct then ct.vendor_table else v1))
  where
    rest : ℕ
    rest = find_from m cts (if offers m acpi_10 ct then ct.vendor_table else v1)

    go :
        (b20 : Bool)
        → offers m acpi_20 ct ≡ b20
        → Found m cts (if offers m acpi_10 ct then ct.vendor_table else v1) rest
        → Found m (ct ∷ cts) v1 (elim b20 as (λ _. ℕ) [ true ↦ ct.vendor_table | false ↦ rest ])
    go true e found = inl (ct, (inl refl, offers-true m acpi_20 ct e, refl))
    go false e found = Found-cons m ct cts v1 rest (offers m acpi_10 ct) e refl found

-- The search finds the root pointer of a table of ACPI 2.0 if there is one, else that of a table of
-- ACPI 1.0 if there is one, and else 0; a table counts where it has the GUID and leads to a root
-- pointer that validates.
pub find_acpi_rsdp-Found :
    (m : Memory) (tables : List ConfigTable) → Found m tables 0 (find_acpi_rsdp m tables)
unfolding find_acpi_rsdp
find_acpi_rsdp-Found m tables = find_from-Found m tables 0
