-- ===== src/Kernel/Cpu.antt =====
-- kernel/arch/x86_64/cpu.c: the identification of the processor. What CPUID answers to a leaf is a
-- parameter.
use sypas.Base.{
  ℕ, ◌+◌, ◌*◌, ◌/◌, ◌%◌, ◌^◌, ◌<◌, ◌≡◌, arith, Bool, false, leb, ◌==◌, ◌||◌, if◌then◌else◌, List,
  [], ◌∷◌, ◌++◌,
}

pub record Registers : Type 0 where
  pub eax : ℕ
  pub ebx : ℕ
  pub ecx : ℕ
  pub edx : ℕ

-- `cpu_info_t`; a string is its 32-bit words, four characters each.
pub record CpuInfo : Type 0 where
  pub vendor : List ℕ
  pub brand : List ℕ
  pub family : ℕ
  pub model : ℕ
  pub stepping : ℕ
  pub has_sse2 : Bool
  pub has_apic : Bool
  pub has_tsc : Bool
  pub has_1gb_pages : Bool
  pub has_nx : Bool

-- Bit `i` of a word.
unfoldable pub has_bit : ℕ → ℕ → Bool
has_bit word i = word / 2 ^ i % 2 == 1

unfoldable pub family_of : ℕ → ℕ
family_of eax =
    let base = eax / 2 ^ 8 % 2 ^ 4 in if base == 0xf then base + eax / 2 ^ 20 % 2 ^ 8 else base

-- The two parts of the model do not meet, so their `|` is a sum.
unfoldable pub model_of : ℕ → ℕ
model_of eax =
    let base = eax / 2 ^ 8 % 2 ^ 4 in
    let low = eax / 2 ^ 4 % 2 ^ 4 in
    if base == 0x6 || base == 0xf then low + (eax / 2 ^ 16 % 2 ^ 4) * 2 ^ 4 else low

-- The leaves that are asked, and the words of the brand string that they give.
unfoldable pub brand_of : (ℕ → Registers) → ℕ → List ℕ
brand_of cpuid max_ext =
    if leb 0x80000004 max_ext then words 0x80000002 ++ words 0x80000003 ++ words 0x80000004 else []
  where
    words : ℕ → List ℕ
    words leaf = (cpuid leaf).eax ∷ (cpuid leaf).ebx ∷ (cpuid leaf).ecx ∷ (cpuid leaf).edx ∷ []

unfoldable pub cpu_identify : (ℕ → Registers) → CpuInfo
cpu_identify cpuid =
    let max_ext = (cpuid 0x80000000).eax in
    let extended = leb 0x80000001 max_ext in
    record {
      vendor = (cpuid 0).ebx ∷ (cpuid 0).edx ∷ (cpuid 0).ecx ∷ [];
      brand = brand_of cpuid max_ext;
      family = family_of (cpuid 1).eax;
      model = model_of (cpuid 1).eax;
      stepping = (cpuid 1).eax % 2 ^ 4;
      has_sse2 = has_bit (cpuid 1).edx 26;
      has_apic = has_bit (cpuid 1).edx 9;
      has_tsc = has_bit (cpuid 1).edx 4;
      has_1gb_pages = if extended then has_bit (cpuid 0x80000001).edx 26 else false;
      has_nx = if extended then has_bit (cpuid 0x80000001).edx 20 else false;
    }

-- The parts of the signature, as the processor packs them.
pub record Signature : Type 0 where
  pub stepping : ℕ
  pub model : ℕ
  pub family : ℕ
  pub type : ℕ
  pub ext_model : ℕ
  pub ext_family : ℕ

pub record IsSignature (g : Signature) : Type 0 where
  pub stepping_small : g.stepping < 16
  pub model_small : g.model < 16
  pub family_small : g.family < 16
  pub type_small : g.type < 16
  pub ext_model_small : g.ext_model < 16
  pub ext_family_small : g.ext_family < 256

abbrev pub packed : Signature → ℕ
packed g =
    g.stepping
    + g.model * 2 ^ 4
    + g.family * 2 ^ 8
    + g.type * 2 ^ 12
    + g.ext_model * 2 ^ 16
    + g.ext_family * 2 ^ 20

-- A signature whose parts are within their bits is read as it was packed: the extended family
-- counts in family 15 alone, the extended model in the families 6 and 15, above the model.
pub cpu_identify-packed :
    (cpuid : ℕ → Registers) (g : Signature)
    → IsSignature g
    → (cpuid 1).eax ≡ packed g
    → ((cpu_identify cpuid).stepping ≡ g.stepping)
      × ((cpu_identify cpuid).family ≡ (if g.family == 15 then 15 + g.ext_family else g.family))
      × ((cpu_identify cpuid).model
          ≡ (if g.family == 6 || g.family == 15 then g.ext_model * 16 + g.model else g.model))
unfolding cpu_identify family_of model_of
cpu_identify-packed cpuid g i e =
    let s = i.stepping_small in
    let m = i.model_small in
    let f = i.family_small in
    let t = i.type_small in
    let x = i.ext_model_small in
    let y = i.ext_family_small in
    let eax : ℕ = (cpuid 1).eax in
    let low : eax % 2 ^ 4 ≡ g.stepping = omega (arith, e, s) in
    let family : eax / 2 ^ 8 % 2 ^ 4 ≡ g.family = omega (arith, e, s, m, f) in
    let model : eax / 2 ^ 4 % 2 ^ 4 ≡ g.model = omega (arith, e, s, m) in
    let above : eax / 2 ^ 20 % 2 ^ 8 ≡ g.ext_family = omega (arith, e, s, m, f, t, x, y) in
    let high : eax / 2 ^ 16 % 2 ^ 4 ≡ g.ext_model = omega (arith, e, s, m, f, t, x) in
    (low, ground (arith, family, above), ground (arith, family, model, high))
