-- ===== src/Loader/Calls.antt =====
-- bootloader/uefi/main.c and efi.h: the calls of the firmware. The firmware is a parameter: what a call
-- returns is a function of the calls so far, the last one first, so that it may answer as it likes.
use sypas.Base.{
  ◌≡◌, refl, ap, sym, subst, ℕ, ◌+◌, ◌^◌, Bool, true, false, leb, List, ◌∷◌, Memory, Result, ok,
  err,
}
use sypas.Elf.Format.{ElfStatus}
use sypas.MemoryMap.Types.{Descriptor, MapError}

-- A call through the tables of the firmware, with the arguments that the loader chooses. The text of
-- an output is left out.
pub data Call : Type 0 where
  output_string stall set_watchdog_timer handle_protocol locate_protocol : Call
  open_volume open_file get_info read_file close_file : Call
  allocate_pool : (size : ℕ) → Call
  free_pool : (buffer : ℕ) → Call
  allocate_pages : (kind pages address : ℕ) → Call
  free_pages : (address pages : ℕ) → Call
  get_memory_map : (size : ℕ) → Call
  exit_boot_services : (map_key : ℕ) → Call

-- What GetMemoryMap hands out beside its status: the size in bytes, which is that of the descriptors
-- and `trailing` bytes more, the key, and the size of a descriptor.
pub record MapAnswer : Type 0 where
  pub descriptors : List Descriptor
  pub trailing : ℕ
  pub size : ℕ
  pub map_key : ℕ
  pub descriptor_size : ℕ

pub record Firmware : Type 0 where
  -- the status of the last call
  pub status : List Call → ℕ
  -- the number that the last call writes for its caller: an address, a size or a count
  pub value : List Call → ℕ
  pub memory_map : List Call → MapAnswer
  -- the bytes that a read of the kernel's file puts into the buffer
  pub contents : Memory

pub record World : Type 0 where
  pub calls : List Call
  pub mem : Memory

-- The messages of the loader's fatal errors.
pub data Fault : Type 0 where
  no_loaded_image no_filesystem open_volume_failed kernel_not_found get_info_failed : Fault
  file_size_policy no_pool read_failed load_address_occupied : Fault
  bootinfo_alloc stack_alloc size_query size_overflow map_keeps_growing map_alloc : Fault
  get_memory_map_failed : Fault
  image_rejected : ElfStatus → Fault
  map_rejected : MapError → Fault

-- How the loader ends but for the jump: `died` prints and hangs in the firmware's Stall, `halted` is
-- `halt_after_exit_boot_services`, `endless` a loop of the map's translation that does not end.
pub data Stop : Type 0 where
  died : (fault : Fault) → (status : ℕ) → Stop
  halted endless : Stop

abbrev pub M : Type 0 → Type 0
M A = World → Result Stop A × World

infixl 5 ◌>>=◌ ◌>>◌
abbrev pub ◌>>=◌ : {A B : Type 0} → M A → (A → M B) → M B
◌>>=◌ m f w = let (r, w') = m w in elim r [ ok a ↦ f a w' | err stop ↦ (err stop, w') ]

abbrev pub ◌>>◌ : {B : Type 0} → M (Unit {0}) → M B → M B
m >> k = m >>= λ _. k

abbrev pub pure : {A : Type 0} → A → M A
pure a w = (ok a, w)

abbrev pub stop : {A : Type 0} → Stop → M A
stop s w = (err s, w)

-- A call: its status, and what comes back beside it is read by `value_of` and `map_of`.
abbrev pub call : Firmware → Call → M ℕ
call fw c w = (ok (fw.status (c ∷ w.calls)), record w { calls = c ∷ w.calls })

abbrev pub value_of : Firmware → M ℕ
value_of fw w = (ok (fw.value w.calls), w)

abbrev pub map_of : Firmware → M MapAnswer
map_of fw w = (ok (fw.memory_map w.calls), w)

abbrev pub modify : (Memory → Memory) → M (Unit {0})
modify f w = (ok tt, record w { mem = f w.mem })

-- `EFI_ERROR`
abbrev pub efi_error : ℕ → Bool
efi_error st = leb (2 ^ 63) st

abbrev pub efi_load_error : ℕ
efi_load_error = 2 ^ 63 + 1

abbrev pub efi_buffer_too_small : ℕ
efi_buffer_too_small = 2 ^ 63 + 5

-- Five outputs, and the endless Stall.
unfoldable pub die : {A : Type 0} → Fault → ℕ → M A
die fault st w = (
  err (died fault st),
  record w {
    calls =
        stall ∷ output_string ∷ output_string ∷ output_string ∷ output_string ∷ output_string
        ∷ w.calls;
  },
)

-- `die_ascii` prints three strings before.
unfoldable pub die_ascii : {A : Type 0} → Fault → ℕ → M A
die_ascii fault st w =
    die fault st (record w { calls = output_string ∷ output_string ∷ output_string ∷ w.calls })

-- `if (EFI_ERROR(st)) die(…)`
abbrev pub die_if : Bool → Fault → ℕ → M (Unit {0})
die_if true fault st = die fault st
die_if false fault st = pure tt

-- What is known of a chain of steps that succeeds.
pub >>=-eq-ok :
    {A B : Type 0} (m : M A) (f : A → M B) (w : World) {b : B} {u : World}
    → (m >>= f) w ≡ (ok b, u)
    → (a : A) × (v : World) × (m w ≡ (ok a, v)) × (f a v ≡ (ok b, u))
>>=-eq-ok {A} {B} m f w {b} {u} h = go (m w) refl
  where
    go :
        (r : Result Stop A × World)
        → m w ≡ r
        → (a : A) × (v : World) × (m w ≡ (ok a, v)) × (f a v ≡ (ok b, u))
    go (ok a, v) e = (
      a,
      v,
      e,
      subst
          (λ (r : Result Stop A × World).
            (elim r.0 as (λ _. Result Stop B × World) [ ok x ↦ f x r.1 | err s ↦ (err s, r.1) ])
            ≡ (ok b, u))
          e h,
    )
    go (err s, v) e = absurd (
        wrong (
          subst
            (λ (r : Result Stop A × World).
              (elim r.0 as (λ _. Result Stop B × World) [ ok x ↦ f x r.1 | err t ↦ (err t, r.1) ])
              ≡ (ok b, u))
            e h))
      where
        wrong : ◌≡◌ {A = Result Stop B × World} (err s, v) (ok b, u) → ⊥
        wrong p = cc (ap (λ (r : Result Stop B × World). r.0) p)

pub die_if-ok :
    (b : Bool) (fault : Fault) (st : ℕ) (w : World) {u : World}
    → die_if b fault st w ≡ (ok tt, u)
    → (b ≡ false) × (u ≡ w)
unfolding die
die_if-ok true fault st w h = absurd (cc)
die_if-ok false fault st w h = (refl, sym (ap (λ (r : Result Stop (Unit {0}) × World). r.1) h))

-- A fatal error never goes on.
pub die-ne-ok :
    {A : Type 0} (fault : Fault) (st : ℕ) (w : World) {a : A} {u : World}
    → die fault st w ≡ (ok a, u)
    → ⊥
unfolding die
die-ne-ok {A} fault st w h = cc (ap (λ (r : Result Stop A × World). r.0) h)

pub die_ascii-ne-ok :
    {A : Type 0} (fault : Fault) (st : ℕ) (w : World) {a : A} {u : World}
    → die_ascii fault st w ≡ (ok a, u)
    → ⊥
unfolding die_ascii
die_ascii-ne-ok fault st w h =
    die-ne-ok fault st
      (record w { calls = output_string ∷ output_string ∷ output_string ∷ w.calls }) h
