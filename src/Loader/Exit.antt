-- ===== src/Loader/Exit.antt =====
-- bootloader/uefi/main.c: the loop of `efi_main` that takes the final memory map, translates it and
-- leaves the boot services.
use sypas.Base.{
  ℕ, zero, suc, ◌+◌, ◌%◌, ◌^◌, Bool, true, false, if◌then◌else◌, List, ◌∷◌, Option, none, some, ok,
  err,
}
use sypas.BootProto.{MemmapEntry}
use sypas.Elf.Format.{LoadPlan}
use sypas.MemoryMap.Types.{MapError, range_overlap, out_of_fuel}
use sypas.MemoryMap.Translate.{MapInput, translate}
use sypas.Loader.Calls.{
  Firmware, output_string, get_memory_map, exit_boot_services, MapAnswer, map_rejected,
  get_memory_map_failed, halted, endless, M, ◌>>=◌, ◌>>◌, pure, stop, call, map_of, efi_error,
  efi_load_error, die, die_ascii,
}
use sypas.Loader.Buffers.{MapBuffer}

-- A refused map; its nine outputs come first where ranges overlap. After an attempt to leave the boot
-- services no call is made.
unfoldable pub reject : {A : Type 0} → Bool → MapError → M A
unfolding die die_ascii
reject first out_of_fuel w = stop endless w
reject false e w = stop halted w
reject true (range_overlap d) w =
    die_ascii (map_rejected (range_overlap d)) efi_load_error (record w {
      calls =
          output_string ∷ output_string ∷ output_string ∷ output_string ∷ output_string
          ∷ output_string ∷ output_string ∷ output_string ∷ output_string ∷ w.calls;
    })
reject true e w = die_ascii (map_rejected e) efi_load_error w

-- The same for a map that the firmware does not give.
unfoldable pub refuse_if : Bool → Bool → ℕ → M (Unit {0})
unfolding die
refuse_if false first st = pure tt
refuse_if true true st = die get_memory_map_failed st
refuse_if true false st = stop halted

-- Where the entries go, behind the firmware's map.
abbrev pub output_of : MapBuffer → ℕ
output_of b = (b.mm_buf + b.buffers.map_bytes) % 2 ^ 64

-- What the translation is called with; its count is a local variable, at an address that is not null.
abbrev pub input_of : LoadPlan → MapBuffer → MapAnswer → MapInput
input_of plan b answer = record {
  efi_map = b.mm_buf;
  descriptors = answer.descriptors;
  trailing = answer.trailing;
  descriptor_size = answer.descriptor_size;
  kernel = some plan;
  out = output_of b;
  out_capacity = b.buffers.sypas_cap;
  out_count = 1;
}

-- The attempt with a map that is translated: its entries, or `none` where the firmware refuses.
unfoldable pub leave : Firmware → MapAnswer → List MemmapEntry → M (Option (List MemmapEntry))
leave fw answer entries = do
  st ← call fw (exit_boot_services answer.map_key)
  pure (if efi_error st then none else some entries)

unfoldable pub exit_round :
    ℕ → Firmware → LoadPlan → MapBuffer → Bool → M (Option (List MemmapEntry))
exit_round fuel fw plan b first = do
  st ← call fw (get_memory_map b.buffers.map_bytes)
  answer ← map_of fw
  refuse_if (efi_error st) first st
  elim (translate fuel (input_of plan b answer)) [
    | err e ↦ reject first e
    | ok entries ↦ leave fw answer entries
  ]

-- So many attempts; `first` is that none has been made.
unfoldable pub exit_from : ℕ → ℕ → Firmware → LoadPlan → MapBuffer → Bool → M (List MemmapEntry)
exit_from zero fuel fw plan b first = stop halted
exit_from (suc n) fuel fw plan b first = do
  found ← exit_round fuel fw plan b first
  elim found [ some entries ↦ pure entries | none ↦ exit_from n fuel fw plan b false ]
