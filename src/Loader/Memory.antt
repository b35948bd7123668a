-- ===== src/Loader/Memory.antt =====
-- bootloader/uefi/main.c and kernel/mm/pmm.c: the kernel's memory, as the loader hands it over.
use sypas.Base.{Among, ℕ, ◌+◌, ◌≤◌, ◌<◌, ◌≡◌, refl, List, ◌∷◌, ok}
use sypas.BootProto.{MemmapEntry}
use sypas.BootProto.MemType
use mathlib.Core.List.{Mem}
use sypas.MemoryMap.Types.{Descriptor}
use sypas.MemoryMap.Classified.{Spans, translate-usable}
use sypas.Loader.Calls.{Call, get_memory_map, exit_boot_services, MapAnswer, World}
use sypas.Loader.Exit.{input_of}
use sypas.Loader.Main.{Platform, Jump, efi_main}
use sypas.Loader.Room.{IsWord}
use sypas.Loader.Handoff.{efi_main-Handoff}

-- Where the firmware answers within 64 bits and the loader has jumped, an address that its map
-- offers as usable lies in conventional memory of the map that the firmware had given before the
-- last call.
pub efi_main-usable :
    (fuel : ℕ) (p : Platform) (w : World) (e : MemmapEntry) (a : ℕ) {j : Jump} {u : World}
    → IsWord p.firmware
    → efi_main fuel p w ≡ (ok j, u)
    → Among e j.entries
    → e.type ≡ MemType.usable
    → e.base ≤ a
    → a < e.base + e.length
    → (last : Call) × ((before : List Call) × ((d : Descriptor) × (u.calls ≡ last ∷ before)
          × Mem d (p.firmware.memory_map before).descriptors
          × (d.type ≡ 7)
          × Spans d a))
efi_main-usable fuel p w e a words h among type l r =
    let handoff = efi_main-Handoff fuel p w words h in
    let left = handoff.left in
    let asked : List Call = get_memory_map handoff.buffer.buffers.map_bytes ∷ left.before in
    let answer : MapAnswer = p.firmware.memory_map asked in
    let (d, (m, conventional, spans)) =
      translate-usable fuel (input_of handoff.plan handoff.buffer answer) handoff.plan e a refl
        left.translated among type l r in
    (exit_boot_services answer.map_key, (asked, (d, left.keyed, m, conventional, spans)))
