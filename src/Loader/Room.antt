-- ===== src/Loader/Room.antt =====
-- bootloader/uefi/main.c: the buffers for the memory map have the room that is meant.
use sypas.Base.{
  List, ◌∷◌, ℕ, zero, suc, ◌+◌, ◌*◌, ◌/◌, ◌≤◌, ◌≡◌, ◌≢◌, refl, arith, ap, subst, not, ◌==◌, ◌||◌,
  Option, none, some, Result, false, ok, ◌⊎◌, inl, inr, u64_max, add_ok, mul_ok, sub64, add_ok-some,
  mul_ok-some,
}
use native.Mathlib.Nat.{le-div_iff_mul-le}
use sypas.Loader.Calls.{
  size_query, allocate_pages, get_memory_map, map_keeps_growing, efi_buffer_too_small,
  size_overflow, efi_load_error, pure, die, die_if, efi_error, Stop, Call, MapAnswer, Firmware,
  World, M, ◌>>=◌, >>=-eq-ok, die-ne-ok,
}
use sypas.Loader.Main.{map_buffers}
use sypas.Loader.Buffers.{
  pages_for_size, Buffers, MapSize, size_map, size_output, size_buffers, MapBuffer, try_buffers,
  grow_from,
}

pages_for_size-some :
    (size : ℕ) {pages : ℕ}
    → size ≤ u64_max
    → pages_for_size size ≡ some pages
    → (size ≤ pages * 4096) × (pages * 4096 ≤ size + 4095)
unfolding pages_for_size add_ok
pages_for_size-some size {pages} fits h = ground arith

size_map-parts :
    (dsz mmsize : ℕ) {s : MapSize}
    → size_map dsz mmsize ≡ some s
    → (slack : ℕ) × (mul_ok 32 dsz ≡ some slack)
      × ((requested : ℕ) × (add_ok mmsize slack ≡ some requested)
          × ((pages : ℕ) × (pages_for_size requested ≡ some pages)
              × ((bytes : ℕ) × (mul_ok pages 4096 ≡ some bytes)
                  × ((sum : ℕ) × (add_ok requested (sub64 dsz 1) ≡ some sum)
                      × (s ≡ record {
                        requested = requested;
                        pages = pages;
                        bytes = bytes;
                        descriptor_capacity = sum / dsz;
                      })
                      × (dsz ≢ 0)))))
unfolding size_map
size_map-parts dsz mmsize h = ground arith

size_output-parts :
    (s : MapSize) {b : Buffers}
    → size_output s ≡ some b
    → (map_entries : ℕ) × (mul_ok s.descriptor_capacity 33 ≡ some map_entries)
      × ((cap : ℕ) × (add_ok map_entries 16 ≡ some cap)
          × ((bytes : ℕ) × (mul_ok cap 24 ≡ some bytes)
              × ((pages : ℕ) × (pages_for_size bytes ≡ some pages)
                  × ((total : ℕ) × (add_ok s.pages pages ≡ some total)
                      × (b ≡ record {
                        mm_pages = s.pages;
                        map_bytes = s.bytes;
                        sypas_cap = cap;
                        sypas_pages = pages;
                        total_pages = total;
                      })))))
unfolding size_output
size_output-parts s h = ground arith

size_buffers-parts :
    (dsz mmsize : ℕ) {b : Buffers}
    → size_buffers dsz mmsize ≡ some b
    → (s : MapSize) × (size_map dsz mmsize ≡ some s) × (size_output s ≡ some b)
unfolding size_buffers
size_buffers-parts dsz mmsize h = ground arith

-- The buffers of a round for descriptors of `dsz` bytes in a map of `mmsize` bytes.
pub record IsRoomy (dsz mmsize : ℕ) (b : Buffers) : Type 0 where
  pub map_fits : mmsize + 32 * dsz ≤ b.map_bytes
  pub whole_pages : b.map_bytes ≡ b.mm_pages * 4096
  pub descriptors_fit : (n : ℕ) → n * dsz ≤ mmsize + 32 * dsz → 33 * n + 16 ≤ b.sypas_cap
  pub output_fits : b.map_bytes + 24 * b.sypas_cap ≤ b.total_pages * 4096
  pub small : b.total_pages ≤ u64_max

-- Where the arithmetic on sizes of 64 bits is not refused, the buffers hold the firmware's map with
-- 32 more descriptors, 33 entries for each of those descriptors and 16 more, the output behind the
-- map, within the pages that are asked for: no sum or product has wrapped.
pub size_buffers-IsRoomy :
    (dsz mmsize : ℕ) {b : Buffers}
    → dsz ≤ u64_max
    → mmsize ≤ u64_max
    → size_buffers dsz mmsize ≡ some b
    → IsRoomy dsz mmsize b
size_buffers-IsRoomy dsz mmsize {b} d64 m64 h =
    let (s, sized, output) = size_buffers-parts dsz mmsize h in
    let (slack, e1, (requested, e2, (pages, e3, (bytes, e4, (sum, e5, same, nonzero))))) =
      size_map-parts dsz mmsize sized in
    let (map_entries, f1, (cap, f2, (out_bytes, f3, (out_pages, f4, (total, f5, whole))))) =
      size_output-parts s output in
    let (slack_is, slack64) = mul_ok-some 32 dsz e1 in
    let (requested_is, requested64) = add_ok-some mmsize slack m64 slack64 e2 in
    let (req_fits, req_tight) = pages_for_size-some requested requested64 e3 in
    let (bytes_is, bytes64) = mul_ok-some pages 4096 e4 in
    let (sum_is, sum64) = add_ok-some requested (sub64 dsz 1) requested64 (ground arith) e5 in
    let (entries_is, entries64) = mul_ok-some s.descriptor_capacity 33 f1 in
    let (cap_is, cap64) = add_ok-some map_entries 16 entries64 (omega arith) f2 in
    let (out_is, out64) = mul_ok-some cap 24 f3 in
    let (out_fits, out_tight) = pages_for_size-some out_bytes out64 f4 in
    let (total_is, total64) = add_ok-some s.pages out_pages (ground arith) (ground arith) f5 in
    let pages_same : s.pages ≡ pages = ap (λ (x : MapSize). x.pages) same in
    let bytes_same : s.bytes ≡ bytes = ap (λ (x : MapSize). x.bytes) same in
    let capacity : s.descriptor_capacity ≡ sum / dsz =
      ap (λ (x : MapSize). x.descriptor_capacity) same in
    let out_cap : b.sypas_cap ≡ cap = ap (λ (x : Buffers). x.sypas_cap) whole in
    let out_map : b.map_bytes ≡ s.bytes = ap (λ (x : Buffers). x.map_bytes) whole in
    let out_mm : b.mm_pages ≡ s.pages = ap (λ (x : Buffers). x.mm_pages) whole in
    let out_total : b.total_pages ≡ total = ap (λ (x : Buffers). x.total_pages) whole in
    record {
      map_fits = omega (arith, slack_is, requested_is, req_fits, bytes_is, out_map, bytes_same);
      whole_pages = omega (arith, out_map, out_mm, bytes_same, pages_same, bytes_is);
      descriptors_fit = λ n l.
          let few : n ≤ sum / dsz =
            (le-div_iff_mul-le {k = dsz} {x = n} {y = sum} (ground arith)).1
              (omega (arith, l, slack_is, requested_is, sum_is)) in
          omega (arith, few, capacity, entries_is, cap_is, out_cap);
      output_fits = omega (
        arith, total_is, out_total, out_map, out_cap, bytes_same, bytes_is, pages_same, out_is,
        out_fits,
      );
      small = omega (arith, out_total, total64);
    }

-- What the firmware writes into variables of 64 bits.
pub record IsWord (fw : Firmware) : Type 0 where
  pub sizes : (cs : List Call) → (fw.memory_map cs).size ≤ u64_max
  pub strides : (cs : List Call) → (fw.memory_map cs).descriptor_size ≤ u64_max

-- The buffers have room, and lie at the address that the firmware gave for a request of all their
-- pages, which succeeded; `cs` is what was called up to the map that came into them.
pub record Allotted (fw : Firmware) (m : MapBuffer) (cs : List Call) : Type 0 where
  pub dsz : ℕ
  pub mmsize : ℕ
  pub roomy : IsRoomy dsz mmsize m.buffers
  pub before : List Call
  pub given : efi_error (fw.status (allocate_pages 0 m.buffers.total_pages 0 ∷ before)) ≡ false
  pub address : m.mm_buf ≡ fw.value (allocate_pages 0 m.buffers.total_pages 0 ∷ before)
  pub logged :
      cs ≡ get_memory_map m.buffers.map_bytes ∷ allocate_pages 0 m.buffers.total_pages 0 ∷ before

try_buffers-ok :
    (fw : Firmware) (dsz : ℕ) (b : Buffers) (w : World) {found : Option MapBuffer}
    {answer : MapAnswer} {u : World}
    → try_buffers fw dsz b w ≡ (ok (found, answer), u)
    → let asked = allocate_pages 0 b.total_pages 0 ∷ w.calls in
      ((found ≡ none)
        ⊎ ((found ≡ some (record { buffers = b; mm_buf = fw.value asked }))
            × (efi_error (fw.status asked) ≡ false)
            × (u.calls ≡ get_memory_map b.map_bytes ∷ asked)))
      × (answer ≡ fw.memory_map (get_memory_map b.map_bytes ∷ asked))
unfolding try_buffers die
try_buffers-ok fw dsz b w h = ground arith

-- A round that finds room for its buffers, and has the rest of the rounds find room for theirs.
grow_from-suc-Allotted :
    (n : ℕ) (fw : Firmware) (dsz mmsize : ℕ) (w : World) {m : MapBuffer} {u : World}
    → IsWord fw
    → dsz ≤ u64_max
    → mmsize ≤ u64_max
    → ((dsz' mmsize' : ℕ) (v : World)
        → dsz' ≤ u64_max
        → mmsize' ≤ u64_max
        → grow_from n fw dsz' mmsize' v ≡ (ok m, u)
        → Allotted fw m u.calls)
    → grow_from (suc n) fw dsz mmsize w ≡ (ok m, u)
    → Allotted fw m u.calls
unfolding grow_from
grow_from-suc-Allotted n fw dsz mmsize w {m} {u} words d64 m64 again h =
    go (size_buffers dsz mmsize) refl h
  where
    next : Option MapBuffer × MapAnswer → M MapBuffer
    next (found, answer) = elim found [
      | some m ↦ pure m
      | none ↦ grow_from n fw answer.descriptor_size answer.size
    ]

    after :
        (b : Buffers) (found : Option MapBuffer) (cs : List Call) (v : World)
        → IsRoomy dsz mmsize b
        → (let asked = allocate_pages 0 b.total_pages 0 ∷ w.calls in
            (found ≡ none)
            ⊎ ((found ≡ some (record { buffers = b; mm_buf = fw.value asked }))
                × (efi_error (fw.status asked) ≡ false)
                × (v.calls ≡ get_memory_map b.map_bytes ∷ asked)))
        → next (found, fw.memory_map cs) v ≡ (ok m, u)
        → Allotted fw m u.calls
    after b none cs v roomy o r = again _ _ v (words.strides cs) (words.sizes cs) r
    after b (some found) cs v roomy (inl e) r = absurd (cc e)
    after b (some found) cs v roomy (inr (e, given, logged)) r =
        let asked : List Call = allocate_pages 0 b.total_pages 0 ∷ w.calls in
        let there : v ≡ u = ap (λ (x : Result Stop MapBuffer × World). x.1) r in
        let same : ◌≡◌ {A = MapBuffer} (record { buffers = b; mm_buf = fw.value asked }) m =
          cc (e, r) in
        subst (λ x. Allotted fw x u.calls) same
          (subst
            (λ (x : World). Allotted fw (record { buffers = b; mm_buf = fw.value asked }) x.calls)
            there
            (record {
              dsz = dsz;
              mmsize = mmsize;
              roomy = roomy;
              before = w.calls;
              given = given;
              address = refl;
              logged = logged;
            }))

    go :
        (o : Option Buffers)
        → size_buffers dsz mmsize ≡ o
        → ((elim o as (λ _. M MapBuffer) [
          | none ↦ die size_overflow efi_load_error
          | some b ↦ try_buffers fw dsz b >>= next
        ])
            w)
          ≡ (ok m, u)
        → Allotted fw m u.calls
    go none e g = absurd (die-ne-ok size_overflow efi_load_error w {a = m} {u = u} g)
    go (some b) e g =
        let ((found, answer), v, tried, rest) = >>=-eq-ok (try_buffers fw dsz b) next w g in
        let asked : List Call = allocate_pages 0 b.total_pages 0 ∷ w.calls in
        let (outcome, answered) = try_buffers-ok fw dsz b w tried in
        after b found (get_memory_map b.map_bytes ∷ asked) v
          (size_buffers-IsRoomy dsz mmsize d64 m64 e) outcome
          (subst (λ x. next (found, x) v ≡ (ok m, u)) answered rest)

grow_from-Allotted :
    (n : ℕ) (fw : Firmware) (dsz mmsize : ℕ) (w : World) {m : MapBuffer} {u : World}
    → IsWord fw
    → dsz ≤ u64_max
    → mmsize ≤ u64_max
    → grow_from n fw dsz mmsize w ≡ (ok m, u)
    → Allotted fw m u.calls
unfolding grow_from
grow_from-Allotted zero fw dsz mmsize w {m} {u} words d64 m64 h =
    absurd (die-ne-ok map_keeps_growing efi_buffer_too_small w {a = m} {u = u} h)
grow_from-Allotted (suc n) fw dsz mmsize w {m} {u} words d64 m64 h =
    grow_from-suc-Allotted n fw dsz mmsize w words d64 m64
      (λ dsz' mmsize' v d l g. grow_from-Allotted n fw dsz' mmsize' v words d l g) h

-- The buffers that `efi_main` goes on with.
pub map_buffers-Allotted :
    (fw : Firmware) (w : World) {m : MapBuffer} {u : World}
    → IsWord fw
    → map_buffers fw w ≡ (ok m, u)
    → Allotted fw m u.calls
unfolding map_buffers
map_buffers-Allotted fw w {m} {u} words h =
    let v : World = record w { calls = get_memory_map 0 ∷ w.calls } in
    let answer : MapAnswer = fw.memory_map v.calls in
    let (a, v', guarded, rest) =
      >>=-eq-ok
        (die_if (not (fw.status v.calls == efi_buffer_too_small) || answer.descriptor_size == 0)
          size_query (fw.status v.calls))
        (λ _. grow_from 4 fw answer.descriptor_size answer.size) v h in
    grow_from-Allotted 4 fw answer.descriptor_size answer.size v' words (words.strides v.calls)
      (words.sizes v.calls) rest
