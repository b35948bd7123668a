-- ===== src/MemoryMap/Sorted.antt =====
-- bootloader/uefi/memory_map.c: `sort_descriptors` sorts. An array is seen as the part before an index,
-- backwards, and the rest.
use sypas.Base.{
  ℕ, suc, ◌+◌, ◌-◌, ◌≤◌, ◌≡◌, refl, arith, leb, if◌then◌else◌, List, [], ◌∷◌, length, get_or, set,
  ◌∙◌, Bool-cases, inl, inr, leb→le, leb→gt, ap, ◌++◌, All, All-map,
}
use mathlib.Core.List.{Perm, perm_middle, append-nil}
use mathlib.Core.List.Perm
use sypas.MemoryMap.Types.{Descriptor}
use sypas.MemoryMap.Sort.{no_descriptor, shift, insert_at, sort_from, sort_descriptors}

-- The array as its first part backwards, the nearest item first, and the rest.
abbrev onto : List Descriptor → List Descriptor → List Descriptor
onto [] rest = rest
onto (d ∷ front) rest = onto front (d ∷ rest)

get_or-onto :
    (front rest : List Descriptor) (k : ℕ)
    → get_or (onto front rest) (k + length front) no_descriptor ≡ get_or rest k no_descriptor
get_or-onto [] rest k = ap (λ i. get_or rest i no_descriptor) (omega arith)
get_or-onto (d ∷ front) rest k =
    ap (λ i. get_or (onto front (d ∷ rest)) i no_descriptor) (omega arith)
    ∙ get_or-onto front (d ∷ rest) (suc k)

set-onto :
    (front rest : List Descriptor) (k : ℕ) (v : Descriptor)
    → set (onto front rest) (k + length front) v ≡ onto front (set rest k v)
set-onto [] rest k v = ap (λ i. set rest i v) (omega arith)
set-onto (d ∷ front) rest k v =
    ap (λ i. set (onto front (d ∷ rest)) i v) (omega arith) ∙ set-onto front (d ∷ rest) (suc k) v

-- Insertion into a backwards sorted list, as a specification.
abbrev insert_back : Descriptor → List Descriptor → List Descriptor
insert_back t [] = t ∷ []
insert_back t (d ∷ front) =
    if leb d.physical_start t.physical_start then t ∷ d ∷ front else d ∷ insert_back t front

abbrev put_key : Descriptor → ℕ × List Descriptor → List Descriptor
put_key t (j, items) = set items j t

shift-suc :
    (j key : ℕ) (items : List Descriptor) (v : Descriptor)
    → get_or items j no_descriptor ≡ v
    → shift (suc j) key items
      ≡ (if leb v.physical_start key then (suc j, items) else shift j key (set items (suc j) v))
unfolding shift
shift-suc j key items v e = ground (arith, e)

-- The loop with a stale item `d` at the hole.
shift-onto :
    (t d : Descriptor) (front rest : List Descriptor)
    → put_key t (shift (length front) t.physical_start (onto front (d ∷ rest)))
      ≡ onto (insert_back t front) rest
unfolding shift
shift-onto t d [] rest = refl
shift-onto t d (p ∷ front) rest =
    ap (put_key t) (shift-suc (length front) key (onto front (p ∷ d ∷ rest)) p read)
    ∙ step (shift-onto t p front (p ∷ rest))
  where
    key : ℕ
    key = t.physical_start

    read : get_or (onto front (p ∷ d ∷ rest)) (length front) no_descriptor ≡ p
    read =
        ap (λ i. get_or (onto front (p ∷ d ∷ rest)) i no_descriptor) (omega arith)
        ∙ get_or-onto front (p ∷ d ∷ rest) 0

    write :
        (v : Descriptor)
        → set (onto front (p ∷ d ∷ rest)) (suc (length front)) v ≡ onto front (p ∷ v ∷ rest)
    write v =
        ap (λ i. set (onto front (p ∷ d ∷ rest)) i v) (omega arith)
        ∙ set-onto front (p ∷ d ∷ rest) 1 v

    go_on :
        put_key t (shift (length front) key (onto front (p ∷ p ∷ rest)))
          ≡ onto (insert_back t front) (p ∷ rest)
        → put_key t
            (shift (length front) key (set (onto front (p ∷ d ∷ rest)) (suc (length front)) p))
          ≡ onto (p ∷ insert_back t front) rest
    go_on ih = ap (λ items. put_key t (shift (length front) key items)) (write p) ∙ ih

    step :
        put_key t (shift (length front) key (onto front (p ∷ p ∷ rest)))
          ≡ onto (insert_back t front) (p ∷ rest)
        → put_key t (
            if leb p.physical_start key
            then (suc (length front), onto front (p ∷ d ∷ rest))
            else shift (length front) key (set (onto front (p ∷ d ∷ rest)) (suc (length front)) p))
          ≡ onto (insert_back t (p ∷ front)) rest
    step ih = elim (Bool-cases (leb p.physical_start key)) [
      | inl e ↦ rw e (write t)
      | inr e ↦ rw e (go_on ih)
    ]

insert_at-onto :
    (t : Descriptor) (front rest : List Descriptor)
    → insert_at (length front) (onto front (t ∷ rest)) ≡ onto (insert_back t front) rest
unfolding insert_at
insert_at-onto t front rest =
    ap (λ x. put_key x (shift (length front) x.physical_start (onto front (t ∷ rest)))) read
    ∙ shift-onto t t front rest
  where
    read : get_or (onto front (t ∷ rest)) (length front) no_descriptor ≡ t
    read =
        ap (λ i. get_or (onto front (t ∷ rest)) i no_descriptor) (omega arith)
        ∙ get_or-onto front (t ∷ rest) 0

-- All the rounds, as a specification.
abbrev insert_all : List Descriptor → List Descriptor → List Descriptor
insert_all front [] = front
insert_all front (t ∷ rest) = insert_all (insert_back t front) rest

length-insert_back :
    (t : Descriptor) (front : List Descriptor) → length (insert_back t front) ≡ suc (length front)
length-insert_back t [] = refl
length-insert_back t (d ∷ front) = ground (arith, length-insert_back t front)

sort_from-onto :
    (front rest : List Descriptor)
    → sort_from (length rest) (length front) (onto front rest) ≡ onto (insert_all front rest) []
unfolding sort_from
sort_from-onto front [] = refl
sort_from-onto front (t ∷ rest) =
    ap (λ items. sort_from (length rest) (length front + 1) items) (insert_at-onto t front rest)
    ∙ ap (λ i. sort_from (length rest) i (onto (insert_back t front) rest))
        (omega (arith, length-insert_back t front))
    ∙ sort_from-onto (insert_back t front) rest

sort_descriptors-onto :
    (items : List Descriptor) → sort_descriptors items ≡ onto (insert_all [] items) []
unfolding sort_descriptors sort_from
sort_descriptors-onto [] = refl
sort_descriptors-onto (t ∷ rest) =
    let n : length (t ∷ rest) - 1 ≡ length rest = omega arith in
    ap (λ n. sort_from n 1 (t ∷ rest)) n ∙ sort_from-onto (t ∷ []) rest

-- No item starts before an earlier one.
abbrev pub IsSorted : List Descriptor → Type 0
IsSorted [] = Unit {0}
IsSorted (d ∷ ds) = All (λ e. d.physical_start ≤ e.physical_start) ds × IsSorted ds

abbrev IsFalling : List Descriptor → Type 0
IsFalling [] = Unit {0}
IsFalling (d ∷ ds) = All (λ e. e.physical_start ≤ d.physical_start) ds × IsFalling ds

All-insert_back {κ} :
    (P : Descriptor → Type κ) (t : Descriptor) (front : List Descriptor)
    → P t
    → All P front
    → All P (insert_back t front)
All-insert_back P t [] p h = (p, tt)
All-insert_back P t (d ∷ front) p (q, h) =
    elim (Bool-cases (leb d.physical_start t.physical_start)) [
      | inl e ↦ rw e (p, (q, h))
      | inr e ↦ rw e (q, All-insert_back P t front p h)
    ]

insert_back-IsFalling :
    (t : Descriptor) (front : List Descriptor) → IsFalling front → IsFalling (insert_back t front)
insert_back-IsFalling t [] h = (tt, tt)
insert_back-IsFalling t (d ∷ front) (h, hs) =
    elim (Bool-cases (leb d.physical_start t.physical_start)) [
      | inl e ↦
          let le = leb→le d.physical_start t.physical_start e in
          rw e ((le, All-map _ _ front (λ x l. omega (arith, le)) h), (h, hs))
      | inr e ↦
          let lt = leb→gt d.physical_start t.physical_start e in
          rw e (
            All-insert_back (λ x. x.physical_start ≤ d.physical_start) t front (omega (arith, lt))
                h,
            insert_back-IsFalling t front hs,
          )
    ]

insert_all-IsFalling :
    (front rest : List Descriptor) → IsFalling front → IsFalling (insert_all front rest)
insert_all-IsFalling front [] h = h
insert_all-IsFalling front (t ∷ rest) h =
    insert_all-IsFalling (insert_back t front) rest (insert_back-IsFalling t front h)

onto-IsSorted :
    (front rest : List Descriptor)
    → IsFalling front
    → IsSorted rest
    → All (λ d. All (λ e. d.physical_start ≤ e.physical_start) rest) front
    → IsSorted (onto front rest)
onto-IsSorted [] rest h k b = k
onto-IsSorted (d ∷ front) rest (h, hs) k (b, bs) =
    onto-IsSorted front (d ∷ rest) hs (b, k) (both front h bs)
  where
    both :
        (xs : List Descriptor)
        → All (λ e. e.physical_start ≤ d.physical_start) xs
        → All (λ x. All (λ e. x.physical_start ≤ e.physical_start) rest) xs
        → All (λ x. All (λ e. x.physical_start ≤ e.physical_start) (d ∷ rest)) xs
    both [] p q = tt
    both (x ∷ xs) (p, ps) (q, qs) = ((p, q), both xs ps qs)

nothing-below :
    (xs : List Descriptor)
    → All (λ (d : Descriptor). All (λ (e : Descriptor). d.physical_start ≤ e.physical_start) []) xs
nothing-below [] = tt
nothing-below (x ∷ xs) = (tt, nothing-below xs)

insert-perm : (t : Descriptor) (front : List Descriptor) → Perm (insert_back t front) (t ∷ front)
insert-perm t [] = Perm.refl _
insert-perm t (d ∷ front) = elim (Bool-cases (leb d.physical_start t.physical_start)) [
  | inl e ↦ rw e (Perm.refl _)
  | inr e ↦ rw e (Perm.trans (Perm.cons d (insert-perm t front)) (Perm.swap t d front))
]

insert_all-perm : (front rest : List Descriptor) → Perm (insert_all front rest) (front ++ rest)
insert_all-perm front [] = rw append-nil (Perm.refl _)
insert_all-perm front (t ∷ rest) =
    Perm.trans (insert_all-perm (insert_back t front) rest) (
      Perm.trans (Perm.append_right rest (insert-perm t front))
        (Perm.symm (perm_middle front rest)))

onto-perm : (front rest : List Descriptor) → Perm (onto front rest) (front ++ rest)
onto-perm [] rest = Perm.refl _
onto-perm (d ∷ front) rest = Perm.trans (onto-perm front (d ∷ rest)) (perm_middle front rest)

-- `sort_descriptors` leaves the same descriptors, each as often as before, in the order of their
-- physical start.
pub sort_descriptors-IsSorted :
    (items : List Descriptor)
    → IsSorted (sort_descriptors items) × Perm (sort_descriptors items) items
sort_descriptors-IsSorted items =
    let front = insert_all [] items in
    rw (sort_descriptors-onto items) (
      onto-IsSorted front [] (insert_all-IsFalling [] items tt) tt (nothing-below front),
      Perm.trans (onto-perm front []) (rw append-nil (insert_all-perm [] items)),
    )
