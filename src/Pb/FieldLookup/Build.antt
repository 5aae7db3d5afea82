-- ===== src/Pb/FieldLookup/Build.antt =====
-- How a table of src/pb/decoder.h is built: `add_field` keeps it fresh, and which numbers
-- `find_packed_fields` of src/pb/decoder.cpp chooses.
use google_protobuf_dynamic.Common.{
  ℕ, zero, suc, ◌+◌, ◌*◌, ◌/◌, ◌≤◌, ◌<◌, ◌≡◌, refl, ◌⊎◌, inl, inr, true, none, some, List, [], ◌∷◌,
  ◌==◌, if◌then◌else◌, length, get_elem?, take, arith, ◌||◌, ◌∙◌, subst, ap, sym,
}
use mathlib.Core.Path.{subst₂}
use native.Mathlib.Nat.{div-add-mod}
use google_protobuf_dynamic.Common.Sorting.{sort, last, contains, Distinct}
use google_protobuf_dynamic.Pb.Descriptor.{Descriptor, find, insert, find_entry}
use google_protobuf_dynamic.Pb.FieldLookup.{
  Entry, DecoderFieldData, create, add_field, next_included, scan_packed, find_packed_fields, keys,
}
use google_protobuf_dynamic.Pb.FieldLookup.Laws.{IsFresh, HasDescriptors, is_some}

contains-keys-insert :
    {V : Type 0} (j k : ℕ) (v : V) (m : List (ℕ × V))
    → contains j (keys (insert k v m)) ≡ (j == k || contains j (keys m))
unfolding keys insert
contains-keys-insert j k v [] = refl
contains-keys-insert j k v ((i, w) ∷ m) = ground (arith, contains-keys-insert j k v m)

Distinct-insert :
    {V : Type 0} (k : ℕ) (v : V) (m : List (ℕ × V))
    → Distinct (keys m)
    → Distinct (keys (insert k v m))
unfolding keys insert
Distinct-insert k v [] d = (refl, tt)
Distinct-insert k v ((i, w) ∷ m) d =
    ground (arith, Distinct-insert k v m, contains-keys-insert i k v m)

find-insert :
    {V : Type 0} (j k : ℕ) (v : V) (m : List (ℕ × V))
    → find j (insert k v m)
      ≡ (if is_some (find j m) then find j m else (if k == j then some v else none))
unfolding find insert
find-insert j k v [] = ground arith
find-insert j k v ((i, w) ∷ m) = ground (arith, find-insert j k v m)

module _ {T : Type 0} where
  pub create-IsFresh : (descriptor : Descriptor) → IsFresh (create {T = T} descriptor)
  unfolding create keys
  create-IsFresh descriptor = record { no_vector = refl; no_top = refl; distinct = tt }

  pub add_field-IsFresh :
      (field : ℕ) (value : T) (d : DecoderFieldData T)
      → IsFresh d
      → IsFresh (add_field field value d)
  unfolding add_field
  add_field-IsFresh field value d fresh = ground (
    arith,
    Distinct-insert field (record { field = find_entry d.descriptor field; value = value })
        d.sparse_fields,
  )

  -- Adding a field that the descriptor knows keeps the table's entries within the descriptor.
  pub add_field-HasDescriptors :
      (field : ℕ) (value : T) (d : DecoderFieldData T)
      → is_some (find_entry d.descriptor field) ≡ true
      → HasDescriptors d
      → HasDescriptors (add_field field value d)
  unfolding add_field
  add_field-HasDescriptors field value d h known n e found =
      let entry : Entry T = record { field = find_entry d.descriptor field; value = value } in
      ground (arith, known n e, find-insert n field entry d.sparse_fields)

-- A vector that ends at `field` and holds `count` fields: all are below 70, or 76 percent are used.
abbrev pub IsDense : (field count : ℕ) → Type 0
IsDense field count = (field < 70) ⊎ (76 * (field + 1) ≤ 100 * count)

div_above : (n d q : ℕ) → q < n / (d + 1) → (q + 1) * (d + 1) ≤ n
div_above n d q h = grind (arith, div-add-mod n (d + 1))

next_included-cases :
    (field i included : ℕ)
    → (next_included field i included ≡ included)
      ⊎ ((next_included field i included ≡ i + 1) × IsDense field (i + 1))
unfolding next_included
next_included-cases field i included = ground (arith, div_above ((i + 1) * 100) field 75)

-- The loop keeps `included`, or stops it behind an element that makes the vector dense.
scan_packed-cases :
    (xs : List ℕ) (i included : ℕ)
    → (scan_packed xs i included ≡ included)
      ⊎ ((j : ℕ) × (field : ℕ) × (get_elem? xs j ≡ some field)
          × (scan_packed xs i included ≡ i + j + 1)
          × IsDense field (i + j + 1))
unfolding scan_packed
scan_packed-cases [] i included = inl refl
scan_packed-cases (field ∷ rest) i included =
    elim (scan_packed-cases rest (i + 1) (next_included field i included)) [
      | inl same ↦ elim (next_included-cases field i included) [
        | inl kept ↦ inl (same ∙ kept)
        | inr (moved, dense) ↦
            inr (
              0,
              field,
              refl,
              same ∙ moved ∙ omega arith,
              subst (IsDense field) (omega arith) dense,
            )
      ]
      | inr (j, f, at, e, dense) ↦
          inr (suc j, f, at, e ∙ omega arith, subst (IsDense f) (omega arith) dense)
    ]

-- The prefix that ends at index `j`.
take-last :
    (xs : List ℕ) (j field : ℕ)
    → get_elem? xs j ≡ some field
    → (x : ℕ) × (front : List ℕ) × (take (suc j) xs ≡ x ∷ front)
      × (last x front ≡ field)
      × (length front ≡ j)
unfolding last
take-last [] j field h = cc
take-last (y ∷ ys) zero field h = (y, [], refl, ground arith, refl)
take-last (y ∷ ys) (suc j) field h =
    let (x, front, e, l, n) = take-last ys j field h in (y, x ∷ front, rw e, l, rw n)

-- The numbers that are chosen end below 70, or are at least 76 percent of the slots up to the last.
pub find_packed_fields-IsDense :
    (all_fields : List ℕ) (x : ℕ) (front : List ℕ)
    → find_packed_fields all_fields ≡ x ∷ front
    → IsDense (last x front) (length (x ∷ front))
unfolding find_packed_fields
find_packed_fields-IsDense all_fields x front e = elim (scan_packed-cases (sort all_fields) 0 0) [
  | inl none_packed ↦ absurd (cc (ap (λ (c : ℕ). take c (sort all_fields)) none_packed))
  | inr (j, field, at, c, dense) ↦
      let (y, rest, p, l, n) = take-last (sort all_fields) j field at in
      let chosen : scan_packed (sort all_fields) 0 0 ≡ suc j = c ∙ omega arith in
      let same : y ∷ rest ≡ x ∷ front =
        sym p ∙ ap (λ (c : ℕ). take c (sort all_fields)) (sym chosen) ∙ e in
      subst₂ IsDense {x = field} {y = last x front} {u = 0 + j + 1} {v = length (x ∷ front)}
        (ground arith) (ground arith) dense
]
