-- ===== src/Pb/FieldLookup/Dense.antt =====
-- How dense the vector of DecoderFieldData of src/pb/decoder.h is after `optimize_lookup`.
use google_protobuf_dynamic.Common.{
  ℕ, zero, suc, ◌+◌, ◌≤◌, ◌<◌, ◌≡◌, refl, sym, ◌∙◌, ap, subst, ◌⊎◌, inl, inr, true, false, some,
  List, [], ◌∷◌, ◌==◌, ltb, leb, if◌then◌else◌, length, get_elem?, set, take, replicate, arith,
  Option-cases, Bool-cases, length-set, get_elem?-set_ne, get_elem?-replicate, length-replicate,
}
use mathlib.Core.Path.{subst₂}
use mathlib.Core.Option.{some-injective}
use google_protobuf_dynamic.Common.Sorting.{
  sort, last, contains, Distinct, Sorted, AtLeast, insert_sorted, contains-sort, sort-Sorted,
  sort-Distinct, take-Distinct, contains-take, contains-take_high,
}
use google_protobuf_dynamic.Pb.Descriptor.{find}
use google_protobuf_dynamic.Pb.FieldLookup.{
  Entry, DecoderFieldData, scan_packed, keys, unset, entry_or_unset, move_one, move_packed,
  find_packed_fields, next_included, optimize_with, optimize_lookup, resize,
}
use google_protobuf_dynamic.Pb.FieldLookup.Laws.{
  is_some, contains-keys, find-erase_ne, IsFresh, HasDescriptors, resize-nil, move_packed-top,
}
use google_protobuf_dynamic.Pb.FieldLookup.Build.{IsDense, find_packed_fields-IsDense}

module _ {T : Type 0} where
  -- The number of slots that hold a field.
  abbrev pub used : List (Entry T) → ℕ
  used [] = 0
  used (e ∷ slots) = (if is_some e.field then 1 else 0) + used slots

  used-replicate : (n : ℕ) (e : Entry T) → is_some e.field ≡ false → used (replicate n e) ≡ 0
  used-replicate zero e h = refl
  used-replicate (suc n) e h = rw (h, used-replicate n e h) refl

  -- A field that is put into a slot without one.
  used-set :
      (slots : List (Entry T)) (i : ℕ) (old new : Entry T)
      → get_elem? slots i ≡ some old
      → is_some old.field ≡ false
      → is_some new.field ≡ true
      → used (set slots i new) ≡ suc (used slots)
  used-set [] i old new at e f = cc at
  used-set (x ∷ slots) zero old new at e f =
      rw (f, subst (λ (y : Entry T). is_some y.field ≡ false) (sym (some-injective _ _ at)) e)
        (omega arith)
  used-set (x ∷ slots) (suc i) old new at e f = omega (arith, used-set slots i old new at e f)

module _ {T : Type 0} (blank : T) where
  -- The number's slot has no field yet, and the map has the field.
  abbrev Waits : DecoderFieldData T → List ℕ → Type 0
  Waits d ids =
      (n : ℕ)
      → contains n ids ≡ true
      → (get_elem? d.packed_fields n ≡ some (unset blank))
        × (is_some (entry_or_unset blank (find n d.sparse_fields)).field ≡ true)

  member_ne :
      (id : ℕ) (ids : List ℕ) (n : ℕ)
      → contains id ids ≡ false
      → contains n ids ≡ true
      → (n == id) ≡ false
  member_ne id ids n new there = elim (Bool-cases (n == id)) [
    | inl same ↦
        let e : n ≡ id = ground (arith, same) in cc (new, there, ap (λ m. contains m ids) e)
    | inr other ↦ other
  ]

  move_one-Waits :
      (id : ℕ) (ids : List ℕ) (d : DecoderFieldData T)
      → contains id ids ≡ false
      → Waits d (id ∷ ids)
      → Waits (move_one blank id d) ids
  unfolding move_one
  move_one-Waits id ids d new waits n there =
      let apart : (n == id) ≡ false = member_ne id ids n new there in
      let (slot, field) = waits n (ground (arith, there)) in
      (
        get_elem?-set_ne d.packed_fields _
              (λ e. cc (new, there, ap (λ m. contains m ids) {x = id} {y = n} e))
            ∙ slot,
        rw (find-erase_ne n id d.sparse_fields apart) field,
      )

  used-move_packed :
      (ids : List ℕ) (d : DecoderFieldData T)
      → Distinct ids
      → Waits d ids
      → used (move_packed blank ids d).packed_fields ≡ length ids + used d.packed_fields
  unfolding move_packed
  used-move_packed [] d distinct waits = omega arith
  used-move_packed (id ∷ ids) d (new, distinct) waits =
      let (slot, field) = waits id (ground arith) in
      let step : used (move_one blank id d).packed_fields ≡ suc (used d.packed_fields) =
        unfold move_one in used-set d.packed_fields id (unset blank) _ slot refl field in
      omega (
        arith,
        step,
        used-move_packed ids (move_one blank id d) distinct (move_one-Waits id ids d new waits),
      )

  length-move_packed :
      (ids : List ℕ) (d : DecoderFieldData T)
      → length (move_packed blank ids d).packed_fields ≡ length d.packed_fields
  unfolding move_packed move_one
  length-move_packed [] d = refl
  length-move_packed (id ∷ ids) d = length-move_packed ids _ ∙ length-set d.packed_fields id _

self_in : (x : ℕ) (l : List ℕ) → contains x (x ∷ l) ≡ true
self_in x l = ground arith

no_keys : (l : List ℕ) → ((k : ℕ) → contains k l ≡ false) → AtLeast 70 l
no_keys [] h = tt
no_keys (x ∷ l) h = cc (h x, self_in x l)

member : (n c x : ℕ) (xs : List ℕ) → contains n (x ∷ take c xs) ≡ true → contains n (x ∷ xs) ≡ true
member n c x xs there = elim (Bool-cases (contains n (x ∷ xs))) [
  | inl all ↦ all
  | inr missing ↦ cc (there, contains-take n (suc c) (x ∷ xs) missing)
]

scan_packed-pos : (xs : List ℕ) (i included : ℕ) → 0 < included → 0 < scan_packed xs i included
unfolding scan_packed next_included
scan_packed-pos [] i included h = h
scan_packed-pos (field ∷ rest) i included h =
    scan_packed-pos rest (i + 1) (next_included field i included) (ground (arith, h))

scan_packed-AtLeast : (xs : List ℕ) (i included : ℕ) → scan_packed xs i included ≡ 0 → AtLeast 70 xs
unfolding scan_packed
scan_packed-AtLeast [] i included e = tt
scan_packed-AtLeast (field ∷ rest) i included e = (
  elim (Bool-cases (ltb field 70)) [
    | inl low ↦ absurd (
        omega (
          arith,
          e,
          scan_packed-pos rest (i + 1) (next_included field i included)
              (unfold next_included in rw low (omega arith)),
        ))
    | inr high ↦ ground (arith, high)
  ],
  scan_packed-AtLeast rest (i + 1) (next_included field i included) e,
)

AtLeast-inserted : (k x : ℕ) (xs : List ℕ) → AtLeast k (insert_sorted x xs) → (k ≤ x) × AtLeast k xs
unfolding insert_sorted
AtLeast-inserted k x [] a = (a.0, tt)
AtLeast-inserted k x (y ∷ ys) a = elim (Bool-cases (leb x y)) [
  | inl low ↦ rw low at a
  | inr high ↦
      let (first, rest) = rw high at a in
      let (bound, others) = AtLeast-inserted k x ys rest in (bound, (first, others))
]

AtLeast-sort : (k : ℕ) (xs : List ℕ) → AtLeast k (sort xs) → AtLeast k xs
unfolding sort
AtLeast-sort k [] a = tt
AtLeast-sort k (x ∷ xs) a =
    let (bound, rest) = AtLeast-inserted k x (sort xs) a in (bound, AtLeast-sort k xs rest)

-- After: the vector is empty, where all numbers of the table before are 70 or more; or it ends at the
-- number that is kept as its top and is dense.
abbrev pub DenseVector : {T : Type 0} (before after : DecoderFieldData T) → Type 0
DenseVector before d =
    ((d.packed_fields ≡ []) × AtLeast 70 (keys before.sparse_fields))
    ⊎ ((length d.packed_fields ≡ d.top_packed_field + 1)
        × IsDense d.top_packed_field (used d.packed_fields))

abbrev DenseList : List ℕ → Type 0
DenseList [] = Unit
DenseList (x ∷ front) = IsDense (last x front) (length (x ∷ front))

dense_list :
    (l : List ℕ)
    → ((x : ℕ) (front : List ℕ) → l ≡ x ∷ front → IsDense (last x front) (length (x ∷ front)))
    → DenseList l
dense_list [] h = tt
dense_list (x ∷ front) h = h x front refl

module _ {T : Type 0} (blank : T) (d : DecoderFieldData T) (fresh : IsFresh d) where
  -- The table once the vector has its size.
  abbrev sized : ℕ → DecoderFieldData T
  sized top = record d {
    top_packed_field = top;
    packed_fields = resize (top + 1) (unset blank) d.packed_fields;
  }

  sized-blank : (top : ℕ) → (sized top).packed_fields ≡ replicate (top + 1) (unset blank)
  sized-blank top = rw (fresh.no_vector, resize-nil) refl

  known_field :
      (n : ℕ)
      → HasDescriptors d
      → is_some (find n d.sparse_fields) ≡ true
      → is_some (entry_or_unset blank (find n d.sparse_fields)).field ≡ true
  known_field n known there = elim (Option-cases (find n d.sparse_fields)) [
    | inl missing ↦ cc (ap is_some missing, there)
    | inr (e, found) ↦ rw found (known n e found)
  ]

  packed-DenseVector :
      (c x : ℕ) (xs : List ℕ)
      → HasDescriptors d
      → Sorted (x ∷ xs)
      → Distinct (x ∷ xs)
      → ((k : ℕ) → contains k (x ∷ xs) ≡ is_some (find k d.sparse_fields))
      → IsDense (last x (take c xs)) (length (x ∷ take c xs))
      → DenseVector d (optimize_with blank (x ∷ take c xs) d)
  unfolding optimize_with
  packed-DenseVector c x xs known s u same dense =
      let ids = x ∷ take c xs in
      let top = last x (take c xs) in
      let waits : Waits blank (sized top) ids = λ n there. (
        rw (sized-blank top) (
            get_elem?-replicate (top + 1) n (unset blank)
              (omega (arith, contains-take_high n c x xs s there))),
        known_field n known (sym (same n) ∙ member n c x xs there),
      ) in
      let count = used-move_packed blank ids (sized top) (take-Distinct (suc c) (x ∷ xs) u) waits in
      let no_field : used (sized top).packed_fields ≡ 0 =
        ap used (sized-blank top) ∙ used-replicate (top + 1) (unset blank) refl in
      let kept = move_packed-top blank ids (sized top) in
      let all_used : length ids ≡ used (move_packed blank ids (sized top)).packed_fields =
        omega (arith, count, no_field) in
      inr (
        length-move_packed blank ids (sized top)
            ∙ ap length (sized-blank top)
            ∙ length-replicate (top + 1) (unset blank)
            ∙ ap (λ (t : ℕ). t + 1) (sym kept),
        subst₂ IsDense (sym kept) all_used dense,
      )

  prefix-DenseVector :
      (c : ℕ) (xs : List ℕ)
      → HasDescriptors d
      → Sorted xs
      → Distinct xs
      → ((k : ℕ) → contains k xs ≡ is_some (find k d.sparse_fields))
      → DenseList (take c xs)
      → (c ≡ 0 → AtLeast 70 (keys d.sparse_fields))
      → DenseVector d (optimize_with blank (take c xs) d)
  unfolding optimize_with
  prefix-DenseVector zero xs known s u same dense low = inl (fresh.no_vector, low refl)
  prefix-DenseVector (suc c) [] known s u same dense low = inl (
    fresh.no_vector,
    no_keys (keys d.sparse_fields) λ k. contains-keys k d.sparse_fields ∙ sym (same k),
  )
  prefix-DenseVector (suc c) (x ∷ xs) known s u same dense low =
      packed-DenseVector c x xs known s u same dense

  -- After `optimize_lookup` the vector is empty, where no number of the table is below 70, or has one slot
  -- more than its top number and is dense: the top is below 70, or at least 76 percent of the slots, the slot 0 counted as well, hold a
  -- field. The table is one that `add_field` made, for fields that the descriptor knows.
  pub optimize_lookup-DenseVector : HasDescriptors d → DenseVector d (optimize_lookup blank d)
  optimize_lookup-DenseVector known =
      let ids = keys d.sparse_fields in
      let chosen = dense_list (find_packed_fields ids) (find_packed_fields-IsDense ids) in
      unfold optimize_lookup in
      prefix-DenseVector (scan_packed (sort ids) 0 0) (sort ids) known (sort-Sorted ids)
        (sort-Distinct ids fresh.distinct)
        (λ k. contains-sort k ids ∙ contains-keys k d.sparse_fields)
        (unfold find_packed_fields in chosen)
        (λ none_packed. AtLeast-sort 70 ids (scan_packed-AtLeast (sort ids) 0 0 none_packed))
