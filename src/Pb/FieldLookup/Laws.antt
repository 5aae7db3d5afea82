-- ===== src/Pb/FieldLookup/Laws.antt =====
-- A message's lookup table answers the same before and after `optimize_lookup`.
use google_protobuf_dynamic.Common.{
  ℕ, zero, suc, ◌+◌, ◌-◌, ◌≤◌, ◌<◌, ◌≡◌, refl, ◌∙◌, Bool, true, false, Option, none, some, List, [],
  ◌∷◌, ◌==◌, if◌then◌else◌, length, get_elem?, take, replicate, arith, Option-cases, inl, inr, ap,
  sym, subst, length-set, length-replicate, get_elem?-set, get_elem?-replicate,
}
use google_protobuf_dynamic.Common.Sorting.{
  sort, last, contains, Distinct, Sorted, contains-sort, sort-Sorted, sort-Distinct,
  contains-take_low, contains-take_high, take-Distinct,
}
use google_protobuf_dynamic.Pb.Descriptor.{find, erase}
use google_protobuf_dynamic.Pb.FieldLookup.{
  Entry, DecoderFieldData, scan_packed, keys, unset, entry_or_unset, move_one, move_packed,
  optimize_with, optimize_lookup, find_field, resize,
}

-- The keys of a map are those that `find` finds.
abbrev pub is_some {ℓ} : {A : Type ℓ} → Option A → Bool
is_some none = false
is_some (some a) = true

pub contains-keys :
    {V : Type 0} (k : ℕ) (m : List (ℕ × V)) → contains k (keys m) ≡ is_some (find k m)
unfolding keys find
contains-keys k [] = refl
contains-keys k ((j, v) ∷ m) = ground (arith, contains-keys k m)

pub find-erase_ne :
    {V : Type 0} (k j : ℕ) (m : List (ℕ × V)) → (k == j) ≡ false → find k (erase j m) ≡ find k m
unfolding find erase
find-erase_ne k j [] h = refl
find-erase_ne k j ((i, v) ∷ m) h = ground (arith, find-erase_ne k j m)

-- Every number of the list is an index of the vector.
abbrev AllBelow : List ℕ → ℕ → Type 0
AllBelow [] n = Unit
AllBelow (x ∷ xs) n = (x < n) × AllBelow xs n

module _ {T : Type 0} (blank : T) where
  -- What a slot of the vector holds after the loop.
  slot_after : (ids : List ℕ) (n : ℕ) (d : DecoderFieldData T) → Option (Entry T)
  slot_after ids n d =
      if contains n ids
      then some (entry_or_unset blank (find n d.sparse_fields))
      else get_elem? d.packed_fields n

  move_one-slot :
      (id n : ℕ) (d : DecoderFieldData T)
      → id < length d.packed_fields
      → get_elem? (move_one blank id d).packed_fields n ≡ (
          if id == n
          then some (entry_or_unset blank (find id d.sparse_fields))
          else get_elem? d.packed_fields n)
  unfolding move_one
  move_one-slot id n d h = get_elem?-set d.packed_fields id n _ h

  move_one-length :
      (id : ℕ) (d : DecoderFieldData T)
      → length (move_one blank id d).packed_fields ≡ length d.packed_fields
  unfolding move_one
  move_one-length id d = length-set d.packed_fields id _

  move_one-sparse :
      (id n : ℕ) (d : DecoderFieldData T)
      → (n == id) ≡ false
      → find n (move_one blank id d).sparse_fields ≡ find n d.sparse_fields
  unfolding move_one
  move_one-sparse id n d h = find-erase_ne n id d.sparse_fields h

  move_packed-sparse :
      (ids : List ℕ) (n : ℕ) (d : DecoderFieldData T)
      → contains n ids ≡ false
      → find n (move_packed blank ids d).sparse_fields ≡ find n d.sparse_fields
  unfolding move_packed
  move_packed-sparse [] n d h = refl
  move_packed-sparse (id ∷ ids) n d h =
      ground (arith, move_packed-sparse ids n (move_one blank id d), move_one-sparse id n d)

  move_packed-slot :
      (ids : List ℕ) (n : ℕ) (d : DecoderFieldData T)
      → Distinct ids
      → AllBelow ids (length d.packed_fields)
      → get_elem? (move_packed blank ids d).packed_fields n ≡ slot_after ids n d
  unfolding slot_after move_packed
  move_packed-slot [] n d u b = refl
  move_packed-slot (id ∷ ids) n d u b = ground (
    arith,
    u.0,
    b.0,
    move_packed-slot ids n (move_one blank id d) u.1,
    subst (λ m. AllBelow ids m) (sym (move_one-length id d)) b.1,
    move_one-slot id n d,
    move_one-sparse id n d,
  )

  pub move_packed-top :
      (ids : List ℕ) (d : DecoderFieldData T)
      → (move_packed blank ids d).top_packed_field ≡ d.top_packed_field
  unfolding move_packed move_one
  move_packed-top [] d = refl
  move_packed-top (id ∷ ids) d = move_packed-top ids _

prefix-AllBelow :
    (c x : ℕ) (xs : List ℕ) → Sorted (x ∷ xs) → AllBelow (x ∷ take c xs) (last x (take c xs) + 1)
unfolding last
prefix-AllBelow zero x xs s = (omega arith, tt)
prefix-AllBelow (suc c) x [] s = (omega arith, tt)
prefix-AllBelow (suc c) x (y ∷ ys) s =
    let rest = prefix-AllBelow c y ys s.1 in (omega (arith, rest.0, s.0.0), rest)

-- A table as `add_field` leaves it, before `optimize_lookup`.
pub record IsFresh {T : Type 0} (d : DecoderFieldData T) : Type 0 where
  pub no_vector : d.packed_fields ≡ []
  pub no_top : d.top_packed_field ≡ 0
  pub distinct : Distinct (keys d.sparse_fields)

-- The descriptor knows every field of the table.
abbrev pub HasDescriptors : {T : Type 0} → DecoderFieldData T → Type 0
HasDescriptors {T} d =
    (n : ℕ) (e : Entry T) → find n d.sparse_fields ≡ some e → is_some e.field ≡ true

pub resize-nil {ℓ} : {A : Type ℓ} (n : ℕ) (a : A) → resize n a [] ≡ replicate n a
unfolding resize
resize-nil zero a = refl
resize-nil (suc n) a = ap (λ (k : ℕ). replicate k a) {x = suc n - 0} {y = suc n} (omega arith)

module _ {T : Type 0} (blank : T) (d : DecoderFieldData T) (fresh : IsFresh d) where
  -- The table once the vector has its size.
  abbrev sized : ℕ → DecoderFieldData T
  sized top = record d {
    top_packed_field = top;
    packed_fields = resize (top + 1) (unset blank) d.packed_fields;
  }

  blank_slots : (top n : ℕ) → n ≤ top → get_elem? (sized top).packed_fields n ≡ some (unset blank)
  blank_slots top n h =
      rw (fresh.no_vector, resize-nil) (get_elem?-replicate (top + 1) n (unset blank) (omega arith))

  sized-length : (top : ℕ) → length (sized top).packed_fields ≡ top + 1
  sized-length top = rw (fresh.no_vector, resize-nil) (length-replicate (top + 1) (unset blank))

  -- The slot of a number in the range of the vector.
  packed_slot :
      (c x : ℕ) (xs : List ℕ) (n : ℕ)
      → Sorted (x ∷ xs)
      → Distinct (x ∷ xs)
      → ((k : ℕ) → contains k (x ∷ xs) ≡ is_some (find k d.sparse_fields))
      → n ≤ last x (take c xs)
      → get_elem? (optimize_with blank (x ∷ take c xs) d).packed_fields n
        ≡ some (entry_or_unset blank (find n d.sparse_fields))
  unfolding optimize_with slot_after
  packed_slot c x xs n s u same h =
      let top = last x (take c xs) in
      let below =
        subst (AllBelow (x ∷ take c xs)) (sym (sized-length top)) (prefix-AllBelow c x xs s) in
      ground (
        arith,
        move_packed-slot blank (x ∷ take c xs) n (sized top) (take-Distinct (suc c) (x ∷ xs) u)
            below,
        blank_slots top n h,
        same n,
        contains-take_low n c x xs s,
      )

  packed_answer :
      (c x : ℕ) (xs : List ℕ) (n : ℕ)
      → HasDescriptors d
      → Sorted (x ∷ xs)
      → Distinct (x ∷ xs)
      → ((k : ℕ) → contains k (x ∷ xs) ≡ is_some (find k d.sparse_fields))
      → find_field (optimize_with blank (x ∷ take c xs) d) n ≡ some (find n d.sparse_fields)
  unfolding find_field optimize_with
  packed_answer c x xs n known s u same =
      let top = last x (take c xs) in
      let slot = packed_slot c x xs n s u same in
      let in_range = move_packed-top blank (x ∷ take c xs) (sized top) in
      let untouched = move_packed-sparse blank (x ∷ take c xs) n (sized top) in
      let bounded = contains-take_high n c x xs s in
      elim (Option-cases (find n d.sparse_fields)) [
        | inl missing ↦ ground (arith, missing, slot, in_range, untouched, bounded)
        | inr (e, found) ↦
            ground (arith, found, known n e found, slot, in_range, untouched, bounded)
      ]

  -- No number goes into the vector.
  plain_answer :
      (n : ℕ) → 0 < n → find_field (optimize_with blank [] d) n ≡ some (find n d.sparse_fields)
  unfolding find_field optimize_with
  plain_answer n pos = ground (arith, fresh.no_top)

  prefix_answer :
      (c : ℕ) (xs : List ℕ) (n : ℕ)
      → 0 < n
      → HasDescriptors d
      → Sorted xs
      → Distinct xs
      → ((k : ℕ) → contains k xs ≡ is_some (find k d.sparse_fields))
      → find_field (optimize_with blank (take c xs) d) n ≡ some (find n d.sparse_fields)
  prefix_answer zero xs n pos known s u same = plain_answer n pos
  prefix_answer (suc c) [] n pos known s u same = plain_answer n pos
  prefix_answer (suc c) (x ∷ xs) n pos known s u same = packed_answer c x xs n known s u same

  -- `optimize_lookup` does not change what the table answers, but for the number 0, which no field
  -- has. The table is one that `add_field` made, for fields that the descriptor knows.
  pub find_field-optimize_lookup :
      (n : ℕ)
      → 0 < n
      → HasDescriptors d
      → find_field (optimize_lookup blank d) n ≡ some (find n d.sparse_fields)
  find_field-optimize_lookup n pos known =
      let ids = keys d.sparse_fields in
      unfold optimize_lookup in
      prefix_answer (scan_packed (sort ids) 0 0) (sort ids) n pos known (sort-Sorted ids)
        (sort-Distinct ids fresh.distinct)
        (λ k. contains-sort k ids ∙ contains-keys k d.sparse_fields)
