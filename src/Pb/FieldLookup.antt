-- ===== src/Pb/FieldLookup.antt =====
-- classes DecoderFieldLookup and DecoderFieldData of src/pb/decoder.h: the fields of a message by
-- number, the low numbers in a vector and the others in a map. `T` is the template parameter.
pub mod Laws
pub mod Build
pub mod Dense
use google_protobuf_dynamic.Common.{
  ℕ, ◌+◌, ◌-◌, ◌*◌, ◌/◌, ltb, leb, ◌==◌, if◌then◌else◌, Option, none, some, List, [], ◌∷◌, length,
  get_elem?, set, take, replicate, ◌++◌, ◌>>=◌,
}
use google_protobuf_dynamic.Common.Sorting.{sort, last}
use google_protobuf_dynamic.Pb.Descriptor.{
  DescriptorEntry, Descriptor, find_entry, find, insert, erase,
}

-- `field` is a pointer and may be NULL; `value` is the source's `data`.
pub record Entry (T : Type 0) : Type 0 where
  pub field : Option DescriptorEntry
  pub value : T

-- A lookup object is its virtual method `find_field`. The outer `none` is an access outside the
-- vector; the inner one is NULL.
abbrev pub Lookup : Type 0 → Type 0
Lookup T = ℕ → Option (Option (Entry T))

pub record DecoderFieldData (T : Type 0) : Type 0 where
  pub descriptor : Descriptor
  pub packed_fields : List (Entry T)
  pub sparse_fields : List (ℕ × Entry T)
  pub top_packed_field : ℕ

-- A round of the loop of `find_packed_fields` at index `i`; `included` is `last_included + 1`.
unfoldable pub next_included : (field i included : ℕ) → ℕ
next_included field i included =
    if ltb field 70
    then i + 1
    else (if ltb 75 ((i + 1) * 100 / (field + 1)) then i + 1 else included)

unfoldable pub scan_packed : List ℕ → (i included : ℕ) → ℕ
scan_packed [] i included = included
scan_packed (field ∷ rest) i included = scan_packed rest (i + 1) (next_included field i included)

unfoldable pub find_packed_fields : List ℕ → List ℕ
unfolding sort scan_packed next_included
find_packed_fields all_fields = let sorted = sort all_fields in take (scan_packed sorted 0 0) sorted

-- vector::resize
unfoldable pub resize {ℓ} : {A : Type ℓ} → ℕ → A → List A → List A
resize n a xs = take n xs ++ replicate (n - length xs) a

unfoldable pub keys : {V : Type 0} → List (ℕ × V) → List ℕ
keys [] = []
keys ((k, v) ∷ m) = k ∷ keys m

module _ {T : Type 0} where
  unfoldable pub create : Descriptor → DecoderFieldData T
  create descriptor = record {
    descriptor = descriptor;
    packed_fields = [];
    sparse_fields = [];
    top_packed_field = 0;
  }

  unfoldable pub add_field : ℕ → T → DecoderFieldData T → DecoderFieldData T
  unfolding find_entry insert
  add_field field value d =
      let descriptor_field = find_entry d.descriptor field in
      if field == 0 then d else (record d {
        sparse_fields =
            insert field (record { field = descriptor_field; value = value }) d.sparse_fields;
      })

  unfoldable pub find_field : DecoderFieldData T → Lookup T
  unfolding find
  find_field d field =
      if leb field d.top_packed_field
      then (get_elem? d.packed_fields field >>= λ entry.
          some (elim entry.field [ none ↦ none | some _ ↦ some entry ]))
      else some (find field d.sparse_fields)

module _ {T : Type 0} (blank : T) where
  -- The default constructor of Entry; `blank` is T().
  abbrev pub unset : Entry T
  unset = record { field = none; value = blank }

  -- `sparse_fields[id]`: a missing key would make an unset entry.
  abbrev pub entry_or_unset : Option (Entry T) → Entry T
  entry_or_unset none = unset
  entry_or_unset (some entry) = entry

  -- A round of the loop of `optimize_lookup`: an entry moves from the map to the vector.
  unfoldable pub move_one : ℕ → DecoderFieldData T → DecoderFieldData T
  unfolding find erase
  move_one id d = record d {
    packed_fields = set d.packed_fields id (entry_or_unset (find id d.sparse_fields));
    sparse_fields = erase id d.sparse_fields;
  }

  unfoldable pub move_packed : List ℕ → DecoderFieldData T → DecoderFieldData T
  move_packed [] d = d
  move_packed (id ∷ ids) d = move_packed ids (move_one id d)

  unfoldable pub optimize_with : List ℕ → DecoderFieldData T → DecoderFieldData T
  optimize_with [] d = d
  optimize_with (id ∷ ids) d =
      let top = last id ids in
      move_packed (id ∷ ids) (record d {
        top_packed_field = top;
        packed_fields = resize (top + 1) unset d.packed_fields;
      })

  unfoldable pub optimize_lookup : DecoderFieldData T → DecoderFieldData T
  unfolding optimize_with move_packed move_one last resize find_packed_fields keys
  optimize_lookup d = optimize_with (find_packed_fields (keys d.sparse_fields)) d
