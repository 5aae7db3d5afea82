-- ===== src/Mapper/FieldMap.antt =====
-- class FieldMap of src/fieldmap.h and fieldmap.cpp: the fields of a mapper by name and by number.
-- `find_packed_fields` of fieldmap.cpp is the same function as that of src/pb/decoder.cpp.
pub mod Added
use google_protobuf_dynamic.Common.{
  ℕ, ◌+◌, leb, ◌==◌, ◌||◌, ◌&&◌, Bool, true, false, if◌then◌else◌, Option, none, some, List, [],
  ◌∷◌, get_elem?, set,
}
use google_protobuf_dynamic.Common.Sorting.{last}
use google_protobuf_dynamic.Pb.Descriptor.{find, assign, erase}
use google_protobuf_dynamic.Pb.FieldLookup.{keys, find_packed_fields, resize}

-- class PerlString: the address and the characters; its hash is a function of the characters.
pub record PerlString : Type 0 where
  pub buffer : ℕ
  pub text : List ℕ

-- `memcmp` of two texts of one length.
unfoldable pub same_text : List ℕ → List ℕ → Bool
same_text [] [] = true
same_text (a ∷ xs) (b ∷ ys) = a == b && same_text xs ys
same_text _ _ = false

-- `operator==`
unfoldable pub same_string : PerlString → PerlString → Bool
unfolding same_text
same_string a b = a.buffer == b.buffer || same_text a.text b.text

-- class FieldMapImpl. A slot of the vector may be NULL.
pub record FieldMapImpl (V : Type 0) : Type 0 where
  pub top_packed_field : ℕ
  pub by_name : List (PerlString × V)
  pub by_number : List (ℕ × V)
  pub packed_by_number : List (Option V)

module _ {V : Type 0} where
  abbrev pub empty_map : FieldMapImpl V
  empty_map = record { top_packed_field = 0; by_name = []; by_number = []; packed_by_number = [] }

  unfoldable pub find_string : PerlString → List (PerlString × V) → Option V
  find_string key [] = none
  find_string key ((k, v) ∷ m) = if same_string k key then some v else find_string key m

  unfoldable pub assign_string : PerlString → V → List (PerlString × V) → List (PerlString × V)
  assign_string key v [] = (key, v) ∷ []
  assign_string key v ((k, w) ∷ m) =
      if same_string k key then (k, v) ∷ m else (k, w) ∷ assign_string key v m

  unfoldable pub add : PerlString → (number : ℕ) → V → FieldMapImpl V → FieldMapImpl V
  unfolding assign_string assign
  add key number field m = record m {
    by_name = assign_string key field m.by_name;
    by_number = assign number field m.by_number;
  }

  unfoldable pub find_by_name : FieldMapImpl V → PerlString → Option V
  unfolding find_string
  find_by_name m key = find_string key m.by_name

  -- The outer `none` is an access outside the vector.
  unfoldable pub find_by_number : FieldMapImpl V → ℕ → Option (Option V)
  unfolding find
  find_by_number m number =
      if leb number m.top_packed_field
      then get_elem? m.packed_by_number number
      else some (find number m.by_number)

  unfoldable pub move_number : ℕ → FieldMapImpl V → FieldMapImpl V
  unfolding find erase
  move_number id m = record m {
    packed_by_number = set m.packed_by_number id (find id m.by_number);
    by_number = erase id m.by_number;
  }

  unfoldable pub move_numbers : List ℕ → FieldMapImpl V → FieldMapImpl V
  move_numbers [] m = m
  move_numbers (id ∷ ids) m = move_numbers ids (move_number id m)

  unfoldable pub pack : List ℕ → FieldMapImpl V → FieldMapImpl V
  pack [] m = m
  pack (id ∷ ids) m =
      let top = last id ids in
      move_numbers (id ∷ ids) (record m {
        top_packed_field = top;
        packed_by_number = resize (top + 1) none m.packed_by_number;
      })

  unfoldable pub optimize_numbers : FieldMapImpl V → FieldMapImpl V
  unfolding pack move_numbers move_number last resize find_packed_fields keys
  optimize_numbers m = pack (find_packed_fields (keys m.by_number)) m
