-- ===== src/Pb/Descriptor.antt =====
-- classes Descriptor and DescriptorSet of src/pb/decoder.h and decoder.cpp.
-- The unordered maps are association lists with one entry for a key at most; a
-- `const Descriptor *` is a number that stands for the object, and NULL is `none`.
pub mod Maps
use google_protobuf_dynamic.Common.{ℕ, ◌==◌, if◌then◌else◌, Bool, Option, none, some, List, [], ◌∷◌}
use google_protobuf_dynamic.Pb.Types.{WireType, FieldType}
use Prim.Native.String.{String}
use text.Mathlib.Text.{◌==◌ as str_eq}

pub record DescriptorEntry : Type 0 where
  pub field : ℕ
  pub type : FieldType
  pub repeated : Bool
  pub wire_type : WireType
  pub message : Option ℕ

pub record Descriptor : Type 0 where
  pub entries : List (ℕ × DescriptorEntry)

-- unordered_map: `find`, `operator[]` with an assignment, `insert`, `erase`.
module _ {ℓ} {V : Type ℓ} where
  unfoldable pub find : ℕ → List (ℕ × V) → Option V
  find k [] = none
  find k ((j, v) ∷ m) = if j == k then some v else find k m

  unfoldable pub assign : ℕ → V → List (ℕ × V) → List (ℕ × V)
  assign k v [] = (k, v) ∷ []
  assign k v ((j, w) ∷ m) = if j == k then (k, v) ∷ m else (j, w) ∷ assign k v m

  -- An entry that is there already stays.
  unfoldable pub insert : ℕ → V → List (ℕ × V) → List (ℕ × V)
  insert k v [] = (k, v) ∷ []
  insert k v ((j, w) ∷ m) = if j == k then (j, w) ∷ m else (j, w) ∷ insert k v m

  unfoldable pub erase : ℕ → List (ℕ × V) → List (ℕ × V)
  erase k [] = []
  erase k ((j, w) ∷ m) = if j == k then m else (j, w) ∷ erase k m

-- The switch of the private `add_field`.
unfoldable pub wire_type_of : FieldType → WireType
wire_type_of FieldType.string = WireType.len_delimited
wire_type_of FieldType.message = WireType.len_delimited
wire_type_of FieldType.bytes = WireType.len_delimited
wire_type_of FieldType.double = WireType.fixed64
wire_type_of FieldType.fixed64 = WireType.fixed64
wire_type_of FieldType.sfixed64 = WireType.fixed64
wire_type_of FieldType.float = WireType.fixed32
wire_type_of FieldType.fixed32 = WireType.fixed32
wire_type_of FieldType.sfixed32 = WireType.fixed32
wire_type_of _ = WireType.varint

unfoldable pub add_entry : ℕ → FieldType → Bool → Option ℕ → Descriptor → Descriptor
unfolding wire_type_of assign
add_entry field type repeated submessage d =
    let entry : DescriptorEntry = record {
      field = field;
      type = type;
      repeated = repeated;
      wire_type = wire_type_of type;
      message = submessage;
    } in
    record d { entries = assign field entry d.entries }

-- The two public overloads.
unfoldable pub add_field : ℕ → FieldType → Bool → Descriptor → Descriptor
unfolding add_entry
add_field field type repeated d = add_entry field type repeated none d

unfoldable pub add_message_field : ℕ → Bool → Option ℕ → Descriptor → Descriptor
unfolding add_entry
add_message_field field repeated submessage d =
    add_entry field FieldType.message repeated submessage d

unfoldable pub find_entry : Descriptor → ℕ → Option DescriptorEntry
unfolding find
find_entry d field = find field d.entries

-- The named descriptors. `insert` keeps the first descriptor of a name.
pub record DescriptorSet : Type 0 where
  pub descriptors : List (String × ℕ)

find_name : String → List (String × ℕ) → Option ℕ
find_name k [] = none
find_name k ((j, v) ∷ m) = if str_eq j k then some v else find_name k m

insert_name : String → ℕ → List (String × ℕ) → List (String × ℕ)
insert_name k v [] = (k, v) ∷ []
insert_name k v ((j, w) ∷ m) = if str_eq j k then (j, w) ∷ m else (j, w) ∷ insert_name k v m

unfoldable pub add_descriptor : String → ℕ → DescriptorSet → DescriptorSet
unfolding insert_name
add_descriptor message_name descriptor s = record s {
  descriptors = insert_name message_name descriptor s.descriptors;
}

unfoldable pub get_descriptor : DescriptorSet → String → Option ℕ
unfolding find_name
get_descriptor s message_name = find_name message_name s.descriptors
