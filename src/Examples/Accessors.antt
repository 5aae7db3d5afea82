-- ===== src/Examples/Accessors.antt =====
-- Runs of the accessors of class MapperField, src/mapper.cpp.
use google_protobuf_dynamic.Common.{
  ℕ, ◌≡◌, ◌↔◌, ◌<◌, ◌≤◌, refl, ◌==◌, if◌then◌else◌, Bool, true, false, Option, none, some, List, [],
  ◌∷◌, get_elem?,
}
use google_protobuf_dynamic.Pb.Descriptor.{find, assign}
use google_protobuf_dynamic.Dynamic.Options.{BoolStyle}
use google_protobuf_dynamic.Mapper.Scalars.{
  Sv, undef, iv, uv, pv, array_ref, hash_ref, PerlScalars, Heap, with_array, with_hash, type_int32,
  Defaults,
}
use google_protobuf_dynamic.Mapper.Accessors.{
  MappedField, returned, crashed, heap_after, from_start, from_end, has_field, set_scalar,
  get_list_item, set_list_item, add_item, list_size, get_map_item, set_map_item, set_list, get_list,
  get_write_array, get_write_hash, get_write_field, write_array, write_hash, write_field,
  write_element, write_entry, copy_value, copied, av_store, place, write_copied,
}
use google_protobuf_dynamic.Mapper.Accessors.Oneof.{is_cleared, set_scalar-oneof}
use google_protobuf_dynamic.Mapper.Accessors.Items.{
  IsReturned, InRange, ReadBack, get_list_item-InRange, set_list_item-crashed,
  get_list_item-add_item, get_list_item-set_list_item,
}
use google_protobuf_dynamic.Mapper.Accessors.Wholes.{get_map_item-set_map_item, get_list-set_list}

abbrev pub number_of : Sv → ℕ
number_of (iv n) = n
number_of (uv n) = n
number_of _ = 0

abbrev pub marked : Sv → Sv
marked (pv text is_utf8) = pv text true
marked v = v

abbrev pub sample_scalars : PerlScalars
sample_scalars = record {
  float_nv = λ v. v;
  sv_nv = number_of;
  sv_iv = number_of;
  sv_uv = number_of;
  sv_true = λ v. true;
  sv_pv = λ v. [];
  sv_pvutf8 = λ v. [];
  sv_setpvn = λ target text. pv text false;
  sv_utf8_on = marked;
}

abbrev pub no_defaults : Defaults
no_defaults = record {
  default_float = 0;
  default_double = 0;
  default_bool = false;
  default_string = [];
  default_int32 = 0;
  default_uint32 = 0;
  default_int64 = 0;
  default_uint64 = 0;
}

abbrev int32_field : (name index : ℕ) → Option ℕ → Bool → MappedField
int32_field name index oneof is_map = record {
  name = name;
  field_index = index;
  oneof_index = oneof;
  is_map = is_map;
  type = type_int32;
  map_value_type = type_int32;
  enum_values = [];
  map_enum_values = [];
  defaults = no_defaults;
}

-- Two members of a oneof, a list and a map.
abbrev first_member : MappedField
first_member = int32_field 1 0 (some 0) false

abbrev second_member : MappedField
second_member = int32_field 2 1 (some 0) false

abbrev numbers : MappedField
numbers = int32_field 3 2 none false

abbrev by_key : MappedField
by_key = int32_field 4 3 none true

abbrev sample_fields : List MappedField
sample_fields = first_member ∷ second_member ∷ numbers ∷ by_key ∷ []

-- The message is the hash at 1, its list the array at 7, its map the hash at 8.
abbrev sample_heap : Heap
sample_heap = record {
  arrays = λ a. if a == 7 then some (iv 30) ∷ some (iv 31) ∷ [] else [];
  hashes = λ a.
      if a == 1
      then (1, iv 5) ∷ (3, array_ref 7) ∷ (4, hash_ref 8) ∷ []
      else (if a == 8 then (50, iv 6) ∷ [] else []);
  next = 10;
}

set_scalar-oneof_example :
    (h' : Heap) × (heap_after
        (set_scalar sample_scalars BoolStyle.perl second_member sample_fields 1 (iv 9) sample_heap)
      ≡ some h')
    × (has_field second_member 1 h' ≡ true)
    × ((j : ℕ)
        → (2 == j) ≡ false
        → find j (h'.hashes 1) ≡ (
            if is_cleared sample_scalars BoolStyle.perl second_member j sample_fields
            then none
            else find j (sample_heap.hashes 1)))
set_scalar-oneof_example =
    set_scalar-oneof sample_scalars BoolStyle.perl second_member sample_fields 1 (iv 9) sample_heap
      (refl, (refl, (refl, tt)))

abbrev longer_heap : Heap
longer_heap = with_array 7 (some (iv 30) ∷ some (iv 31) ∷ some (iv 32) ∷ []) sample_heap

get_list_item-add_item_example :
    (new : Sv) × (copy_value sample_scalars BoolStyle.perl numbers undef (iv 32) ≡ copied new)
    × (list_size numbers 1 longer_heap ≡ returned 3 longer_heap)
    × (get_list_item sample_scalars BoolStyle.perl numbers 1 (from_start 2) undef longer_heap
        ≡ returned new longer_heap)
    × ((j : ℕ) → j < 2 → get_elem? (longer_heap.arrays 7) j ≡ get_elem? (sample_heap.arrays 7) j)
unfolding get_write_array get_write_field write_array add_item write_element copy_value av_store
    write_copied find
get_list_item-add_item_example =
    get_list_item-add_item sample_scalars BoolStyle.perl numbers 1 7 (iv 32) undef sample_heap
      sample_heap longer_heap refl refl

abbrev changed_heap : Heap
changed_heap = with_array 7 (some (iv 40) ∷ some (iv 31) ∷ []) sample_heap

get_list_item-set_list_item_example :
    (new : Sv) × (copy_value sample_scalars BoolStyle.perl numbers (iv 30) (iv 40) ≡ copied new)
    × ReadBack sample_scalars BoolStyle.perl numbers 1 7 0 new undef sample_heap changed_heap
unfolding get_write_array get_write_field write_array set_list_item write_element copy_value
    av_store write_copied place find
get_list_item-set_list_item_example =
    get_list_item-set_list_item sample_scalars BoolStyle.perl numbers 1 7 0 (iv 40) undef
      sample_heap sample_heap changed_heap refl refl

set_list_item-crashed_example :
    (set_list_item sample_scalars BoolStyle.perl numbers 1 (from_end 2) (iv 40) sample_heap
      ≡ crashed)
    ↔ ((n : ℕ) × (from_end 2 ≡ from_end n) × (2 ≤ n))
unfolding find
set_list_item-crashed_example =
    set_list_item-crashed sample_scalars BoolStyle.perl numbers 1 7 (from_end 2) (iv 40) sample_heap
      refl

get_list_item-InRange_example :
    IsReturned
      (get_list_item sample_scalars BoolStyle.perl numbers 1 (from_end 1) undef sample_heap)
    ↔ InRange 2 (from_end 1)
unfolding find
get_list_item-InRange_example =
    get_list_item-InRange sample_scalars BoolStyle.perl numbers 1 7 (from_end 1) undef sample_heap
      refl

abbrev keyed_heap : Heap
keyed_heap = with_hash 8 ((50, iv 6) ∷ (51, iv 44) ∷ []) sample_heap

get_map_item-set_map_item_example :
    (new : Sv) × (copy_value sample_scalars BoolStyle.perl by_key undef (iv 44) ≡ copied new)
    × (get_map_item sample_scalars BoolStyle.perl by_key 1 51 keyed_heap ≡ returned new keyed_heap)
    × ((other : ℕ)
        → (51 == other) ≡ false
        → find other (keyed_heap.hashes 8) ≡ find other (sample_heap.hashes 8))
unfolding get_write_hash get_write_field write_hash set_map_item write_entry copy_value write_copied
    find assign
get_map_item-set_map_item_example =
    get_map_item-set_map_item sample_scalars BoolStyle.perl by_key 1 8 51 (iv 44) sample_heap
      sample_heap keyed_heap refl refl refl refl

abbrev relisted_heap : Heap
relisted_heap = with_hash 1 ((1, iv 5) ∷ (3, array_ref 9) ∷ (4, hash_ref 8) ∷ []) sample_heap

get_list-set_list_example :
    (get_list numbers 1 relisted_heap ≡ returned (array_ref 9) relisted_heap)
    × (list_size numbers 1 relisted_heap ≡ returned 0 relisted_heap)
    × (relisted_heap.arrays ≡ sample_heap.arrays)
unfolding set_list get_write_field write_field find assign
get_list-set_list_example = get_list-set_list numbers 1 9 sample_heap relisted_heap refl
