-- ===== src/Mapper/Accessors.antt =====
-- class MapperField of src/mapper.h and mapper.cpp: the accessors of a message's fields. Perl's IV
-- has 64 bits here, so a 64-bit integer is never a Math::BigInt.
pub mod Oneof
pub mod Items
pub mod Wholes
use google_protobuf_dynamic.Common.{
  ℕ, suc, ◌-◌, ◌%◌, ◌^◌, ◌==◌, ltb, if◌then◌else◌, Bool, true, false, not, ◌||◌, Option, none, some,
  List, [], ◌∷◌, ◌++◌, length, get_elem?, set, replicate,
}
use google_protobuf_dynamic.Common.Sorting.{contains}
use google_protobuf_dynamic.Pb.Descriptor.{find, assign, erase}
use google_protobuf_dynamic.Dynamic.Options.{BoolStyle}
use google_protobuf_dynamic.Mapper.Scalars.{
  Sv, undef, bigint, iv, uv, nv, array_ref, hash_ref, PerlScalars, sv_ok, sv_rok, Heap, with_array,
  with_hash, new_av, new_hv, sign_extend, UpbType, type_float, type_double, type_bool, type_string,
  type_bytes, type_message, type_enum, type_int32, type_uint32, type_int64, type_uint64, Defaults,
  set_bool,
}

-- A mapper's field, as the accessors use it. `map_type` and `map_enum_values` are those of the
-- value of a map; the `oneof_index` -1 is `none`.
pub record MappedField : Type 0 where
  pub name : ℕ
  pub field_index : ℕ
  pub oneof_index : Option ℕ
  pub is_map : Bool
  pub type : UpbType
  pub map_value_type : UpbType
  pub enum_values : List ℕ
  pub map_enum_values : List ℕ
  pub defaults : Defaults

-- The texts of `croak`, each for the field in question.
pub data Croak : Type 0 where
  value_of_not_array value_of_not_hash value_of_not_reference : Croak
  value_for_not_array value_for_not_hash message_not_hash : Croak
  invalid_enum_value : ℕ → Croak
  unset_array empty_array out_of_bounds unset_map empty_map non_existing_key : Croak

-- A call returns, croaks, or writes through a null pointer. A Math::BigInt is a blessed hash, whose
-- entries are Perl's own: a call that would use it as the hash of a map is `beyond_model`.
pub data Outcome (A : Type 0) : Type 0 where
  returned : A → Heap → Outcome A
  croaked : Croak → Heap → Outcome A
  crashed beyond_model : Outcome A

abbrev pub and_then : {A B : Type 0} → Outcome A → (A → Heap → Outcome B) → Outcome B
and_then (returned a h) next = next a h
and_then (croaked c h) next = croaked c h
and_then crashed next = crashed
and_then beyond_model next = beyond_model

abbrev pub heap_after : {A : Type 0} → Outcome A → Option Heap
heap_after (returned a h) = some h
heap_after (croaked c h) = some h
heap_after crashed = none
heap_after beyond_model = none

-- An index of an array: from the start, or `from_end n` for -(n + 1).
pub data Index : Type 0 where
  from_start from_end : ℕ → Index

-- The place that av_fetch reads: it adds the size to a negative index.
unfoldable pub place : (size : ℕ) → Index → Option ℕ
place size (from_start i) = some i
place size (from_end n) = if ltb n size then some (size - suc n) else none

-- av_fetch of an element that is there, if any.
unfoldable pub av_fetch : List (Option Sv) → Index → Option Sv
unfolding place
av_fetch array index = elim (place (length array) index) [
  | none ↦ none
  | some i ↦ elim (get_elem? array i) [ none ↦ none | some element ↦ element ]
]

-- av_fetch with `lval` set: the array is extended, and the element is there.
abbrev extended : List (Option Sv) → ℕ → List (Option Sv)
extended array i =
    if ltb i (length array) then array else array ++ replicate (suc i - length array) none

abbrev pub element_or_new : List (Option Sv) → ℕ → Sv
element_or_new array i = elim (get_elem? array i) [
  | none ↦ undef
  | some element ↦ elim element [ none ↦ undef | some value ↦ value ]
]

unfoldable pub av_store : List (Option Sv) → ℕ → Sv → List (Option Sv)
av_store array i value = set (extended array i) i (some value)

abbrev pub value_or_new : Option Sv → Sv
value_or_new none = undef
value_or_new (some value) = value

module _ (field : MappedField) where
  unfoldable pub has_field : (self : ℕ) → Heap → Bool
  has_field self h = elim (find field.name (h.hashes self)) [ none ↦ false | some value ↦ true ]

  unfoldable pub clear_field : (self : ℕ) → Heap → Heap
  clear_field self h = with_hash self (erase field.name (h.hashes self)) h

  unfoldable pub get_read_field : (self : ℕ) → Heap → Option Sv
  get_read_field self h = find field.name (h.hashes self)

  -- The value of the entry, which is made if there is none.
  unfoldable pub get_write_field : (self : ℕ) → Heap → Sv × Heap
  get_write_field self h = elim (find field.name (h.hashes self)) [
    | none ↦ (undef, with_hash self (assign field.name undef (h.hashes self)) h)
    | some value ↦ (value, h)
  ]

  -- A write to the scalar that `get_write_field` gives.
  unfoldable pub write_field : (self : ℕ) → Sv → Heap → Heap
  write_field self value h = with_hash self (assign field.name value (h.hashes self)) h

  unfoldable pub array_address : Sv → Heap → Outcome (Option ℕ)
  array_address (array_ref a) h = returned (some a) h
  array_address _ h = croaked value_of_not_array h

  -- The address of the array, if the field is there.
  unfoldable pub get_read_array : (self : ℕ) → Heap → Outcome (Option ℕ)
  unfolding get_read_field array_address
  get_read_array self h = elim (get_read_field self h) [
    | none ↦ returned none h
    | some ref ↦ array_address ref h
  ]

  unfoldable pub write_array : (self : ℕ) → Sv → Heap → Outcome ℕ
  write_array self undef h = returned h.next (write_field self (array_ref h.next) (new_av h))
  write_array self (array_ref a) h = returned a h
  write_array self _ h = croaked value_of_not_array h

  unfoldable pub get_write_array : (self : ℕ) → Heap → Outcome ℕ
  unfolding write_array
  get_write_array self h = let (ref, h') = get_write_field self h in write_array self ref h'

  unfoldable pub hash_address : Sv → Heap → Outcome (Option ℕ)
  hash_address (hash_ref a) h = returned (some a) h
  hash_address (bigint text) h = beyond_model
  hash_address _ h = croaked value_of_not_hash h

  unfoldable pub get_read_hash : (self : ℕ) → Heap → Outcome (Option ℕ)
  unfolding get_read_field hash_address
  get_read_hash self h = elim (get_read_field self h) [
    | none ↦ returned none h
    | some ref ↦ hash_address ref h
  ]

  unfoldable pub write_hash : (self : ℕ) → Sv → Heap → Outcome ℕ
  write_hash self undef h = returned h.next (write_field self (hash_ref h.next) (new_hv h))
  write_hash self (hash_ref a) h = returned a h
  write_hash self (bigint text) h = beyond_model
  write_hash self _ h = croaked value_of_not_hash h

  unfoldable pub get_write_hash : (self : ℕ) → Heap → Outcome ℕ
  unfolding write_hash
  get_write_hash self h = let (ref, h') = get_write_field self h in write_hash self ref h'

-- `copy_value` gives the scalar's new value, or croaks.
pub data Copied : Type 0 where
  copied : Sv → Copied
  refused : Croak → Copied

abbrev pub same_oneof : Option ℕ → Option ℕ → Bool
same_oneof none none = true
same_oneof (some i) (some j) = i == j
same_oneof _ _ = false

module _ (perl : PerlScalars) (style : BoolStyle) where
  unfoldable pub default_value : UpbType → Defaults → (target : Sv) → Sv
  default_value type_float d target = nv (perl.float_nv d.default_float)
  default_value type_double d target = nv d.default_double
  default_value type_bool d target = set_bool perl style target d.default_bool
  default_value type_string d target = perl.sv_utf8_on (perl.sv_setpvn target d.default_string)
  default_value type_bytes d target = perl.sv_setpvn target d.default_string
  default_value type_message d target = undef
  default_value type_enum d target = iv d.default_int32
  default_value type_int32 d target = iv d.default_int32
  default_value type_uint32 d target = uv d.default_uint32
  default_value type_int64 d target = iv d.default_int64
  default_value type_uint64 d target = uv d.default_uint64

  unfoldable pub copy_default : MappedField → (target : Sv) → Sv
  unfolding default_value
  copy_default field target = default_value field.type field.defaults target

  copy_message : Sv → Copied
  copy_message undef = copied undef
  copy_message (hash_ref a) = copied (hash_ref a)
  copy_message (bigint text) = copied (bigint text)
  copy_message value = refused message_not_hash

  -- The enumeration's values are empty if they are not checked. The code compares what `find` gives
  -- in a map's set with the end of another set; the ends of two sets are taken to be equal.
  copy_enum : (enum_values : List ℕ) (i32 : ℕ) → Copied
  copy_enum [] i32 = copied (iv i32)
  copy_enum (v ∷ vs) i32 =
      if contains i32 (v ∷ vs) then copied (iv i32) else refused (invalid_enum_value i32)

  unfoldable pub copy_as : UpbType → (enum_values : List ℕ) → (target value : Sv) → Copied
  unfolding copy_message copy_enum
  copy_as type_float values target value = copied (nv (perl.sv_nv value))
  copy_as type_double values target value = copied (nv (perl.sv_nv value))
  copy_as type_bool values target value = copied (set_bool perl style target (perl.sv_true value))
  copy_as type_string values target value =
      copied (perl.sv_utf8_on (perl.sv_setpvn target (perl.sv_pvutf8 value)))
  copy_as type_bytes values target value = copied (perl.sv_setpvn target (perl.sv_pv value))
  copy_as type_message values target value = copy_message value
  copy_as type_enum values target value = copy_enum values (sign_extend (perl.sv_iv value % 2 ^ 32))
  copy_as type_int32 values target value = copied (iv (perl.sv_iv value))
  copy_as type_uint32 values target value = copied (uv (perl.sv_uv value))
  copy_as type_int64 values target value = copied (iv (perl.sv_iv value))
  copy_as type_uint64 values target value = copied (uv (perl.sv_uv value))

  unfoldable pub copy_value : MappedField → (target value : Sv) → Copied
  unfolding copy_as
  copy_value field target value =
      if field.is_map
      then copy_as field.map_value_type field.map_enum_values target value
      else copy_as field.type field.enum_values target value

  -- The scalar is written unless `copy_value` croaks, in the store that `write` gives.
  unfoldable pub write_copied : Copied → (write : Sv → Heap) (unwritten : Heap) → Outcome Unit
  write_copied (copied value) write unwritten = returned tt (write value)
  write_copied (refused c) write unwritten = croaked c unwritten

  module _ (field : MappedField) where
    unfoldable pub get_scalar : (self : ℕ) (target : Sv) → Heap → Sv
    unfolding get_read_field copy_default
    get_scalar self target h = elim (get_read_field field self h) [
      | none ↦ copy_default field target
      | some value ↦ value
    ]

    -- The loop of `clear_oneof` over the mapper's fields; their indices tell them apart.
    unfoldable pub clear_others : List MappedField → List (ℕ × Sv) → List (ℕ × Sv)
    clear_others [] entries = entries
    clear_others (other ∷ fields) entries =
        if not (same_oneof other.oneof_index field.oneof_index)
          || other.field_index == field.field_index
        then clear_others fields entries
        else clear_others fields (erase other.name entries)

    unfoldable pub clear_oneof : (fields : List MappedField) (self : ℕ) → Heap → Heap
    unfolding clear_others
    clear_oneof fields self h = with_hash self (clear_others fields (h.hashes self)) h

    unfoldable pub prepare_oneof : (fields : List MappedField) (self : ℕ) → Heap → Heap
    unfolding clear_oneof
    prepare_oneof fields self h = elim field.oneof_index [
      | none ↦ h
      | some i ↦ clear_oneof fields self h
    ]

    unfoldable pub set_scalar :
        (fields : List MappedField) (self : ℕ) (value : Sv) → Heap → Outcome Unit
    unfolding prepare_oneof get_write_field write_field copy_value write_copied
    set_scalar fields self value h =
        let (target, h') = get_write_field field self (prepare_oneof fields self h) in
        write_copied (copy_value field target value) (λ new. write_field field self new h') h'

    -- The tests of `get_item` before it reads the array.
    item_of : (array : List (Option Sv)) (index : Index) (target : Sv) → Heap → Outcome Sv
    unfolding copy_default av_fetch
    item_of [] index target h = croaked empty_array h
    item_of (element ∷ array) index target h =
        if (elim index [
          | from_start i ↦ ltb i (length (element ∷ array))
          | from_end n ↦ ltb n (length (element ∷ array))
        ])
        then returned
            (elim (av_fetch (element ∷ array) index) [
              | none ↦ copy_default field target
              | some value ↦ value
            ])
            h
        else croaked out_of_bounds h

    unfoldable pub get_list_item : (self : ℕ) (index : Index) (target : Sv) → Heap → Outcome Sv
    unfolding get_read_array item_of
    get_list_item self index target h = and_then (get_read_array field self h) λ array h'.
        elim array [
          | none ↦ croaked unset_array h'
          | some a ↦ item_of (h'.arrays a) index target h'
        ]

    map_item_of : (entries : List (ℕ × Sv)) (key : ℕ) → Heap → Outcome Sv
    map_item_of [] key h = croaked empty_map h
    map_item_of (entry ∷ entries) key h = elim (find key (entry ∷ entries)) [
      | none ↦ croaked non_existing_key h
      | some value ↦ returned value h
    ]

    unfoldable pub get_map_item : (self key : ℕ) → Heap → Outcome Sv
    unfolding get_read_hash map_item_of
    get_map_item self key h = and_then (get_read_hash field self h) λ hash h'. elim hash [
      | none ↦ croaked unset_map h'
      | some a ↦ map_item_of (h'.hashes a) key h'
    ]

    -- A write to the element at a place of the array; av_fetch makes the element first.
    unfoldable pub write_element : (array i : ℕ) (value : Sv) → Heap → Outcome Unit
    unfolding av_store copy_value write_copied
    write_element array i value h =
        let target = element_or_new (h.arrays array) i in
        write_copied (copy_value field target value)
          (λ new. with_array array (av_store (h.arrays array) i new) h)
          (with_array array (av_store (h.arrays array) i target) h)

    -- A negative index below the start: av_fetch gives NULL, and the code writes through it.
    unfoldable pub set_list_item : (self : ℕ) (index : Index) (value : Sv) → Heap → Outcome Unit
    unfolding get_write_array place write_element
    set_list_item self index value h = and_then (get_write_array field self h) λ array h'.
        elim (place (length (h'.arrays array)) index) [
          | none ↦ crashed
          | some i ↦ write_element array i value h'
        ]

    unfoldable pub add_item : (self : ℕ) (value : Sv) → Heap → Outcome Unit
    unfolding get_write_array write_element
    add_item self value h =
        and_then (get_write_array field self h)
          λ array h'. write_element array (length (h'.arrays array)) value h'

    -- hv_fetch_ent with `lval` set makes the entry first.
    unfoldable pub write_entry : (hash key : ℕ) (value : Sv) → Heap → Outcome Unit
    unfolding copy_value write_copied
    write_entry hash key value h =
        let target = value_or_new (find key (h.hashes hash)) in
        write_copied (copy_value field target value)
          (λ new. with_hash hash (assign key new (h.hashes hash)) h)
          (with_hash hash (assign key target (h.hashes hash)) h)

    unfoldable pub set_map_item : (self key : ℕ) (value : Sv) → Heap → Outcome Unit
    unfolding get_write_hash write_entry
    set_map_item self key value h =
        and_then (get_write_hash field self h) λ hash h'. write_entry hash key value h'

-- The whole lists and maps. Reference counts are left out.
module _ (field : MappedField) where
  unfoldable pub list_size : (self : ℕ) → Heap → Outcome ℕ
  unfolding get_read_array
  list_size self h =
      and_then (get_read_array field self h) λ array h'. elim array [
        | none ↦ returned 0 h'
        | some a ↦ returned (length (h'.arrays a)) h'
      ]

  unfoldable pub get_list : (self : ℕ) → Heap → Outcome Sv
  unfolding get_read_array
  get_list self h =
      and_then (get_read_array field self h)
        λ array h'. elim array [ none ↦ returned undef h' | some a ↦ returned (array_ref a) h' ]

  -- The field is made to refer to what `ref` refers to, whatever it referred to before.
  unfoldable pub refer_to : (self : ℕ) (ref : Sv) → Heap → Outcome Unit
  unfolding get_write_field write_field
  refer_to self ref h =
      let (field_ref, h') = get_write_field field self h in
      if not (sv_ok field_ref) || sv_rok field_ref
      then returned tt (write_field field self ref h')
      else croaked value_of_not_reference h'

  unfoldable pub set_list : (self : ℕ) (ref : Sv) → Heap → Outcome Unit
  unfolding refer_to
  set_list self (array_ref a) h = refer_to self (array_ref a) h
  set_list self _ h = croaked value_for_not_array h

  unfoldable pub get_map : (self : ℕ) → Heap → Outcome Sv
  unfolding get_read_hash
  get_map self h =
      and_then (get_read_hash field self h)
        λ hash h'. elim hash [ none ↦ returned undef h' | some a ↦ returned (hash_ref a) h' ]

  unfoldable pub set_map : (self : ℕ) (ref : Sv) → Heap → Outcome Unit
  unfolding refer_to
  set_map self (hash_ref a) h = refer_to self (hash_ref a) h
  set_map self (bigint text) h = refer_to self (bigint text) h
  set_map self _ h = croaked value_for_not_hash h
