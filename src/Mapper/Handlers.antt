-- ===== src/Mapper/Handlers.antt =====
-- Mapper::DecoderHandlers of src/mapper.h and mapper.cpp: the calls that build Perl's data while a
-- message is decoded. No mapper has a transformation here, so there is no field table, and no
-- object is blessed; Perl's reference counts are left out.
pub mod Calls
pub mod Dispatch
pub mod Balance
pub mod Leaves
pub mod Ends
pub mod Nesting
pub mod Oneof
pub mod Required
pub mod Entries
pub mod Texts
use google_protobuf_dynamic.Common.{
  ℕ, zero, suc, ◌-◌, ◌^◌, ◌==◌, ltb, leb, if◌then◌else◌, Bool, true, false, not, ◌&&◌, ◌||◌, Option,
  none, some, List, [], ◌∷◌, ◌++◌, ◌>>=◌, length, get_elem?, set, replicate,
}
use google_protobuf_dynamic.Common.Sorting.{contains}
use google_protobuf_dynamic.Pb.Descriptor.{find, assign, erase}
use google_protobuf_dynamic.Dynamic.Options.{BoolStyle}
use google_protobuf_dynamic.Mapper.Bigint.{bigint_text}
use google_protobuf_dynamic.Mapper.Scalars.{
  Sv, undef, iv, uv, nv, pv, bigint, json_bool, array_ref, hash_ref, PerlScalars, sv_ok, Heap,
  with_array, with_hash, new_av, new_hv, UpbType, type_float, type_double, type_bool, type_string,
  type_bytes, type_message, type_enum, type_int32, type_uint32, type_int64, type_uint64, Defaults,
  set_bool, set_perl_bool, set_numeric_bool,
}

pub data FieldTarget : Type 0 where
  target_map_key target_map_value target_array_item target_hash_item : FieldTarget

-- What the handlers use of a mapper's field, and of a mapper. A name is a number, and so is a
-- mapper; the `oneof_index` -1 is `none`.
pub record HandlerField : Type 0 where
  pub name : ℕ
  pub field_target : FieldTarget
  pub oneof_index : Option ℕ
  pub mapper : ℕ
  pub has_default : Bool
  pub required : Bool
  pub type : UpbType
  pub defaults : Defaults
  pub enum_values : List ℕ

pub record HandlerMapper : Type 0 where
  pub fields : List HandlerField
  pub oneof_count : ℕ
  pub check_required_fields : Bool
  pub decode_explicit_defaults : Bool
  pub boolean_style : BoolStyle
  pub map_value_index : ℕ

abbrev pub get_track_seen_fields : HandlerMapper → Bool
get_track_seen_fields m = m.check_required_fields || m.decode_explicit_defaults

-- An element of `items`: an array, a hash, the scalar of a map's value, or NULL.
pub data Item : Type 0 where
  av hv : (address : ℕ) → Item
  sv : Sv → Item
  null : Item

-- struct MapKey
pub record MapKey : Type 0 where
  pub key_sv : Sv
  pub key_buffer : Option (List ℕ)

-- The scalar that `get_target` gives: an entry, an element, the last map key's, or the last item.
pub data Target : Type 0 where
  entry : (hash name : ℕ) → Target
  element : (array i : ℕ) → Target
  key value : Target

-- The vectors are lists with the back at their head. `error` has the name of the required field
-- that is missing; `warnings` counts those for a missing key.
pub record DecoderHandlers : Type 0 where
  pub heap : Heap
  pub items : List Item
  pub map_keys : List MapKey
  pub mappers : List ℕ
  pub seen_fields : List (List Bool)
  pub seen_oneof : List (List (Option ℕ))
  pub error : Option ℕ
  pub string : Option Target
  pub track_seen_fields : Bool
  pub warnings : ℕ

-- vector::back, which is undefined for an empty vector.
abbrev pub back {ℓ} : {A : Type ℓ} → List A → Option A
back [] = none
back (x ∷ xs) = some x

abbrev pub pop_back {ℓ} : {A : Type ℓ} → List A → Option (List A)
pop_back [] = none
pop_back (x ∷ xs) = some xs

abbrev pub set_back {ℓ} : {A : Type ℓ} → A → List A → Option (List A)
set_back y [] = none
set_back y (x ∷ xs) = some (y ∷ xs)

unfoldable pub read_target : Target → DecoderHandlers → Option Sv
read_target (entry hash name) s = find name (s.heap.hashes hash)
read_target (element array i) s = get_elem? (s.heap.arrays array) i >>= λ e. e
read_target key s = back s.map_keys >>= λ k. some k.key_sv
read_target value s = back s.items >>= λ item. elim item [ sv v ↦ some v | _ ↦ none ]

unfoldable pub write_target : Target → Sv → DecoderHandlers → Option DecoderHandlers
write_target (entry hash name) v s =
    some (record s { heap = with_hash hash (assign name v (s.heap.hashes hash)) s.heap })
write_target (element array i) v s =
    some (record s { heap = with_array array (set (s.heap.arrays array) i (some v)) s.heap })
write_target key v s = back s.map_keys >>= λ k.
    set_back (record k { key_sv = v }) s.map_keys >>= λ keys. some (record s { map_keys = keys })
write_target value v s = set_back (sv v) s.items >>= λ items. some (record s { items = items })

-- hv_fetch_ent with `lval` set.
abbrev pub ensure_entry : (hash name : ℕ) → Heap → Heap
ensure_entry hash name h = elim (find name (h.hashes hash)) [
  | none ↦ with_hash hash (assign name undef (h.hashes hash)) h
  | some v ↦ h
]

abbrev pub hash_at_back : DecoderHandlers → Option ℕ
hash_at_back s = back s.items >>= λ item. elim item [ hv a ↦ some a | _ ↦ none ]

abbrev pub array_at_back : DecoderHandlers → Option ℕ
array_at_back s = back s.items >>= λ item. elim item [ av a ↦ some a | _ ↦ none ]

-- The entry of the member of a oneof that was seen before, if it is another one, is deleted.
unfoldable pub delete_other :
    List HandlerField → (seen : Option ℕ) (index hash : ℕ) → Heap → Option Heap
delete_other fields none index hash h = some h
delete_other fields (some seen) index hash h =
    if seen == index
    then some h
    else (get_elem? fields seen >>= λ other.
        some (with_hash hash (erase other.name (h.hashes hash)) h))

unfoldable pub note_oneof :
    List HandlerField → Option ℕ → (index hash : ℕ) → DecoderHandlers → Option DecoderHandlers
unfolding delete_other
note_oneof fields none index hash s = some s
note_oneof fields (some k) index hash s = back s.seen_oneof >>= λ row. get_elem? row k >>= λ seen.
    delete_other fields seen index hash s.heap >>= λ h.
    set_back (set row k (some index)) s.seen_oneof >>= λ rows.
    some (record s { heap = h; seen_oneof = rows })

-- Results of the handlers: a value and the new state, or none for undefined behaviour.
abbrev pub Handled : Type 0 → Type 0
Handled A = Option (A × DecoderHandlers)

module _ (table : ℕ → HandlerMapper) where
  unfoldable pub current_field : (index : ℕ) → DecoderHandlers → Option HandlerField
  current_field index s = back s.mappers >>= λ m. get_elem? (table m).fields index

  unfoldable pub mark_seen : (index : ℕ) → DecoderHandlers → Option DecoderHandlers
  mark_seen index s =
      if s.track_seen_fields
      then (back s.seen_fields >>= λ seen. get_elem? seen index >>= λ b.
          set_back (set seen index true) s.seen_fields >>= λ rows.
          some (record s { seen_fields = rows }))
      else some s

  unfoldable pub target_of :
      List HandlerField
      → FieldTarget
      → (oneof_index : Option ℕ) (name index : ℕ) → DecoderHandlers
      → Handled Target
  unfolding note_oneof
  target_of fields target_map_key oneof_index name index s = back s.map_keys >>= λ k. some (key, s)
  target_of fields target_map_value oneof_index name index s =
      set_back (sv undef) s.items >>= λ items. some (value, record s { items = items })
  target_of fields target_array_item oneof_index name index s = array_at_back s >>= λ a. some (
    element a (length (s.heap.arrays a)),
    record s { heap = with_array a (s.heap.arrays a ++ (some undef ∷ [])) s.heap },
  )
  target_of fields target_hash_item oneof_index name index s = hash_at_back s >>= λ a.
      note_oneof fields oneof_index index a s >>= λ s'.
      some (entry a name, record s' { heap = ensure_entry a name s'.heap })

  unfoldable pub get_target : (index : ℕ) → DecoderHandlers → Handled Target
  unfolding target_of
  get_target index s = back s.mappers >>= λ m. get_elem? (table m).fields index >>= λ field.
      target_of (table m).fields field.field_target field.oneof_index field.name index s

  unfoldable pub get_hash_item_target : (index : ℕ) → DecoderHandlers → Handled Target
  unfolding current_field
  get_hash_item_target index s = current_field index s >>= λ field. hash_at_back s >>= λ a.
      some (entry a field.name, record s { heap = ensure_entry a field.name s.heap })

  -- `push_mapper` and `pop_mapper`
  unfoldable pub push_mapper : (mapper : ℕ) → DecoderHandlers → DecoderHandlers
  push_mapper mapper s = record s {
    mappers = mapper ∷ s.mappers;
    track_seen_fields = get_track_seen_fields (table mapper);
  }

  unfoldable pub pop_mapper : DecoderHandlers → Option DecoderHandlers
  pop_mapper s = pop_back s.mappers >>= λ rest. back rest >>= λ m.
      some (record s { mappers = rest; track_seen_fields = get_track_seen_fields (table m) })

  -- The state that `prepare` leaves: what `resize(1)` keeps of a vector is cleared, but vectors that
  -- the root mapper does not use stay as they were.
  unfoldable pub prepare : (root target : ℕ) → DecoderHandlers → DecoderHandlers
  prepare root target s = record s {
    track_seen_fields = get_track_seen_fields (table root);
    mappers = root ∷ [];
    seen_fields =
        if get_track_seen_fields (table root)
        then replicate (length (table root).fields) false ∷ []
        else s.seen_fields;
    seen_oneof =
        if (table root).oneof_count == 0
        then s.seen_oneof
        else replicate (table root).oneof_count none ∷ [];
    items = hv target ∷ [];
    map_keys = [];
    error = none;
    string = none;
  }
