-- ===== src/Examples/Handlers.antt =====
-- Runs of the handlers of src/mapper.cpp.
use google_protobuf_dynamic.Common.{
  ℕ, zero, ◌≡◌, suc, refl, ap, subst, ◌∙◌, ◌==◌, if◌then◌else◌, Bool, true, false, ◌||◌, Option,
  none, some, List, [], ◌∷◌, ◌>>=◌, get_elem?, arith, length,
}
use mathlib.Core.Option.{some-injective}
use google_protobuf_dynamic.Pb.Descriptor.{find, assign, erase}
use google_protobuf_dynamic.Dynamic.Options.{BoolStyle}
use google_protobuf_dynamic.Mapper.Visitor.{on_iv}
use google_protobuf_dynamic.Mapper.Scalars.{
  Sv, undef, iv, pv, array_ref, type_int32, type_string, type_enum, type_message, UpbType, update,
}
use google_protobuf_dynamic.Mapper.Handlers.{
  FieldTarget, target_map_key, target_map_value, target_array_item, target_hash_item, HandlerField,
  HandlerMapper, Item, av, hv, sv, null, Target, entry, DecoderHandlers, get_target, target_of,
  note_oneof, delete_other, mark_seen, current_field, get_hash_item_target, read_target,
  write_target,
}
use google_protobuf_dynamic.Mapper.Handlers.Calls as Calls
use google_protobuf_dynamic.Mapper.Handlers.Calls.{
  PerlKeys, store, mark_and_store, entry_value, apply_map_value_default, apply_default,
  check_fields, is_string_type, array_in, hash_in, push_items, store_entry, map_items,
}
use google_protobuf_dynamic.Mapper.Handlers.Dispatch.{handle}
use google_protobuf_dynamic.Mapper.Handlers.Balance.{Framed}
use google_protobuf_dynamic.Mapper.Handlers.Nesting.{
  Balanced, done, leaf, sequence, Balanced-Framed,
}
use google_protobuf_dynamic.Mapper.Handlers.Oneof.{Noted, get_target-OneMember}
use google_protobuf_dynamic.Mapper.Handlers.Required.{on_end_message-verdict, check_fields-seen}
use google_protobuf_dynamic.Mapper.Handlers.Entries.{on_end_string_map_entry-stored, in_entry}
use google_protobuf_dynamic.Mapper.Handlers.Texts.{Starts, on_end_string-concat}
use google_protobuf_dynamic.Examples.Accessors.{sample_scalars, no_defaults}

abbrev handler_field :
    (name : ℕ) → FieldTarget → Option ℕ → (mapper : ℕ) (required : Bool) → UpbType → HandlerField
handler_field name target oneof mapper required type = record {
  name = name;
  field_target = target;
  oneof_index = oneof;
  mapper = mapper;
  has_default = false;
  required = required;
  type = type;
  defaults = no_defaults;
  enum_values = 1 ∷ 2 ∷ [];
}

-- Mapper 0 has a required number, two members of a oneof, a list, a message of the mapper 0, a text
-- and a map of the mapper 1, whose values are of an enumeration with the numbers 1 and 2.
abbrev message_fields : List HandlerField
message_fields =
    handler_field 1 target_hash_item none 0 true type_int32
    ∷ handler_field 2 target_hash_item (some 0) 0 false type_int32
    ∷ handler_field 3 target_hash_item (some 0) 0 false type_int32
    ∷ handler_field 4 target_array_item none 0 false type_int32
    ∷ handler_field 5 target_hash_item none 0 false type_message
    ∷ handler_field 6 target_hash_item none 0 false type_string
    ∷ handler_field 7 target_array_item none 1 false type_message
    ∷ []

abbrev entry_fields : List HandlerField
entry_fields =
    handler_field 1 target_map_key none 0 false type_int32
    ∷ handler_field 2 target_map_value none 0 false type_enum
    ∷ []

abbrev sample_table : ℕ → HandlerMapper
sample_table m = record {
  fields = if m == 0 then message_fields else entry_fields;
  oneof_count = if m == 0 then 1 else 0;
  check_required_fields = m == 0;
  decode_explicit_defaults = false;
  boolean_style = BoolStyle.perl;
  map_value_index = 1;
}

abbrev sample_keys : PerlKeys
sample_keys = record { key_of_sv = λ v. 0; key_of_text = λ text. length text }

abbrev no_bytes : (buffer len : ℕ) → List ℕ
no_bytes buffer len = []

-- The state in front of a message that is decoded to the empty hash at 1.
abbrev ready : DecoderHandlers
ready = record {
  heap = record { arrays = λ a. []; hashes = λ a. []; next = 2 };
  items = hv 1 ∷ [];
  map_keys = [];
  mappers = 0 ∷ [];
  seen_fields = (false ∷ false ∷ false ∷ false ∷ false ∷ false ∷ false ∷ []) ∷ [];
  seen_oneof = (none ∷ []) ∷ [];
  error = none;
  string = none;
  track_seen_fields = true;
  warnings = 0;
}

-- The second member of the oneof, when the first one was seen and has an entry.
abbrev one_member : DecoderHandlers
one_member = record ready {
  heap = record { arrays = λ a. []; hashes = λ a. (2, iv 20) ∷ []; next = 2 };
  seen_oneof = (some 1 ∷ []) ∷ [];
}

-- A list with one number is decoded: the states inside the list, and after it.
abbrev list_state : (arrays : ℕ → List (Option Sv)) → List Item → DecoderHandlers
list_state arrays items = record ready {
  heap = record {
    arrays = arrays;
    hashes = update (update (λ a. []) 1 ((4, undef) ∷ [])) 1 ((4, array_ref 2) ∷ []);
    next = 3;
  };
  items = items;
  seen_fields = (false ∷ false ∷ false ∷ true ∷ false ∷ false ∷ false ∷ []) ∷ [];
}

abbrev empty_list : ℕ → List (Option Sv)
empty_list = update (λ a. []) 2 []

abbrev one_number : ℕ → List (Option Sv)
one_number = update (update empty_list 2 (some undef ∷ [])) 2 (some (iv 8) ∷ [])

list_run :
    Balanced sample_table sample_scalars sample_keys no_bytes ready
      (list_state one_number (hv 1 ∷ []))
unfolding handle Calls.on_start_sequence Calls.on_iv Calls.on_end_sequence mark_seen get_target
    target_of get_hash_item_target current_field read_target write_target mark_and_store store
    array_in push_items find assign
list_run =
    sequence {s1 = list_state empty_list (av 2 ∷ hv 1 ∷ [])}
      {s2 = list_state one_number (av 2 ∷ hv 1 ∷ [])} {s3 = list_state one_number (hv 1 ∷ [])} 3
      refl (leaf {s1 = list_state one_number (av 2 ∷ hv 1 ∷ [])} (on_iv 3 8) refl refl done) refl
      done

Balanced-Framed_example : Framed ready (list_state one_number (hv 1 ∷ []))
Balanced-Framed_example =
    Balanced-Framed sample_table sample_scalars sample_keys no_bytes {s = ready}
      {s' = list_state one_number (hv 1 ∷ [])}
      (λ m e. ap (λ (k : ℕ). k == 0 || false) (some-injective _ _ e)) list_run

name_of : (i : ℕ) (a : HandlerField) → get_elem? message_fields i ≡ some a → suc i ≡ a.name
name_of zero a e = ap (λ (f : HandlerField). f.name) (some-injective _ _ e)
name_of (suc zero) a e = ap (λ (f : HandlerField). f.name) (some-injective _ _ e)
name_of (suc (suc zero)) a e = ap (λ (f : HandlerField). f.name) (some-injective _ _ e)
name_of (suc (suc (suc zero))) a e = ap (λ (f : HandlerField). f.name) (some-injective _ _ e)
name_of (suc (suc (suc (suc zero)))) a e = ap (λ (f : HandlerField). f.name) (some-injective _ _ e)
name_of (suc (suc (suc (suc (suc zero))))) a e =
    ap (λ (f : HandlerField). f.name) (some-injective _ _ e)
name_of (suc (suc (suc (suc (suc (suc zero)))))) a e =
    ap (λ (f : HandlerField). f.name) (some-injective _ _ e)
name_of (suc (suc (suc (suc (suc (suc (suc i))))))) a e = cc e

names_differ :
    (i j : ℕ) (a b : HandlerField)
    → get_elem? message_fields i ≡ some a
    → get_elem? message_fields j ≡ some b
    → a.name ≡ b.name
    → i ≡ j
names_differ i j a b at_i at_j same = omega (arith, name_of i a at_i, same, name_of j b at_j)

one_member-OneMember :
    (i k : ℕ) (field : HandlerField) (v : Sv)
    → get_elem? message_fields i ≡ some field
    → field.oneof_index ≡ some k
    → find field.name ((2, iv 20) ∷ []) ≡ some v
    → get_elem? (some 1 ∷ []) k ≡ some (some i)
unfolding find
one_member-OneMember zero k field v at_i grouped there = ground (arith, at_i, grouped, there)
one_member-OneMember (suc zero) k field v at_i grouped there =
    subst (λ (x : ℕ). get_elem? {A = Option ℕ} (some 1 ∷ []) x ≡ some (some 1))
      (some-injective _ _
        (ap (λ (f : HandlerField). f.oneof_index) (some-injective _ _ at_i) ∙ grouped))
      refl
one_member-OneMember (suc (suc i)) k field v at_i grouped there =
    ground (arith, name_of (suc (suc i)) field at_i, there)

-- The other member has the entry then.
abbrev second_seen : DecoderHandlers
second_seen = record ready {
  heap = record {
    arrays = λ a. [];
    hashes = update (update (λ a. (2, iv 20) ∷ []) 1 []) 1 ((3, undef) ∷ []);
    next = 2;
  };
  seen_oneof = (some 2 ∷ []) ∷ [];
}

get_target-OneMember_example :
    Noted sample_table message_fields names_differ 2 1
      (handler_field 3 target_hash_item (some 0) 0 false type_int32)
      refl
      0
      (some 1 ∷ [])
      (entry 1 3, second_seen)
unfolding get_target target_of note_oneof delete_other find assign erase
get_target-OneMember_example =
    get_target-OneMember sample_table message_fields names_differ 2 1
      (handler_field 3 target_hash_item (some 0) 0 false type_int32) refl 0 0 (some 1 ∷ [])
      one_member (entry 1 3, second_seen) refl refl refl refl refl refl (refl, tt)
      one_member-OneMember refl

on_end_message-verdict_example :
    Calls.on_end_message sample_table sample_scalars sample_keys true ready
    ≡ some (false, record ready { error = some 1 })
on_end_message-verdict_example =
    on_end_message-verdict sample_table sample_scalars sample_keys 0
      (false ∷ false ∷ false ∷ false ∷ false ∷ false ∷ false ∷ []) ready refl refl refl refl refl
      (omega arith)

check_fields-seen_example :
    get_elem? (true ∷ false ∷ false ∷ false ∷ false ∷ false ∷ false ∷ []) 0 ≡ some true
unfolding check_fields
check_fields-seen_example =
    check_fields-seen sample_table sample_scalars sample_keys (sample_table 0) 0 0 message_fields
      (true ∷ false ∷ false ∷ false ∷ false ∷ false ∷ false ∷ []) ready ready
      (handler_field 1 target_hash_item none 0 true type_int32) refl refl refl refl refl

abbrev in_text_entry : DecoderHandlers
in_text_entry =
    in_entry sample_table sample_scalars sample_keys 1 (sv (iv 2)) []
      (record { key_sv = undef; key_buffer = none }) [] ready

on_end_string_map_entry-stored_example :
    (s' : DecoderHandlers) × ((Calls.on_string_key sample_table sample_scalars sample_keys
          (97 ∷ 98 ∷ [])
          in_text_entry
        >>= Calls.on_end_string_map_entry sample_table sample_scalars sample_keys)
      ≡ some (true, s'))
    × (s'.items ≡ null ∷ hv 1 ∷ [])
    × (s'.map_keys ≡ (record { key_sv = undef; key_buffer = none }) ∷ [])
    × ((key : ℕ) → find key (s'.heap.hashes 1) ≡ (if 2 == key then some (iv 2) else find key []))
unfolding entry_value
on_end_string_map_entry-stored_example =
    on_end_string_map_entry-stored sample_table sample_scalars sample_keys (97 ∷ 98 ∷ []) 1
      (sv (iv 2)) (iv 2) [] (record { key_sv = undef; key_buffer = none }) [] ready refl

-- The message while a text in two pieces is decoded.
abbrev text_state : (hashes : ℕ → List (ℕ × Sv)) → Option Target → DecoderHandlers
text_state hashes string = record ready {
  heap = record { arrays = λ a. []; hashes = hashes; next = 2 };
  seen_fields = (false ∷ false ∷ false ∷ false ∷ false ∷ true ∷ false ∷ []) ∷ [];
  string = string;
}

abbrev write_text : (text : List ℕ) → Bool → (ℕ → List (ℕ × Sv)) → ℕ → List (ℕ × Sv)
write_text text flag hashes = update hashes 1 ((6, pv text flag) ∷ [])

abbrev started : ℕ → List (ℕ × Sv)
started = write_text [] false (update (λ a. []) 1 ((6, undef) ∷ []))

abbrev filled : ℕ → List (ℕ × Sv)
filled = write_text (97 ∷ 98 ∷ []) false (write_text (97 ∷ []) false started)

on_end_string-concat_example :
    (t : Target) × (old : Sv) × Starts sample_table sample_scalars sample_keys 5 t old ready
    × (some (entry 1 6) ≡ some t)
    × (read_target t (text_state (write_text (97 ∷ 98 ∷ []) true filled) none)
        ≡ some (
            pv (97 ∷ 98 ∷ []) (
              Calls.utf8_flag old
              || is_string_type sample_table sample_scalars sample_keys type_string)))
unfolding Calls.on_start_string Calls.on_append_string Calls.on_end_string is_string_type mark_seen
    current_field get_target target_of note_oneof read_target write_target find assign
on_end_string-concat_example =
    on_end_string-concat sample_table sample_scalars sample_keys 5 ((97 ∷ []) ∷ (98 ∷ []) ∷ [])
      (handler_field 6 target_hash_item none 0 false type_string) ready
      (text_state started (some (entry 1 6))) (text_state filled (some (entry 1 6)))
      (text_state (write_text (97 ∷ 98 ∷ []) true filled) none) true refl refl refl refl
