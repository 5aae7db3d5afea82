-- ===== src/Mapper/Handlers/Calls.antt =====
-- The handlers of Mapper::DecoderHandlers in src/mapper.cpp, each as a function of its state.
use google_protobuf_dynamic.Common.{
  ℕ, suc, ◌-◌, ◌^◌, ◌==◌, ltb, leb, if◌then◌else◌, Bool, true, false, not, ◌&&◌, ◌||◌, Option, none,
  some, List, [], ◌∷◌, ◌++◌, ◌>>=◌, length, get_elem?, set, replicate,
}
use google_protobuf_dynamic.Common.Sorting.{contains}
use google_protobuf_dynamic.Pb.Descriptor.{assign}
use google_protobuf_dynamic.Mapper.Bigint.{bigint_text}
use google_protobuf_dynamic.Mapper.Scalars.{
  Sv, undef, iv, uv, nv, pv, bigint, json_bool, array_ref, hash_ref, PerlScalars, sv_ok, with_hash,
  new_av, new_hv, UpbType, type_float, type_double, type_bool, type_string, type_bytes,
  type_message, type_enum, type_int32, type_uint32, type_int64, type_uint64, Defaults, set_bool,
  set_perl_bool, set_numeric_bool,
}
use google_protobuf_dynamic.Mapper.Handlers.{
  HandlerField, HandlerMapper, get_track_seen_fields, Item, av, hv, sv, null, Target,
  DecoderHandlers, Handled, back, pop_back, set_back, read_target, write_target, current_field,
  mark_seen, get_target, get_hash_item_target, push_mapper, pop_mapper,
}

-- What the handlers use of Perl besides: the key that a scalar or a text stands for in a hash.
pub record PerlKeys : Type 0 where
  pub key_of_sv : Sv → ℕ
  pub key_of_text : List ℕ → ℕ

abbrev pub utf8_flag : Sv → Bool
utf8_flag (pv text is_utf8) = is_utf8
utf8_flag _ = false

abbrev pub text_of : Sv → List ℕ
text_of (pv text is_utf8) = text
text_of _ = []

module _ (table : ℕ → HandlerMapper) (perl : PerlScalars) (keys : PerlKeys) where
  -- The scalar that `get_target` gives is set.
  unfoldable pub store : (index : ℕ) → (Sv → Sv) → DecoderHandlers → Handled Bool
  store index change s = get_target table index s >>= λ (target, s').
      read_target target s' >>= λ old.
      write_target target (change old) s' >>= λ s''. some (true, s'')

  unfoldable pub mark_and_store : (index : ℕ) → (Sv → Sv) → DecoderHandlers → Handled Bool
  unfolding store
  mark_and_store index change s = mark_seen table index s >>= store index change

  unfoldable pub on_nv : (index val : ℕ) → DecoderHandlers → Handled Bool
  unfolding mark_and_store
  on_nv index val s = mark_and_store index (λ old. nv val) s

  unfoldable pub on_iv : (index val : ℕ) → DecoderHandlers → Handled Bool
  unfolding mark_and_store
  on_iv index val s = mark_and_store index (λ old. iv val) s

  unfoldable pub on_uv : (index val : ℕ) → DecoderHandlers → Handled Bool
  unfolding mark_and_store
  on_uv index val s = mark_and_store index (λ old. uv val) s

  unfoldable pub on_bigiv : (index val : ℕ) → DecoderHandlers → Handled Bool
  unfolding mark_and_store
  on_bigiv index val s =
      if ltb val (2 ^ 31) || leb (2 ^ 64 - 2 ^ 31) val
      then mark_and_store index (λ old. iv val) s
      else mark_and_store index (λ old. bigint (bigint_text val (leb (2 ^ 63) val))) s

  unfoldable pub on_biguv : (index val : ℕ) → DecoderHandlers → Handled Bool
  unfolding mark_and_store
  on_biguv index val s =
      if ltb val (2 ^ 32)
      then mark_and_store index (λ old. iv val) s
      else mark_and_store index (λ old. bigint (bigint_text val false)) s

  -- A value that the enumeration does not have is dropped, or is the default in an array. The code
  -- reads the type of the last item, which must not be NULL.
  unfoldable pub on_enum : (index val : ℕ) → DecoderHandlers → Handled Bool
  unfolding mark_and_store store
  on_enum index val s = current_field table index s >>= λ field.
      if contains val field.enum_values
      then mark_and_store index (λ old. iv val) s
      else (back s.items >>= λ item. elim item [
        | av a ↦ store index (λ old. iv field.defaults.default_int32) s
        | null ↦ none
        | hv a ↦ some (true, s)
        | sv v ↦ some (true, s)
      ])

  unfoldable pub on_perl_bool : (index : ℕ) → Bool → DecoderHandlers → Handled Bool
  unfolding mark_and_store
  on_perl_bool index val s = mark_and_store index (λ old. set_perl_bool perl old val) s

  unfoldable pub on_numeric_bool : (index : ℕ) → Bool → DecoderHandlers → Handled Bool
  unfolding mark_and_store
  on_numeric_bool index val s = mark_and_store index (λ old. set_numeric_bool val) s

  unfoldable pub on_json_bool : (index : ℕ) → Bool → DecoderHandlers → Handled Bool
  unfolding mark_and_store
  on_json_bool index val s = mark_and_store index (λ old. json_bool val) s

  -- SvPOK_on, SvCUR_set and SvUTF8_on: the flag of the text that was there is never taken off.
  unfoldable pub on_string :
      (index : ℕ) (buf : List ℕ) (is_utf8 : Bool) → DecoderHandlers → Handled Bool
  unfolding mark_and_store
  on_string index buf is_utf8 s = mark_and_store index (λ old. pv buf (utf8_flag old || is_utf8)) s

  unfoldable pub on_start_string : (index : ℕ) → DecoderHandlers → Option DecoderHandlers
  on_start_string index s = mark_seen table index s >>= λ s1.
      get_target table index s1 >>= λ (t, s2). read_target t s2 >>= λ old.
      write_target t (pv [] (utf8_flag old)) s2 >>= λ s3. some (record s3 { string = some t })

  unfoldable pub on_append_string : (buf : List ℕ) → DecoderHandlers → Option DecoderHandlers
  on_append_string buf s = s.string >>= λ t.
      read_target t s >>= λ old. write_target t (pv (text_of old ++ buf) (utf8_flag old)) s

  unfoldable pub is_string_type : UpbType → Bool
  is_string_type type_string = true
  is_string_type _ = false

  unfoldable pub on_end_string : (index : ℕ) → DecoderHandlers → Handled Bool
  unfolding is_string_type
  on_end_string index s = current_field table index s >>= λ field. s.string >>= λ t.
      read_target t s >>= λ old.
      write_target t (pv (text_of old) (utf8_flag old || is_string_type field.type)) s >>= λ s'.
      some (true, record s' { string = none })

  unfoldable pub on_string_key : (buf : List ℕ) → DecoderHandlers → Option DecoderHandlers
  on_string_key buf s = back s.map_keys >>= λ k.
      set_back (record k { key_buffer = some buf }) s.map_keys >>= λ map_keys.
      some (record s { map_keys = map_keys })

  unfoldable pub push_items : List Item → DecoderHandlers → DecoderHandlers
  push_items new s = record s { items = new ++ s.items }

  -- The array, or hash, that the target refers to, or a new one; a reference to anything else is
  -- taken for one, which is undefined.
  unfoldable pub array_in : Target → Sv → DecoderHandlers → Handled ℕ
  array_in t undef s =
      write_target t (array_ref s.heap.next) (record s { heap = new_av s.heap }) >>= λ s'.
      some (s.heap.next, s')
  array_in t (array_ref a) s = some (a, s)
  array_in t _ s = none

  unfoldable pub hash_in : Target → Sv → DecoderHandlers → Handled ℕ
  hash_in t undef s =
      write_target t (hash_ref s.heap.next) (record s { heap = new_hv s.heap }) >>= λ s'.
      some (s.heap.next, s')
  hash_in t (hash_ref a) s = some (a, s)
  hash_in t _ s = none

  unfoldable pub on_start_sequence : (index : ℕ) → DecoderHandlers → Option DecoderHandlers
  unfolding array_in push_items
  on_start_sequence index s = mark_seen table index s >>= λ s1.
      get_hash_item_target table index s1 >>= λ (t, s2).
      read_target t s2 >>= λ old. array_in t old s2 >>= λ (a, s3). some (push_items (av a ∷ []) s3)

  unfoldable pub on_end_sequence : DecoderHandlers → Handled Bool
  on_end_sequence s = pop_back s.items >>= λ items. some (true, record s { items = items })

  -- No vectors for the seen fields and oneofs are pushed here.
  unfoldable pub on_start_map : (index : ℕ) → DecoderHandlers → Option DecoderHandlers
  unfolding hash_in push_items
  on_start_map index s = mark_seen table index s >>= λ s1. current_field table index s1 >>= λ field.
      get_hash_item_target table index s1 >>= λ (t, s2). read_target t s2 >>= λ old.
      hash_in t old s2 >>= λ (a, s3).
      let s4 = push_items (null ∷ hv a ∷ []) (push_mapper table field.mapper s3) in
      some (record s4 { map_keys = (record { key_sv = undef; key_buffer = none }) ∷ s4.map_keys })

  unfoldable pub on_end_map : DecoderHandlers → Handled Bool
  on_end_map s = pop_mapper table s >>= λ s1. pop_back s1.items >>= λ below.
      pop_back below >>= λ items. pop_back s1.map_keys >>= λ map_keys.
      some (true, record s1 { items = items; map_keys = map_keys })

  -- The vectors for the fields and oneofs that were seen of the new message, where it needs them.
  abbrev pub push_seen : HandlerMapper → DecoderHandlers → DecoderHandlers
  push_seen m s = record s {
    seen_fields =
        if s.track_seen_fields
        then replicate (length m.fields) false ∷ s.seen_fields
        else s.seen_fields;
    seen_oneof =
        if m.oneof_count == 0 then s.seen_oneof else replicate m.oneof_count none ∷ s.seen_oneof;
  }

  unfoldable pub on_start_sub_message : (index : ℕ) → DecoderHandlers → Option DecoderHandlers
  unfolding hash_in push_items
  on_start_sub_message index s = mark_seen table index s >>= λ s1.
      current_field table index s1 >>= λ field. get_target table index s1 >>= λ (t, s2).
      read_target t s2 >>= λ old. hash_in t old s2 >>= λ (a, s3).
      some (
        push_seen (table field.mapper) (push_mapper table field.mapper (push_items (hv a ∷ []) s3)))

  unfoldable pub on_end_sub_message : DecoderHandlers → Handled Bool
  on_end_sub_message s = back s.mappers >>= λ m.
      (if (table m).oneof_count == 0 then some s.seen_oneof else pop_back s.seen_oneof)
      >>= λ seen_oneof.
          (if s.track_seen_fields then pop_back s.seen_fields else some s.seen_fields)
          >>= λ seen_fields.
              pop_mapper table (record s { seen_oneof = seen_oneof; seen_fields = seen_fields })
              >>= λ s1. pop_back s1.items >>= λ items. some (true, record s1 { items = items })

  abbrev string_default : (utf8 : Bool) → Defaults → Sv → Sv
  string_default true d target = perl.sv_utf8_on (perl.sv_setpvn target d.default_string)
  string_default false d target = perl.sv_setpvn target d.default_string

  -- `apply_default`: a message has none.
  unfoldable pub apply_default : HandlerMapper → UpbType → Defaults → (target : Sv) → Sv
  apply_default m type_float d target = nv (perl.float_nv d.default_float)
  apply_default m type_double d target = nv d.default_double
  apply_default m type_bool d target = set_bool perl m.boolean_style target d.default_bool
  apply_default m type_bytes d target = string_default false d target
  apply_default m type_string d target = string_default true d target
  apply_default m type_enum d target = iv d.default_int32
  apply_default m type_int32 d target = iv d.default_int32
  apply_default m type_uint32 d target = uv d.default_uint32
  apply_default m type_int64 d target = iv d.default_int64
  apply_default m type_uint64 d target = uv d.default_uint64
  apply_default m type_message d target = target

  unfoldable pub apply_map_value_default : HandlerMapper → (target : Sv) → Option Sv
  unfolding apply_default
  apply_map_value_default m target = get_elem? m.fields m.map_value_index >>= λ field.
      some (apply_default m field.type field.defaults target)

  -- The value of the last item, or the default where there is none.
  unfoldable pub entry_value : DecoderHandlers → Item → Option Sv
  unfolding apply_map_value_default
  entry_value s (sv v) = some v
  entry_value s null = back s.mappers >>= λ m. apply_map_value_default (table m) undef
  entry_value s _ = none

  -- The entry is stored where there is a key; without one there is a warning.
  unfoldable pub store_entry :
      (key : Option ℕ) (hash : ℕ) → Item → DecoderHandlers → Option DecoderHandlers
  unfolding entry_value
  store_entry none hash item s = some (record s { warnings = suc s.warnings })
  store_entry (some key) hash item s = entry_value s item >>= λ v.
      some (record s { heap = with_hash hash (assign key v (s.heap.hashes hash)) s.heap })

  -- The hash and the value, the last two items.
  unfoldable pub map_items : List Item → Option (ℕ × Item × List Item)
  map_items (value ∷ hv hash ∷ rest) = some (hash, value, rest)
  map_items _ = none

  unfoldable pub on_end_map_entry : DecoderHandlers → Handled Bool
  unfolding map_items store_entry
  on_end_map_entry s = map_items s.items >>= λ (hash, value, rest). back s.map_keys >>= λ k.
      store_entry (if sv_ok k.key_sv then some (keys.key_of_sv k.key_sv) else none) hash value s
      >>= λ s1. set_back (record k { key_sv = undef }) s.map_keys >>= λ map_keys.
          (if s.track_seen_fields
            then (back s.seen_fields >>= λ seen.
                get_elem? seen 1 >>= λ b. set_back (set seen 1 false) s.seen_fields)
            else some s.seen_fields)
          >>= λ seen_fields. some (
            true,
            record s1 {
              items = null ∷ hv hash ∷ rest;
              map_keys = map_keys;
              seen_fields = seen_fields;
            },
          )

  unfoldable pub on_end_string_map_entry : DecoderHandlers → Handled Bool
  unfolding map_items store_entry
  on_end_string_map_entry s = map_items s.items >>= λ (hash, value, rest). back s.map_keys >>= λ k.
      store_entry (k.key_buffer >>= λ buf. some (keys.key_of_text buf)) hash value s >>= λ s1.
      set_back (record k { key_buffer = none }) s.map_keys >>= λ map_keys.
      some (true, record s1 { items = null ∷ hv hash ∷ rest; map_keys = map_keys })

  -- The loop of `apply_defaults_and_check`, over the fields from index `i` on.
  unfoldable pub check_fields :
      HandlerMapper
      → (i : ℕ) → List HandlerField
      → (seen : List Bool) → DecoderHandlers
      → Handled Bool
  unfolding apply_default
  check_fields m i [] seen s = some (true, s)
  check_fields m i (field ∷ fields) [] s = none
  check_fields m i (field ∷ fields) (field_seen ∷ seen) s =
      if not field_seen && m.decode_explicit_defaults && field.has_default
      then (get_target table i s >>= λ (t, s1). read_target t s1 >>= λ old.
          if sv_ok old
          then check_fields m (suc i) fields seen s1
          else (write_target t (apply_default m field.type field.defaults old) s1 >>= λ s2.
              check_fields m (suc i) fields seen s2))
      else (if not field_seen && m.check_required_fields && field.required
          then some (false, record s { error = some field.name })
          else check_fields m (suc i) fields seen s)

  unfoldable pub apply_defaults_and_check : DecoderHandlers → Handled Bool
  unfolding check_fields
  apply_defaults_and_check s = back s.mappers >>= λ m.
      if get_track_seen_fields (table m)
      then (back s.seen_fields >>= λ seen. check_fields (table m) 0 (table m).fields seen s)
      else some (true, s)

  -- `on_end_message`; `status_ok` is false for a status that has an error.
  unfoldable pub on_end_message : (status_ok : Bool) → DecoderHandlers → Handled Bool
  unfolding apply_defaults_and_check
  on_end_message status_ok s =
      if s.track_seen_fields
      then (if status_ok then apply_defaults_and_check s else some (false, s))
      else some (true, s)
