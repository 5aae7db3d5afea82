-- ===== src/Mapper/Encoder/Scalars.antt =====
-- The encoding of scalars in src/mapper.cpp: the actions of `encode_field` for them, and
-- `encode_from_array`. IVs and UVs have 64 bits. A number is that of its bits, two's complement
-- where it is signed. The sinks that a sink opens are one state with it.
pub mod Calls
pub mod Skipped
pub mod Arrays
use google_protobuf_dynamic.Common.{
  ℕ, suc, ◌^◌, ◌%◌, ◌==◌, if◌then◌else◌, Bool, true, false, not, ◌&&◌, Option, none, some, List, [],
  ◌∷◌, ◌>>=◌, length,
}
use google_protobuf_dynamic.Common.Sorting.{contains}
use google_protobuf_dynamic.Mapper.Context.{
  MapperContext, push_array_level, set_array_index, pop_level,
}
use google_protobuf_dynamic.Mapper.FieldMap.{same_text}
use google_protobuf_dynamic.Mapper.Scalars.{Sv, PerlScalars, sv_rok}
use google_protobuf_dynamic.Mapper.Encoder.{
  EncoderState, reference_used, invalid_enumeration_value, with_context,
}

pub data ValueAction : Type 0 where
  action_invalid : ValueAction
  action_put_float action_put_float_nd action_put_double action_put_double_nd : ValueAction
  action_put_bool action_put_bool_nd action_put_string action_put_string_nd : ValueAction
  action_put_bytes action_put_bytes_nd action_put_enum action_put_enum_nd : ValueAction
  action_put_int32 action_put_int32_nd action_put_uint32 action_put_uint32_nd : ValueAction
  action_put_int64 action_put_int64_nd action_put_uint64 action_put_uint64_nd : ValueAction
  action_put_message action_put_repeated action_put_map action_put_fieldtable : ValueAction

-- Calls of the sink, each with its selector; a float as the sink gets it.
pub data SinkCall : Type 0 where
  put_float put_double put_int32 put_uint32 put_int64 put_uint64 : (selector value : ℕ) → SinkCall
  put_bool : (selector : ℕ) (value : Bool) → SinkCall
  start_string : (selector length : ℕ) → SinkCall
  put_string_buffer : (selector : ℕ) (text : List ℕ) → SinkCall
  end_string start_sequence end_sequence : (selector : ℕ) → SinkCall

-- What the encoding of a scalar uses of Mapper::Field. The default values share a union, of which
-- the field's type says what is in use.
pub record ScalarField : Type 0 where
  pub name : ℕ
  pub field_action : ValueAction
  pub value_action : ValueAction
  pub enum_values : List ℕ
  pub primitive : ℕ
  pub str_start : ℕ
  pub str_cont : ℕ
  pub str_end : ℕ
  pub seq_start : ℕ
  pub seq_end : ℕ
  pub default_text : List ℕ
  pub default_bool : Bool
  pub default_iv : ℕ
  pub default_uv : ℕ
  pub default_nv : ℕ
  pub default_i64 : ℕ
  pub default_u64 : ℕ

-- The sink, and what the code uses of Perl and C besides the conversions: whether a reference is to
-- an object with overloading, `==` of two NVs, and the conversion of an NV to float.
pub record EncoderApi (K : Type 0) : Type 0 where
  pub call : SinkCall → K → Bool × K
  pub has_overloading : Sv → Bool
  pub nv_eq : ℕ → ℕ → Bool
  pub to_float : ℕ → ℕ

pub record CheckOptions : Type 0 where
  pub fail_ref_coercion : Bool
  pub check_enum_values : Bool

module _ {K : Type 0} (perl : PerlScalars) (api : EncoderApi K) (options : CheckOptions) where
  abbrev pub emit : SinkCall → EncoderState K → Bool × EncoderState K
  emit c s = let (ok, k) = api.call c s.sink in (ok, record s { sink = k })

  -- The next call, after one that has returned true.
  abbrev pub if_true :
      Bool × EncoderState K → (EncoderState K → Bool × EncoderState K) → Bool × EncoderState K
  if_true (true, s) next = next s
  if_true (false, s) next = (false, s)

  -- The result of PutStringBuffer is not used.
  unfoldable pub put_string : ScalarField → List ℕ → EncoderState K → Bool × EncoderState K
  put_string fd str s =
      if_true (emit (start_string fd.str_start (length str)) s)
        λ s1. emit (end_string fd.str_end) (emit (put_string_buffer fd.str_cont str) s1).1

  -- Without the change to the status.
  unfoldable pub is_coerced_ref : Sv → Bool
  is_coerced_ref sv = sv_rok sv && not (api.has_overloading sv)

  -- The value as it is in the message, and as an int32_t.
  unfoldable pub put_enum : ScalarField → (value : ℕ) → EncoderState K → Bool × EncoderState K
  put_enum fd value s =
      if options.check_enum_values && not (contains (value % 2 ^ 32) fd.enum_values)
      then (false, record s { status = some (invalid_enumeration_value value fd.name) })
      else emit (put_int32 fd.primitive (value % 2 ^ 32)) s

  -- `if (value == default) return true`
  abbrev pub unless : Bool → EncoderState K → Bool × EncoderState K → Bool × EncoderState K
  unless is_default s r = if is_default then (true, s) else r

  -- The switch of `encode_field` for the scalar actions; false for the others.
  unfoldable pub put_scalar :
      ValueAction → ScalarField → Sv → EncoderState K → Bool × EncoderState K
  unfolding put_string put_enum same_text
  put_scalar action_put_float_nd fd ref s =
      unless (api.nv_eq (perl.sv_nv ref) fd.default_nv) s
        (emit (put_float fd.primitive (api.to_float (perl.sv_nv ref))) s)
  put_scalar action_put_double_nd fd ref s =
      unless (api.nv_eq (perl.sv_nv ref) fd.default_nv) s
        (emit (put_double fd.primitive (perl.sv_nv ref)) s)
  put_scalar action_put_bool_nd fd ref s =
      let value = perl.sv_true ref in
      unless (if value then fd.default_bool else not fd.default_bool) s
        (emit (put_bool fd.primitive value) s)
  put_scalar action_put_string_nd fd ref s =
      let str = perl.sv_pvutf8 ref in unless (same_text str fd.default_text) s (put_string fd str s)
  put_scalar action_put_bytes_nd fd ref s =
      let str = perl.sv_pv ref in unless (same_text str fd.default_text) s (put_string fd str s)
  put_scalar action_put_enum_nd fd ref s =
      unless (perl.sv_iv ref == fd.default_iv) s (put_enum fd (perl.sv_iv ref) s)
  put_scalar action_put_int32_nd fd ref s =
      unless (perl.sv_iv ref == fd.default_iv) s
        (emit (put_int32 fd.primitive (perl.sv_iv ref % 2 ^ 32)) s)
  put_scalar action_put_uint32_nd fd ref s =
      unless (perl.sv_uv ref == fd.default_uv) s
        (emit (put_uint32 fd.primitive (perl.sv_uv ref % 2 ^ 32)) s)
  put_scalar action_put_int64_nd fd ref s =
      unless (perl.sv_iv ref == fd.default_i64) s (emit (put_int64 fd.primitive (perl.sv_iv ref)) s)
  put_scalar action_put_uint64_nd fd ref s =
      unless (perl.sv_uv ref == fd.default_u64) s
        (emit (put_uint64 fd.primitive (perl.sv_uv ref)) s)
  put_scalar action_put_float fd ref s =
      emit (put_float fd.primitive (api.to_float (perl.sv_nv ref))) s
  put_scalar action_put_double fd ref s = emit (put_double fd.primitive (perl.sv_nv ref)) s
  put_scalar action_put_bool fd ref s = emit (put_bool fd.primitive (perl.sv_true ref)) s
  put_scalar action_put_string fd ref s = put_string fd (perl.sv_pvutf8 ref) s
  put_scalar action_put_bytes fd ref s = put_string fd (perl.sv_pv ref) s
  put_scalar action_put_enum fd ref s = put_enum fd (perl.sv_iv ref) s
  put_scalar action_put_int32 fd ref s = emit (put_int32 fd.primitive (perl.sv_iv ref % 2 ^ 32)) s
  put_scalar action_put_uint32 fd ref s = emit (put_uint32 fd.primitive (perl.sv_uv ref % 2 ^ 32)) s
  put_scalar action_put_int64 fd ref s = emit (put_int64 fd.primitive (perl.sv_iv ref)) s
  put_scalar action_put_uint64 fd ref s = emit (put_int64 fd.primitive (perl.sv_uv ref)) s
  put_scalar _ fd ref s = (false, s)

  -- A test for references in front of a call.
  unfoldable pub unless_coerced :
      ScalarField → Sv → EncoderState K → Bool × EncoderState K → Bool × EncoderState K
  unfolding is_coerced_ref
  unless_coerced fd ref s r =
      if options.fail_ref_coercion && is_coerced_ref ref
      then (false, record s { status = some (reference_used fd.name) })
      else r

  -- `encode_field` for a field with a scalar action.
  unfoldable pub encode_scalar : ScalarField → Sv → EncoderState K → Bool × EncoderState K
  unfolding put_scalar unless_coerced
  encode_scalar fd ref s = unless_coerced fd ref s (put_scalar fd.field_action fd ref s)

  -- EnumEmitter, which has the value as an int32_t.
  unfoldable pub enum_emitter : ScalarField → (value : ℕ) → EncoderState K → Bool × EncoderState K
  enum_emitter fd value s =
      if contains value fd.enum_values
      then emit (put_int32 fd.primitive value) s
      else (false, record s { status = some (invalid_enumeration_value value fd.name) })

  -- The getter and setter that `encode_from_perl_array` takes for the action, if it is that of a
  -- scalar.
  unfoldable pub item_setter :
      ValueAction → Option (ScalarField → Sv → EncoderState K → Bool × EncoderState K)
  unfolding put_string enum_emitter
  item_setter action_put_float =
      some (λ fd item s. emit (put_float fd.primitive (api.to_float (perl.sv_nv item))) s)
  item_setter action_put_double =
      some (λ fd item s. emit (put_double fd.primitive (perl.sv_nv item)) s)
  item_setter action_put_bool =
      some (λ fd item s. emit (put_bool fd.primitive (perl.sv_true item)) s)
  item_setter action_put_string = some (λ fd item s. put_string fd (perl.sv_pvutf8 item) s)
  item_setter action_put_bytes = some (λ fd item s. put_string fd (perl.sv_pv item) s)
  item_setter action_put_enum = some (λ fd item s.
      if options.check_enum_values
      then enum_emitter fd (perl.sv_iv item % 2 ^ 32) s
      else emit (put_int32 fd.primitive (perl.sv_iv item % 2 ^ 32)) s)
  item_setter action_put_int32 =
      some (λ fd item s. emit (put_int32 fd.primitive (perl.sv_iv item % 2 ^ 32)) s)
  item_setter action_put_uint32 =
      some (λ fd item s. emit (put_uint32 fd.primitive (perl.sv_uv item % 2 ^ 32)) s)
  item_setter action_put_int64 =
      some (λ fd item s. emit (put_int64 fd.primitive (perl.sv_iv item)) s)
  item_setter action_put_uint64 =
      some (λ fd item s. emit (put_uint64 fd.primitive (perl.sv_uv item)) s)
  item_setter _ = none

  abbrev pub go_on_if :
      Bool × EncoderState K
      → (EncoderState K → Option (Bool × EncoderState K))
      → Option (Bool × EncoderState K)
  go_on_if (true, s) next = next s
  go_on_if (false, s) next = some (false, s)

  -- One round of the loop of `encode_from_array`; `av_fetch` gives NULL for an element that was
  -- never written.
  unfoldable pub encode_item :
      (setter : ScalarField → Sv → EncoderState K → Bool × EncoderState K)
      → ScalarField
      → Option Sv
      → EncoderState K
      → Bool × EncoderState K
  unfolding unless_coerced
  encode_item setter fd none s = (false, s)
  encode_item setter fd (some item) s = unless_coerced fd item s (setter fd item s)

  unfoldable pub encode_items :
      (setter : ScalarField → Sv → EncoderState K → Bool × EncoderState K)
      → ScalarField
      → (index : ℕ) → List (Option Sv)
      → EncoderState K
      → Option (Bool × EncoderState K)
  unfolding encode_item
  encode_items setter fd index [] s = some (true, s)
  encode_items setter fd index (item ∷ items) s = set_array_index index s.mapper_context >>= λ c.
      go_on_if (encode_item setter fd item (with_context c s))
        (encode_items setter fd (suc index) items)

  unfoldable pub encode_from_array :
      (setter : ScalarField → Sv → EncoderState K → Bool × EncoderState K)
      → ScalarField
      → (source : ℕ) → List (Option Sv)
      → EncoderState K
      → Option (Bool × EncoderState K)
  unfolding encode_items
  encode_from_array setter fd source [] s = some (true, s)
  encode_from_array setter fd source (item ∷ items) s =
      go_on_if (emit (start_sequence fd.seq_start) s) λ s1.
        encode_items setter fd 0 (item ∷ items)
          (with_context (push_array_level source s1.mapper_context) s1)
        >>= λ r. go_on_if r λ s2. pop_level s2.mapper_context >>= λ c.
            some (emit (end_sequence fd.seq_end) (with_context c s2))

  -- `encode_from_perl_array` for an array that is not one of messages.
  unfoldable pub encode_scalar_array :
      ScalarField
      → (source : ℕ) → List (Option Sv)
      → EncoderState K
      → Option (Bool × EncoderState K)
  unfolding item_setter encode_from_array
  encode_scalar_array fd source items s = elim (item_setter fd.value_action) [
    | none ↦ some (false, s)
    | some setter ↦ encode_from_array setter fd source items s
  ]
