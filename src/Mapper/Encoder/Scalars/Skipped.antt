-- ===== src/Mapper/Encoder/Scalars/Skipped.antt =====
-- What `encode_field` of src/mapper.cpp does for a scalar, with and without its default value.
use google_protobuf_dynamic.Common.{
  ◌≡◌, refl, ap, ◌==◌, ◌^◌, ◌%◌, if◌then◌else◌, Bool, true, false, not, some, List, [], ◌∷◌,
  Bool-cases, inl, inr,
}
use google_protobuf_dynamic.Mapper.FieldMap.{same_text}
use google_protobuf_dynamic.Mapper.Scalars.{Sv, PerlScalars}
use google_protobuf_dynamic.Mapper.Encoder.{EncoderState, reference_used, invalid_enumeration_value}
use google_protobuf_dynamic.Mapper.Encoder.Scalars.{
  ValueAction, action_put_float, action_put_float_nd, action_put_double, action_put_double_nd,
  action_put_bool, action_put_bool_nd, action_put_string, action_put_string_nd, action_put_bytes,
  action_put_bytes_nd, action_put_enum, action_put_enum_nd, action_put_int32, action_put_int32_nd,
  action_put_uint32, action_put_uint32_nd, action_put_int64, action_put_int64_nd, action_put_uint64,
  action_put_uint64_nd, put_int32, put_int64, SinkCall, put_enum, ScalarField, EncoderApi,
  CheckOptions, put_scalar, unless_coerced, encode_scalar,
}
use google_protobuf_dynamic.Mapper.Encoder.Scalars.Calls.{
  value_calls, is_refused, is_unknown, sent, emit-sent, put_string-sent,
}

-- An action that leaves out a default value, and the one that does not.
pub data SkipsDefault : ValueAction → ValueAction → Type 0 where
  skips_float : SkipsDefault action_put_float_nd action_put_float
  skips_double : SkipsDefault action_put_double_nd action_put_double
  skips_bool : SkipsDefault action_put_bool_nd action_put_bool
  skips_string : SkipsDefault action_put_string_nd action_put_string
  skips_bytes : SkipsDefault action_put_bytes_nd action_put_bytes
  skips_enum : SkipsDefault action_put_enum_nd action_put_enum
  skips_int32 : SkipsDefault action_put_int32_nd action_put_int32
  skips_uint32 : SkipsDefault action_put_uint32_nd action_put_uint32
  skips_int64 : SkipsDefault action_put_int64_nd action_put_int64
  skips_uint64 : SkipsDefault action_put_uint64_nd action_put_uint64

abbrev pub with_action : ValueAction → ScalarField → ScalarField
with_action action fd = record fd { field_action = action }

abbrev pub same_bool : Bool → Bool → Bool
same_bool true b = b
same_bool false b = not b

module _ {K : Type 0} (perl : PerlScalars) (api : EncoderApi K) (options : CheckOptions) where
  -- The value is the field's default value.
  abbrev pub holds_default : ValueAction → ScalarField → Sv → Bool
  holds_default action_put_float fd ref = api.nv_eq (perl.sv_nv ref) fd.default_nv
  holds_default action_put_double fd ref = api.nv_eq (perl.sv_nv ref) fd.default_nv
  holds_default action_put_bool fd ref = same_bool (perl.sv_true ref) fd.default_bool
  holds_default action_put_string fd ref = same_text (perl.sv_pvutf8 ref) fd.default_text
  holds_default action_put_bytes fd ref = same_text (perl.sv_pv ref) fd.default_text
  holds_default action_put_enum fd ref = perl.sv_iv ref == fd.default_iv
  holds_default action_put_int32 fd ref = perl.sv_iv ref == fd.default_iv
  holds_default action_put_uint32 fd ref = perl.sv_uv ref == fd.default_uv
  holds_default action_put_int64 fd ref = perl.sv_iv ref == fd.default_i64
  holds_default action_put_uint64 fd ref = perl.sv_uv ref == fd.default_u64
  holds_default _ fd ref = false

  same_bool_if : (v d : Bool) → (if v then d else not d) ≡ same_bool v d
  same_bool_if true d = refl
  same_bool_if false d = refl

  -- The calls of a plain action: those for an element of an array, but for UINT64.
  abbrev pub plain_calls : ValueAction → ScalarField → Sv → List SinkCall
  plain_calls action_put_uint64 fd v = put_int64 fd.primitive (perl.sv_uv v) ∷ []
  plain_calls action fd v = value_calls perl api options action fd v

  -- The value is sent by these calls, or is a number that the enumeration does not have.
  abbrev pub checked :
      ValueAction → ScalarField → Sv → List SinkCall → EncoderState K → Bool × EncoderState K
  checked action fd v calls s =
      if is_unknown perl api options action fd v
      then (false, record s { status = some (invalid_enumeration_value (perl.sv_iv v) fd.name) })
      else sent perl api options calls s

  -- A reference that is refused ends the field's encoding.
  abbrev pub guarded :
      ScalarField → Sv → Bool × EncoderState K → EncoderState K → Bool × EncoderState K
  guarded fd v r s =
      if is_refused perl api options v
      then (false, record s { status = some (reference_used fd.name) })
      else r

  put_enum-checked :
      (fd : ScalarField) (v : Sv) (s : EncoderState K)
      → put_enum perl api options fd (perl.sv_iv v) s
        ≡ checked action_put_enum fd v (value_calls perl api options action_put_enum fd v) s
  unfolding put_enum
  put_enum-checked fd v s = elim (Bool-cases (is_unknown perl api options action_put_enum fd v)) [
    | inl unknown ↦ rw unknown refl
    | inr known ↦
        rw known
          (emit-sent perl api options (put_int32 fd.primitive (perl.sv_iv v % 2 ^ 32)) s refl)
  ]

  -- The call or calls behind the test for the default value.
  abbrev skipped :
      ValueAction
      → ScalarField
      → Sv
      → Bool × EncoderState K
      → EncoderState K
      → Bool × EncoderState K
  skipped action fd v r s = if holds_default action fd v then (true, s) else r

  put_scalar_skips :
      (nd action : ValueAction) (fd : ScalarField) (v : Sv) (s : EncoderState K)
      → SkipsDefault nd action
      → put_scalar perl api options nd (with_action nd fd) v s
        ≡ skipped action fd v (checked action fd v (value_calls perl api options action fd v) s) s
  unfolding put_scalar
  put_scalar_skips nd action fd v s skips_float =
      ap (λ r. skipped action fd v r s) (emit-sent perl api options _ s refl)
  put_scalar_skips nd action fd v s skips_double =
      ap (λ r. skipped action fd v r s) (emit-sent perl api options _ s refl)
  put_scalar_skips nd action fd v s skips_bool =
      rw (same_bool_if (perl.sv_true v) fd.default_bool)
        (ap (λ r. skipped action fd v r s) (emit-sent perl api options _ s refl))
  put_scalar_skips nd action fd v s skips_string =
      ap (λ r. skipped action fd v r s) (put_string-sent perl api options fd _ s)
  put_scalar_skips nd action fd v s skips_bytes =
      ap (λ r. skipped action fd v r s) (put_string-sent perl api options fd _ s)
  put_scalar_skips nd action fd v s skips_enum =
      ap (λ r. skipped action fd v r s) (put_enum-checked fd v s)
  put_scalar_skips nd action fd v s skips_int32 =
      ap (λ r. skipped action fd v r s) (emit-sent perl api options _ s refl)
  put_scalar_skips nd action fd v s skips_uint32 =
      ap (λ r. skipped action fd v r s) (emit-sent perl api options _ s refl)
  put_scalar_skips nd action fd v s skips_int64 =
      ap (λ r. skipped action fd v r s) (emit-sent perl api options _ s refl)
  put_scalar_skips nd action fd v s skips_uint64 =
      ap (λ r. skipped action fd v r s) (emit-sent perl api options _ s refl)

  put_scalar_plain :
      (nd action : ValueAction) (fd : ScalarField) (v : Sv) (s : EncoderState K)
      → SkipsDefault nd action
      → put_scalar perl api options action (with_action action fd) v s
        ≡ checked action fd v (plain_calls action fd v) s
  unfolding put_scalar
  put_scalar_plain nd action fd v s skips_float = emit-sent perl api options _ s refl
  put_scalar_plain nd action fd v s skips_double = emit-sent perl api options _ s refl
  put_scalar_plain nd action fd v s skips_bool = emit-sent perl api options _ s refl
  put_scalar_plain nd action fd v s skips_string = put_string-sent perl api options fd _ s
  put_scalar_plain nd action fd v s skips_bytes = put_string-sent perl api options fd _ s
  put_scalar_plain nd action fd v s skips_enum = put_enum-checked fd v s
  put_scalar_plain nd action fd v s skips_int32 = emit-sent perl api options _ s refl
  put_scalar_plain nd action fd v s skips_uint32 = emit-sent perl api options _ s refl
  put_scalar_plain nd action fd v s skips_int64 = emit-sent perl api options _ s refl
  put_scalar_plain nd action fd v s skips_uint64 = emit-sent perl api options _ s refl

  -- For each type of scalar, `encode_field` gives an error for a reference that is refused. Else the
  -- action that leaves out the default value returns true for it without a call of the sink; for any
  -- other value it gives an error for a number that the enumeration does not have, and makes the calls
  -- for the value up to the first that fails. The plain action does so for every value, where for
  -- UINT64 it calls PutInt64.
  pub encode_scalar-SkipsDefault :
      (nd action : ValueAction) (fd : ScalarField) (v : Sv) (s : EncoderState K)
      → SkipsDefault nd action
      → (encode_scalar perl api options (with_action nd fd) v s
          ≡ guarded fd v
              (if holds_default action fd v
                then (true, s)
                else checked action fd v (value_calls perl api options action fd v) s)
              s)
        × (encode_scalar perl api options (with_action action fd) v s
            ≡ guarded fd v (checked action fd v (plain_calls action fd v) s) s)
  unfolding encode_scalar unless_coerced
  encode_scalar-SkipsDefault nd action fd v s skips = (
    ap (λ r. guarded fd v r s) (put_scalar_skips nd action fd v s skips),
    ap (λ r. guarded fd v r s) (put_scalar_plain nd action fd v s skips),
  )
