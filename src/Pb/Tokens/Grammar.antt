-- ===== src/Pb/Tokens/Grammar.antt =====
-- The order in which `next_token` of src/pb/decoder.cpp gives its tokens.
use google_protobuf_dynamic.Common.{
  ℕ, ◌≡◌, refl, Bool, true, false, some, ◌/◌, ◌==◌, >>=-elim, Bool-cases, arith, Option-cases, inl,
  inr,
}
use google_protobuf_dynamic.Pb.Types.{State, PbToken, WireType}
use google_protobuf_dynamic.Pb.Decoder.{Decoder, decode_varint, decode_fixed64, decode_fixed32}
use google_protobuf_dynamic.Pb.Decoder.Frame.{
  Reads, decode_varint-Reads, decode_fixed64-Reads, decode_fixed32-Reads,
}
use google_protobuf_dynamic.Pb.Descriptor.{DescriptorEntry}
use google_protobuf_dynamic.Pb.Tokens.{
  next_token, next_field, next_repeated, after_tag, after_payload, classify, decode_payload,
  decode_length, read_packed, parse_packed_field_internal, after_repeated_tag, entry_field,
  lookup_field, at_message_end, dispatch, packed_element, keep_error,
}

-- The edges of the machine: from a state, by a token, to a state.
abbrev pub allowed : State → PbToken → State → Bool
allowed s PbToken.error State.error = true
allowed State.field PbToken.field State.field = true
allowed State.field PbToken.unknown_field State.field = true
allowed State.field PbToken.start_sequence State.start_repeated_field = true
allowed State.field PbToken.start_sequence State.start_packed_repeated_field = true
allowed State.field PbToken.end_message State.end_message = true
allowed State.start_repeated_field PbToken.field State.in_repeated_field = true
allowed State.in_repeated_field PbToken.field State.in_repeated_field = true
allowed State.in_repeated_field PbToken.end_sequence State.field = true
allowed State.in_repeated_field PbToken.end_sequence State.end_message = true
allowed State.start_packed_repeated_field PbToken.field State.end_repeated_field = true
allowed State.start_packed_repeated_field PbToken.field State.in_packed_repeated_field = true
allowed State.in_packed_repeated_field PbToken.field State.in_packed_repeated_field = true
allowed State.in_packed_repeated_field PbToken.field State.end_repeated_field = true
allowed State.end_repeated_field PbToken.end_sequence State.field = true
allowed State.end_repeated_field PbToken.end_sequence State.end_message = true
allowed State.end_message PbToken.end_message State.end_message = true
allowed _ _ _ = false

module _ {T : Type 0} where
  -- A payload that was read changes the number, the place and where a string begins.
  abbrev pub payload_to : Decoder T → Decoder T → Decoder T
  payload_to d d' = record d {
    integral_number = d'.integral_number;
    current = d'.current;
    field_payload = d'.field_payload;
  }

  pub decode_payload-true :
      (wire : WireType) (d d' : Decoder T)
      → decode_payload wire d ≡ some (true, d')
      → d' ≡ payload_to d d'
  unfolding decode_payload decode_length
  decode_payload-true WireType.varint d d' e =
      >>=-elim (decode_varint d) _ e
        λ (ok, d1) found rest. ground (arith, rest, decode_varint-Reads d d1 ok found)
  decode_payload-true WireType.len_delimited d d' e =
      >>=-elim (decode_varint d) _ e
        λ (ok, d1) found rest. ground (arith, rest, decode_varint-Reads d d1 ok found)
  decode_payload-true WireType.fixed64 d d' e =
      >>=-elim (decode_fixed64 d) _ e
        λ (ok, d1) found rest. ground (arith, rest, decode_fixed64-Reads d d1 ok found)
  decode_payload-true WireType.fixed32 d d' e =
      >>=-elim (decode_fixed32 d) _ e
        λ (ok, d1) found rest. ground (arith, rest, decode_fixed32-Reads d d1 ok found)
  decode_payload-true (WireType.unnamed n) d d' e = cc

  pub read_packed-true :
      (wire : WireType) (d d' : Decoder T) → read_packed wire d ≡ some (true, d') → Reads d d'
  unfolding read_packed
  read_packed-true WireType.varint d d' e =
      >>=-elim (decode_varint d) _ e
        λ (ok, d1) found rest. ground (arith, rest, decode_varint-Reads d d1 ok found)
  read_packed-true WireType.fixed64 d d' e =
      >>=-elim (decode_fixed64 d) _ e
        λ (ok, d1) found rest. ground (arith, rest, decode_fixed64-Reads d d1 ok found)
  read_packed-true WireType.fixed32 d d' e =
      >>=-elim (decode_fixed32 d) _ e
        λ (ok, d1) found rest. ground (arith, rest, decode_fixed32-Reads d d1 ok found)
  read_packed-true WireType.len_delimited d d' e = cc
  read_packed-true (WireType.unnamed n) d d' e = ground arith

  pub parse_packed-true :
      (d d' : Decoder T) → parse_packed_field_internal d ≡ some (true, d') → Reads d d'
  unfolding parse_packed_field_internal
  parse_packed-true d d' e =
      >>=-elim (entry_field d) _ e λ field _ rest. read_packed-true field.wire_type d d' rest

  classify-allowed :
      (wire : WireType) (field : DescriptorEntry) (d d' : Decoder T) (t : PbToken)
      → d.current_state ≡ State.field
      → classify wire field d ≡ some (t, d')
      → allowed State.field t d'.current_state ≡ true
  unfolding classify
  classify-allowed wire field d d' t s e = ground arith

  after_payload-allowed :
      (wire : WireType) (ok : Bool) (d d' : Decoder T) (t : PbToken)
      → (ok ≡ true → d.current_state ≡ State.field)
      → after_payload wire (ok, d) ≡ some (t, d')
      → allowed State.field t d'.current_state ≡ true
  unfolding after_payload
  after_payload-allowed wire false d d' t s e = ground arith
  after_payload-allowed wire true d d' t s e = elim (Option-cases d.field_entry) [
    | inl unknown ↦ ground (arith, unknown, s refl)
    | inr (entry, known) ↦
        >>=-elim entry.field _ (rw known at e)
          λ field _ rest. classify-allowed wire field d d' t (s refl) rest
  ]

  after_tag-allowed :
      (ok : Bool) (d d' : Decoder T) (t : PbToken)
      → d.current_state ≡ State.field
      → after_tag (ok, d) ≡ some (t, d')
      → allowed State.field t d'.current_state ≡ true
  unfolding after_tag
  after_tag-allowed false d d' t s e = ground arith
  after_tag-allowed true d d' t s e =
      >>=-elim (lookup_field d.state (d.integral_number / 8)) _ e λ found _ more.
        >>=-elim (decode_payload _ _) _ more λ (ok, d1) read rest.
          after_payload-allowed _ ok d1 d' t
            (λ good. ground (arith, s, decode_payload-true _ _ d1 (rw good at read))) rest

  next_field-allowed :
      (d d' : Decoder T) (t : PbToken)
      → d.current_state ≡ State.field
      → next_field d ≡ some (t, d')
      → allowed State.field t d'.current_state ≡ true
  unfolding next_field
  next_field-allowed d d' t s e = elim (Bool-cases (at_message_end d)) [
    | inl done ↦ ground (arith, done, e)
    | inr more ↦ >>=-elim (decode_varint d) _ (rw more at e) λ (ok, d1) found rest.
        after_tag-allowed ok d1 d' t (ground (arith, s, decode_varint-Reads d d1 ok found)) rest
  ]

  after_repeated_tag-allowed :
      (old : ℕ) (ok : Bool) (d d' : Decoder T) (t : PbToken)
      → d.current_state ≡ State.in_repeated_field
      → after_repeated_tag old (ok, d) ≡ some (t, d')
      → allowed State.in_repeated_field t d'.current_state ≡ true
  unfolding after_repeated_tag
  after_repeated_tag-allowed old false d d' t s e = ground arith
  after_repeated_tag-allowed old true d d' t s e = >>=-elim (entry_field d) _ e λ field _ more.
      elim (Bool-cases (d.integral_number / 8 == field.field)) [
        | inl same ↦ >>=-elim (decode_payload _ d) _ (rw same at more) λ (ok, d1) read rest.
            ground
              (arith, s, rest, λ (good : ok ≡ true). decode_payload-true _ d d1 (rw good at read))
        | inr other ↦ ground (arith, other, more)
      ]

  next_repeated-allowed :
      (d d' : Decoder T) (t : PbToken)
      → d.current_state ≡ State.in_repeated_field
      → next_repeated d ≡ some (t, d')
      → allowed State.in_repeated_field t d'.current_state ≡ true
  unfolding next_repeated
  next_repeated-allowed d d' t s e = elim (Bool-cases (at_message_end d)) [
    | inl done ↦ ground (arith, done, e)
    | inr more ↦ >>=-elim (decode_varint d) _ (rw more at e) λ (ok, d1) found rest.
        after_repeated_tag-allowed d.current ok d1 d' t
          (ground (arith, s, decode_varint-Reads d d1 ok found)) rest
  ]

  packed_element-allowed :
      (ok : Bool) (d d' : Decoder T) (t : PbToken)
      → (ok ≡ true → d.current_state ≡ State.in_packed_repeated_field)
      → packed_element (ok, d) ≡ some (t, d')
      → allowed State.in_packed_repeated_field t d'.current_state ≡ true
  unfolding keep_error
  packed_element-allowed false d d' t s e = ground arith
  packed_element-allowed true d d' t s e = ground (arith, s refl)

  dispatch-allowed :
      (s : State) (d d' : Decoder T) (t : PbToken)
      → d.current_state ≡ s
      → dispatch s d ≡ some (t, d')
      → allowed s t d'.current_state ≡ true
  unfolding dispatch
  dispatch-allowed State.field d d' t s e = next_field-allowed d d' t s e
  dispatch-allowed State.in_repeated_field d d' t s e = next_repeated-allowed d d' t s e
  dispatch-allowed State.in_packed_repeated_field d d' t s e =
      >>=-elim (parse_packed_field_internal d) _ e λ (ok, d1) read rest.
        packed_element-allowed ok d1 d' t
          (λ good. ground (arith, s, parse_packed-true d d1 (rw good at read))) rest
  dispatch-allowed _ d d' t s e = ground arith

  -- Every token that `next_token` gives follows an edge of the machine, on any input.
  pub next_token-allowed :
      (d d' : Decoder T) (t : PbToken)
      → next_token d ≡ some (t, d')
      → allowed d.current_state t d'.current_state ≡ true
  unfolding next_token
  next_token-allowed d d' t e = dispatch-allowed d.current_state d d' t refl e
