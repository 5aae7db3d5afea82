-- ===== src/Pb/Tokens/Frames.antt =====
-- What `next_token` of src/pb/decoder.cpp leaves alone on every path: the buffer, the stack of
-- messages and the end of the innermost message.
use google_protobuf_dynamic.Common.{
  ℕ, ◌≡◌, refl, ◌∙◌, Bool, true, false, some, ◌/◌, ◌==◌, >>=-elim, Bool-cases, arith, Option-cases,
  inl, inr, ◌>>=◌,
}
use google_protobuf_dynamic.Pb.Types.{State, PbToken, WireType}
use google_protobuf_dynamic.Pb.Decoder.{Decoder, decode_varint, decode_fixed64, decode_fixed32}
use google_protobuf_dynamic.Pb.Decoder.Frame.{
  Reads, decode_varint-Reads, decode_fixed64-Reads, decode_fixed32-Reads,
}
use google_protobuf_dynamic.Pb.Descriptor.{DescriptorEntry}
use google_protobuf_dynamic.Pb.Tokens.{
  next_token, next_field, next_repeated, after_tag, after_payload, classify, decode_payload,
  decode_length, read_packed, parse_packed_field_internal, after_repeated_tag, entry_field,
  lookup_field, at_message_end, dispatch, packed_element, keep_error, set_error, start_packed,
  repeated_payload,
}

module _ {T : Type 0} where
  -- The buffer, the stack of messages and the end of the message are as they were.
  unfoldable pub SameFrame : Decoder T → Decoder T → Type 0
  SameFrame d d' =
      (d'.state ≡ d.state)
      × (d'.message_end ≡ d.message_end)
      × (d'.buffer ≡ d.buffer)
      × (d'.bytes ≡ d.bytes)
      × (d'.buffer_end ≡ d.buffer_end)
      × (d'.danger_zone ≡ d.danger_zone)

  pub SameFrame-refl : (d : Decoder T) → SameFrame d d
  unfolding SameFrame
  SameFrame-refl d = (refl, refl, refl, refl, refl, refl)

  pub SameFrame-trans : (a b c : Decoder T) → SameFrame a b → SameFrame b c → SameFrame a c
  unfolding SameFrame
  SameFrame-trans a b c (p1, p2, p3, p4, p5, p6) (q1, q2, q3, q4, q5, q6) =
      (q1 ∙ p1, q2 ∙ p2, q3 ∙ p3, q4 ∙ p4, q5 ∙ p5, q6 ∙ p6)

  Reads-SameFrame : (d d' : Decoder T) → Reads d d' → SameFrame d d'
  unfolding SameFrame
  Reads-SameFrame d d' r = ground (arith, r)

  decode_payload-SameFrame :
      (wire : WireType) (d d' : Decoder T) (ok : Bool)
      → decode_payload wire d ≡ some (ok, d')
      → SameFrame d d'
  unfolding decode_payload decode_length SameFrame set_error
  decode_payload-SameFrame WireType.varint d d' ok e =
      >>=-elim (decode_varint d) _ e
        λ (ok1, d1) found rest. ground (arith, rest, decode_varint-Reads d d1 ok1 found)
  decode_payload-SameFrame WireType.len_delimited d d' ok e =
      >>=-elim (decode_varint d) _ e
        λ (ok1, d1) found rest. ground (arith, rest, decode_varint-Reads d d1 ok1 found)
  decode_payload-SameFrame WireType.fixed64 d d' ok e =
      >>=-elim (decode_fixed64 d) _ e
        λ (ok1, d1) found rest. ground (arith, rest, decode_fixed64-Reads d d1 ok1 found)
  decode_payload-SameFrame WireType.fixed32 d d' ok e =
      >>=-elim (decode_fixed32 d) _ e
        λ (ok1, d1) found rest. ground (arith, rest, decode_fixed32-Reads d d1 ok1 found)
  decode_payload-SameFrame (WireType.unnamed n) d d' ok e = ground arith

  read_packed-SameFrame :
      (wire : WireType) (d d' : Decoder T) (ok : Bool)
      → read_packed wire d ≡ some (ok, d')
      → SameFrame d d'
  unfolding read_packed SameFrame set_error
  read_packed-SameFrame WireType.varint d d' ok e =
      >>=-elim (decode_varint d) _ e
        λ (ok1, d1) found rest. ground (arith, rest, decode_varint-Reads d d1 ok1 found)
  read_packed-SameFrame WireType.len_delimited d d' ok e = ground arith
  read_packed-SameFrame WireType.fixed64 d d' ok e =
      >>=-elim (decode_fixed64 d) _ e
        λ (ok1, d1) found rest. ground (arith, rest, decode_fixed64-Reads d d1 ok1 found)
  read_packed-SameFrame WireType.fixed32 d d' ok e =
      >>=-elim (decode_fixed32 d) _ e
        λ (ok1, d1) found rest. ground (arith, rest, decode_fixed32-Reads d d1 ok1 found)
  read_packed-SameFrame (WireType.unnamed n) d d' ok e = ground arith

  parse_packed-SameFrame :
      (d d' : Decoder T) (ok : Bool)
      → parse_packed_field_internal d ≡ some (ok, d')
      → SameFrame d d'
  unfolding parse_packed_field_internal
  parse_packed-SameFrame d d' ok e =
      >>=-elim (entry_field d) _ e
        λ field _ rest. read_packed-SameFrame field.wire_type d d' ok rest

  start_packed-SameFrame :
      (ok : Bool) (d d' : Decoder T) (t : PbToken)
      → start_packed (ok, d) ≡ some (t, d')
      → SameFrame d d'
  unfolding SameFrame keep_error set_error
  start_packed-SameFrame true d d' t e = ground arith
  start_packed-SameFrame false d d' t e = ground arith

  reopened-SameFrame :
      (d d1 : Decoder T) (ok : Bool)
      → parse_packed_field_internal (record d { packed_end = d.current; current = d.field_payload })
        ≡ some (ok, d1)
      → SameFrame d d1
  unfolding SameFrame
  reopened-SameFrame d d1 ok found = parse_packed-SameFrame _ d1 ok found

  -- The branch of `classify` that goes back to the first element of a packed field.
  packed_start-SameFrame :
      (d d' : Decoder T) (t : PbToken)
      → (parse_packed_field_internal
            (record d { packed_end = d.current; current = d.field_payload })
          >>= start_packed)
        ≡ some (t, d')
      → SameFrame d d'
  packed_start-SameFrame d d' t e =
      >>=-elim (parse_packed_field_internal _) _ e λ (ok, d1) found rest.
        SameFrame-trans d d1 d' (reopened-SameFrame d d1 ok found)
          (start_packed-SameFrame ok d1 d' t rest)

  classify-SameFrame :
      (wire : WireType) (field : DescriptorEntry) (d d' : Decoder T) (t : PbToken)
      → classify wire field d ≡ some (t, d')
      → SameFrame d d'
  unfolding classify SameFrame
  classify-SameFrame wire field d d' t e = ground (arith, packed_start-SameFrame d d' t)

  after_payload-SameFrame :
      (wire : WireType) (ok : Bool) (d d' : Decoder T) (t : PbToken)
      → after_payload wire (ok, d) ≡ some (t, d')
      → SameFrame d d'
  unfolding after_payload SameFrame keep_error
  after_payload-SameFrame wire false d d' t e = ground arith
  after_payload-SameFrame wire true d d' t e = elim (Option-cases d.field_entry) [
    | inl unknown ↦ ground (arith, unknown)
    | inr (entry, known) ↦
        >>=-elim entry.field _ (rw known at e)
          λ field _ rest. classify-SameFrame wire field d d' t rest
  ]

  after_tag-SameFrame :
      (ok : Bool) (d d' : Decoder T) (t : PbToken)
      → after_tag (ok, d) ≡ some (t, d')
      → SameFrame d d'
  unfolding after_tag SameFrame set_error
  after_tag-SameFrame false d d' t e = ground arith
  after_tag-SameFrame true d d' t e =
      >>=-elim (lookup_field d.state (d.integral_number / 8)) _ e λ found _ more.
        >>=-elim (decode_payload _ _) _ more λ (ok, d1) read rest.
          SameFrame-trans d d1 d' (decode_payload-SameFrame _ _ d1 ok read)
            (after_payload-SameFrame _ ok d1 d' t rest)

  next_field-SameFrame :
      (d d' : Decoder T) (t : PbToken) → next_field d ≡ some (t, d') → SameFrame d d'
  unfolding next_field SameFrame
  next_field-SameFrame d d' t e = elim (Bool-cases (at_message_end d)) [
    | inl done ↦ ground (arith, done, e)
    | inr more ↦ >>=-elim (decode_varint d) _ (rw more at e) λ (ok, d1) found rest.
        SameFrame-trans d d1 d' (Reads-SameFrame d d1 (decode_varint-Reads d d1 ok found))
          (after_tag-SameFrame ok d1 d' t rest)
  ]

  repeated_payload-SameFrame :
      (ok : Bool) (d d' : Decoder T) (t : PbToken)
      → repeated_payload (ok, d) ≡ some (t, d')
      → SameFrame d d'
  unfolding SameFrame keep_error
  repeated_payload-SameFrame true d d' t e = ground arith
  repeated_payload-SameFrame false d d' t e = ground arith

  after_repeated_tag-SameFrame :
      (old : ℕ) (ok : Bool) (d d' : Decoder T) (t : PbToken)
      → after_repeated_tag old (ok, d) ≡ some (t, d')
      → SameFrame d d'
  unfolding after_repeated_tag SameFrame set_error
  after_repeated_tag-SameFrame old false d d' t e = ground arith
  after_repeated_tag-SameFrame old true d d' t e = >>=-elim (entry_field d) _ e λ field _ more.
      elim (Bool-cases (d.integral_number / 8 == field.field)) [
        | inl same ↦ >>=-elim (decode_payload _ d) _ (rw same at more) λ (ok, d1) read rest.
            SameFrame-trans d d1 d' (decode_payload-SameFrame _ _ d1 ok read)
              (repeated_payload-SameFrame ok d1 d' t rest)
        | inr other ↦ ground (arith, other, more)
      ]

  next_repeated-SameFrame :
      (d d' : Decoder T) (t : PbToken) → next_repeated d ≡ some (t, d') → SameFrame d d'
  unfolding next_repeated SameFrame
  next_repeated-SameFrame d d' t e = elim (Bool-cases (at_message_end d)) [
    | inl done ↦ ground (arith, done, e)
    | inr more ↦ >>=-elim (decode_varint d) _ (rw more at e) λ (ok, d1) found rest.
        SameFrame-trans d d1 d' (Reads-SameFrame d d1 (decode_varint-Reads d d1 ok found))
          (after_repeated_tag-SameFrame d.current ok d1 d' t rest)
  ]

  packed_element-SameFrame :
      (ok : Bool) (d d' : Decoder T) (t : PbToken)
      → packed_element (ok, d) ≡ some (t, d')
      → SameFrame d d'
  unfolding SameFrame keep_error
  packed_element-SameFrame true d d' t e = ground arith
  packed_element-SameFrame false d d' t e = ground arith

  dispatch-SameFrame :
      (s : State) (d d' : Decoder T) (t : PbToken) → dispatch s d ≡ some (t, d') → SameFrame d d'
  unfolding dispatch SameFrame
  dispatch-SameFrame State.field d d' t e = next_field-SameFrame d d' t e
  dispatch-SameFrame State.in_repeated_field d d' t e = next_repeated-SameFrame d d' t e
  dispatch-SameFrame State.in_packed_repeated_field d d' t e =
      >>=-elim (parse_packed_field_internal d) _ e λ (ok, d1) read rest.
        SameFrame-trans d d1 d' (parse_packed-SameFrame d d1 ok read)
          (packed_element-SameFrame ok d1 d' t rest)
  dispatch-SameFrame _ d d' t e = ground arith

  pub next_token-SameFrame :
      (d d' : Decoder T) (t : PbToken) → next_token d ≡ some (t, d') → SameFrame d d'
  unfolding next_token
  next_token-SameFrame d d' t e = dispatch-SameFrame d.current_state d d' t e
