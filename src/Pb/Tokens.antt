-- ===== src/Pb/Tokens.antt =====
-- The token state machine of src/pb/decoder.h and decoder.cpp.
pub mod Grammar
pub mod Frames
pub mod Nesting
pub mod Lengths
use google_protobuf_dynamic.Common.{
  ℕ, ◌+◌, ◌-◌, ◌/◌, ◌^◌, bit_and, ltb, leb, ◌==◌, if◌then◌else◌, Bool, true, false, ◌&&◌, not,
  Option, none, some, List, [], ◌∷◌, ◌>>=◌, length,
}
use google_protobuf_dynamic.Pb.Types.{WireType, wire_type, same_wire, PbToken, State}
use google_protobuf_dynamic.Pb.Descriptor.{DescriptorEntry}
use google_protobuf_dynamic.Pb.FieldLookup.{Lookup, Entry}
use google_protobuf_dynamic.Pb.Decoder.{
  Decoder, Context, word, decode_varint, decode_fixed64, decode_fixed32,
}
use Prim.Native.String.{String}

-- The result of an operation is undefined (`none`), or a value and the decoder after it.
abbrev pub Outcome : Type 0 → Type 0 → Type 0
Outcome T A = Option (A × Decoder T)

module _ {T : Type 0} where
  unfoldable pub set_buffer : (b : ℕ) → List ℕ → Decoder T → Decoder T
  set_buffer b bytes d = record d {
    buffer = b;
    bytes = bytes;
    buffer_end = b + length bytes;
    danger_zone = word (b + length bytes + 2 ^ 64 - 10);
    field_payload = b;
    current = b + length bytes;
    current_state = State.field;
    field_entry = none;
    error_message = none;
  }

  abbrev pub at_end : Decoder T → Bool
  at_end d = d.current == d.buffer_end

  abbrev pub at_message_end : Decoder T → Bool
  at_message_end d = d.current == d.message_end

  abbrev pub enter : State → Decoder T → Decoder T
  enter s d = record d { current_state = s }

  -- `set_error(message)`; it returns TOKEN_ERROR, which is 0, so it is also a `false`.
  unfoldable pub set_error : String → Decoder T → Decoder T
  set_error message d = record d { error_message = some message; current_state = State.error }

  -- `set_error()`
  unfoldable pub keep_error : Decoder T → Decoder T
  keep_error d = record d { current_state = State.error }

  -- `if (!read) return set_error(message); return true;`
  abbrev checked : String → Bool × Decoder T → Outcome T Bool
  checked message (true, d) = some (true, d)
  checked message (false, d) = some (false, set_error message d)

  unfoldable pub decode_length : Bool × Decoder T → Outcome T Bool
  unfolding set_error
  decode_length (false, d) = some (false, set_error "Invalid/truncated field length" d)
  decode_length (true, d) =
      let d' = record d {
        field_payload = d.current;
        current = word (d.current + d.integral_number);
      } in
      if ltb d'.message_end d'.current
      then some (false, set_error "Truncated length-delimited field" d')
      else some (true, d')

  unfoldable pub decode_payload : WireType → Decoder T → Outcome T Bool
  unfolding set_error
  decode_payload WireType.varint d =
      decode_varint d >>= checked "Invalid/truncated varint field value"
  decode_payload WireType.len_delimited d = decode_varint d >>= decode_length
  decode_payload WireType.fixed64 d =
      decode_fixed64 d >>= checked "Truncated 64-bit fixed size field"
  decode_payload WireType.fixed32 d =
      decode_fixed32 d >>= checked "Truncated 32-bit fixed size field"
  decode_payload (WireType.unnamed n) d =
      some (false, set_error "Unrecognized protocol buffer wire type" d)

  -- `field_entry->field->…`; a NULL on the way is a fault.
  abbrev pub entry_field : Decoder T → Option DescriptorEntry
  entry_field d = d.field_entry >>= λ entry. entry.field

  -- `!read || current > packed_end`
  abbrev inside_packed : Bool × Decoder T → Bool × Decoder T
  inside_packed (ok, d) = (ok && leb d.current d.packed_end, d)

  unfoldable pub read_packed : WireType → Decoder T → Outcome T Bool
  unfolding set_error
  read_packed WireType.varint d = decode_varint d >>= λ r.
      checked "Invalid/truncated varint packed field value" (inside_packed r)
  read_packed WireType.fixed64 d = decode_fixed64 d >>= λ r.
      checked "Invalid/truncated 64-bit fixed size packed field value" (inside_packed r)
  read_packed WireType.fixed32 d = decode_fixed32 d >>= λ r.
      checked "Invalid/truncated 32-bit fixed size packed field value" (inside_packed r)
  -- assert(false)
  read_packed WireType.len_delimited d = none
  read_packed (WireType.unnamed n) d = some (true, d)

  unfoldable pub parse_packed_field_internal : Decoder T → Outcome T Bool
  parse_packed_field_internal d = entry_field d >>= λ field. read_packed field.wire_type d

  abbrev pub emit : PbToken → Decoder T → Outcome T PbToken
  emit token d = some (token, d)

  -- STATE_FIELD, after the first element of a packed field was tried.
  abbrev pub start_packed : Bool × Decoder T → Outcome T PbToken
  start_packed (true, d) = emit PbToken.start_sequence (enter State.start_packed_repeated_field d)
  start_packed (false, d) =
      if d.packed_end == d.field_payload
      then emit PbToken.error (set_error "Packed field with size 0" d)
      else emit PbToken.error (keep_error d)

  -- STATE_FIELD, after the payload, for a field that the lookup knows.
  unfoldable pub classify : WireType → DescriptorEntry → Decoder T → Outcome T PbToken
  unfolding set_error keep_error
  classify wire field d =
      if field.repeated
      then (if same_wire wire WireType.len_delimited
            && not (same_wire field.wire_type WireType.len_delimited)
          then (parse_packed_field_internal
                (record d { packed_end = d.current; current = d.field_payload })
              >>= start_packed)
          else (if same_wire field.wire_type wire
              then emit PbToken.start_sequence (enter State.start_repeated_field d)
              else emit PbToken.unknown_field d))
      else (if same_wire field.wire_type wire
          then emit PbToken.field d
          else emit PbToken.unknown_field d)

  unfoldable pub after_payload : WireType → Bool × Decoder T → Outcome T PbToken
  unfolding keep_error
  after_payload wire (false, d) = emit PbToken.error (keep_error d)
  after_payload wire (true, d) = elim d.field_entry [
    | none ↦ emit PbToken.unknown_field d
    | some entry ↦ entry.field >>= λ field. classify wire field d
  ]

  -- `state.back().field_lookup->find_field(field_number)`; the vector's back is the list's head.
  abbrev pub lookup_field : List (Context T) → ℕ → Option (Option (Entry T))
  lookup_field [] n = none
  lookup_field (context ∷ _) n = context.field_lookup n

  -- STATE_FIELD, after the tag.
  unfoldable pub after_tag : Bool × Decoder T → Outcome T PbToken
  unfolding set_error
  after_tag (false, d) = emit PbToken.error (set_error "Invalid/truncated field tag" d)
  after_tag (true, d) =
      let wire = wire_type (bit_and d.integral_number 7) in
      lookup_field d.state (d.integral_number / 8) >>= λ found.
      decode_payload wire (record d { field_entry = found }) >>= after_payload wire

  unfoldable pub next_field : Decoder T → Outcome T PbToken
  next_field d =
      if at_message_end d
      then emit PbToken.end_message (enter State.end_message d)
      else decode_varint d >>= after_tag

  abbrev pub repeated_payload : Bool × Decoder T → Outcome T PbToken
  repeated_payload (true, d) = emit PbToken.field d
  repeated_payload (false, d) = emit PbToken.error (keep_error d)

  -- STATE_IN_REPEATED_FIELD, after the tag; `old_current` is where the tag began.
  unfoldable pub after_repeated_tag : (old_current : ℕ) → Bool × Decoder T → Outcome T PbToken
  unfolding set_error keep_error
  after_repeated_tag old_current (false, d) =
      emit PbToken.error (set_error "Invalid/truncated field tag" d)
  after_repeated_tag old_current (true, d) = entry_field d >>= λ field.
      if d.integral_number / 8 == field.field
      then (decode_payload (wire_type (bit_and d.integral_number 7)) d >>= repeated_payload)
      else emit PbToken.end_sequence
          (record d { current = old_current; current_state = State.field })

  unfoldable pub next_repeated : Decoder T → Outcome T PbToken
  next_repeated d =
      if at_message_end d
      then emit PbToken.end_sequence (enter State.end_message d)
      else decode_varint d >>= after_repeated_tag d.current

  abbrev pub packed_element : Bool × Decoder T → Outcome T PbToken
  packed_element (false, d) = emit PbToken.error (keep_error d)
  packed_element (true, d) =
      emit PbToken.field (if d.current == d.packed_end then enter State.end_repeated_field d else d)

  unfoldable pub dispatch : State → Decoder T → Outcome T PbToken
  dispatch State.field d = next_field d
  dispatch State.start_repeated_field d = emit PbToken.field (enter State.in_repeated_field d)
  dispatch State.start_packed_repeated_field d = emit PbToken.field (
      if d.current == d.packed_end
      then enter State.end_repeated_field d
      else enter State.in_packed_repeated_field d)
  dispatch State.in_repeated_field d = next_repeated d
  dispatch State.in_packed_repeated_field d = parse_packed_field_internal d >>= packed_element
  dispatch State.error d = emit PbToken.error d
  dispatch State.end_message d = emit PbToken.end_message d
  dispatch State.end_repeated_field d =
      emit PbToken.end_sequence
        (if at_message_end d then enter State.end_message d else enter State.field d)

  unfoldable pub next_token : Decoder T → Outcome T PbToken
  unfolding dispatch
  next_token d = dispatch d.current_state d

  unfoldable pub start_message : Lookup T → Decoder T → Decoder T
  start_message field_lookup d = record d {
    state =
        record {
          field_lookup = field_lookup;
          message_end = d.current;
          field_entry = d.field_entry;
          state = d.current_state;
        }
        ∷ d.state;
    message_end = d.current;
    current = d.field_payload;
    field_entry = none;
    current_state = State.field;
  }

  -- `state.back()` of an empty stack is undefined.
  unfoldable pub unwind : List (Context T) → Decoder T → Option (Decoder T)
  unwind (context ∷ outer ∷ rest) d = some (record d {
    state = outer ∷ rest;
    message_end = outer.message_end;
    current = context.message_end;
    field_entry = context.field_entry;
    current_state = context.state;
  })
  unwind _ d = none

  unfoldable pub end_message : Decoder T → Option (Decoder T)
  unfolding unwind
  end_message d = unwind d.state d
