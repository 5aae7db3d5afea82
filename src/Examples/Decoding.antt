-- ===== src/Examples/Decoding.antt =====
-- Runs of src/pb/decoder.h and decoder.cpp.
use google_protobuf_dynamic.Common.{
  ℕ, ◌+◌, ◌-◌, ◌^◌, ◌≤◌, ◌≡◌, refl, true, false, none, some, [], ◌∷◌, arith, ◌↔◌, ◌⊎◌,
}
use google_protobuf_dynamic.Pb.Types.{WireType, FieldType, PbToken, State, wire_type, same_wire}
use google_protobuf_dynamic.Pb.Descriptor.{
  Descriptor, DescriptorEntry, add_field as describe, add_entry, assign, wire_type_of, find_entry,
  find, insert,
}
use google_protobuf_dynamic.Pb.FieldLookup.{
  DecoderFieldData, create, add_field, find_field, optimize_lookup,
}
use google_protobuf_dynamic.Pb.FieldLookup.Laws.{
  IsFresh, HasDescriptors, find_field-optimize_lookup,
}
use google_protobuf_dynamic.Pb.FieldLookup.Build.{
  create-IsFresh, add_field-IsFresh, add_field-HasDescriptors,
}
use google_protobuf_dynamic.Pb.FieldLookup.Dense.{DenseVector, optimize_lookup-DenseVector}
use google_protobuf_dynamic.Pb.Decoder.{
  Decoder, decode_varint, load, parse_safe, decode_varint_safe,
}
use google_protobuf_dynamic.Pb.Decoder.Varint.{IsValid, unread, read_varint}
use google_protobuf_dynamic.Pb.Decoder.Paths.{VarintDone, decode_varint-read_varint}
use google_protobuf_dynamic.Pb.Tokens.{
  set_buffer, start_message, end_message, next_token, decode_length, dispatch, next_field,
  after_tag, after_payload, classify, decode_payload,
}
use google_protobuf_dynamic.Pb.Tokens.Grammar.{allowed, next_token-allowed}
use google_protobuf_dynamic.Pb.Tokens.Nesting.{Run, restored, IsFramed, end_message-start_message}
use google_protobuf_dynamic.Pb.Tokens.Lengths.{skip_to, decode_length-accepts}
use google_protobuf_dynamic.Pb.Values.{get_zigzag_long}
use google_protobuf_dynamic.Pb.Values.Zigzag.{get_zigzag_long-zigzag}

-- Fields 1, 3 and 500.
abbrev descriptor : Descriptor
descriptor =
    unfold describe add_entry assign wire_type_of in
    describe 500 FieldType.string false (
      describe 3 FieldType.int32 true (describe 1 FieldType.uint64 false (record { entries = [] })))

abbrev one_field : DecoderFieldData ℕ
one_field = add_field 1 10 (create descriptor)

abbrev two_fields : DecoderFieldData ℕ
two_fields = add_field 3 11 one_field

abbrev table : DecoderFieldData ℕ
table = add_field 500 12 two_fields

table-HasDescriptors : HasDescriptors table
unfolding find_entry find describe add_entry assign wire_type_of create add_field insert
table-HasDescriptors = add_field-HasDescriptors 500 12 two_fields refl (
    add_field-HasDescriptors 3 11 one_field refl
      (add_field-HasDescriptors 1 10 (create descriptor) refl (λ n e h. cc h)))

table-IsFresh : IsFresh table
table-IsFresh =
    add_field-IsFresh 500 12 _
      (add_field-IsFresh 3 11 _ (add_field-IsFresh 1 10 _ (create-IsFresh descriptor)))

find_field-optimize_lookup_example :
    find_field (optimize_lookup 0 table) 3 ≡ some (find 3 table.sparse_fields)
find_field-optimize_lookup_example =
    find_field-optimize_lookup 0 table table-IsFresh 3 (omega arith) table-HasDescriptors

optimize_lookup-DenseVector_example : DenseVector table (optimize_lookup 0 table)
optimize_lookup-DenseVector_example =
    optimize_lookup-DenseVector 0 table table-IsFresh table-HasDescriptors

-- A decoder at the tag of the field 1, whose value 150 takes two bytes.
abbrev at_tag : Decoder ℕ
at_tag = record {
  buffer = 1000;
  bytes = 0x08 ∷ 0x96 ∷ 0x01 ∷ [];
  buffer_end = 1003;
  danger_zone = 993;
  current = 1000;
  message_end = 1003;
  packed_end = 0;
  state = [];
  current_state = State.field;
  field_entry = none;
  field_payload = 1000;
  integral_number = 0;
  error_message = none;
}

at_tag-IsValid : IsValid at_tag
at_tag-IsValid = record {
  low = omega arith;
  fits = omega arith;
  ends = refl;
  danger = refl;
  above = omega arith;
  inside = omega arith;
  nested = omega arith;
}

decode_varint-read_varint_example :
    VarintDone at_tag (read_varint 10 0 (unread at_tag)) (decode_varint at_tag)
decode_varint-read_varint_example = decode_varint-read_varint at_tag at_tag-IsValid

-- The same bytes as a whole message, and the decoder after its first token.
abbrev first : Decoder ℕ
first =
    unfold start_message set_buffer in
    start_message (find_field table) (set_buffer 1000 (0x08 ∷ 0x96 ∷ 0x01 ∷ []) at_tag)

abbrev field_one : DescriptorEntry
field_one = record {
  field = 1;
  type = FieldType.uint64;
  repeated = false;
  wire_type = WireType.varint;
  message = none;
}

abbrev second : Decoder ℕ
second = record first {
  integral_number = 150;
  current = 1003;
  field_entry = some (record { field = some field_one; value = 10 });
}

first_token : next_token first ≡ some (PbToken.field, second)
unfolding next_token dispatch next_field after_tag after_payload classify decode_payload
    decode_varint decode_varint_safe parse_safe load wire_type same_wire find_field find add_field
    insert create find_entry start_message set_buffer describe add_entry assign wire_type_of
first_token = refl

next_token-allowed_example : allowed first.current_state PbToken.field second.current_state ≡ true
next_token-allowed_example = next_token-allowed first second PbToken.field first_token

second-IsFramed : IsFramed second
unfolding IsFramed start_message set_buffer
second-IsFramed = (_, _, refl, refl)

-- A message in the payload of the second state, of which no token is taken.
end_message-start_message_example :
    end_message (start_message (find_field table) second)
    ≡ some (restored second (start_message (find_field table) second))
end_message-start_message_example =
    end_message-start_message (find_field table) second (start_message (find_field table) second)
      second-IsFramed Run.stop

-- A length of 2 ^ 64 - 2 in front of the end of the buffer leads two bytes back.
abbrev at_length : Decoder ℕ
at_length = record at_tag { current = 1002; integral_number = 2 ^ 64 - 2 }

decode_length-accepts_example :
    (decode_length (true, at_length) ≡ some (true, skip_to at_length 1000)) ↔ (
      (1002 + (2 ^ 64 - 2) ≤ 1003
        × skip_to at_length 1000 ≡ skip_to at_length (1002 + (2 ^ 64 - 2)))
      ⊎ (2 ^ 64 ≤ 1002 + (2 ^ 64 - 2)
          × skip_to at_length 1000 ≡ skip_to at_length (1002 + (2 ^ 64 - 2) - 2 ^ 64)))
decode_length-accepts_example =
    decode_length-accepts at_length (skip_to at_length 1000) (omega arith, omega arith, omega arith)

-- The encoding of -3.
get_zigzag_long-zigzag_example :
    get_zigzag_long (record at_tag { integral_number = 5 }) ≡ 2 ^ 64 - 3
get_zigzag_long-zigzag_example =
    get_zigzag_long-zigzag (record at_tag { integral_number = 5 }) (2 ^ 64 - 3) (omega arith) refl
