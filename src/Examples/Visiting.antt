-- ===== src/Examples/Visiting.antt =====
-- A run of `run_bbpb_decoder` of src/mapper.cpp on a message within a message.
use google_protobuf_dynamic.Common.{
  ℕ, ◌≡◌, refl, true, false, Option, none, some, List, [], ◌∷◌, ◌==◌, if◌then◌else◌,
}
use google_protobuf_dynamic.Pb.Types.{WireType, FieldType, PbToken, State, wire_type, same_wire}
use google_protobuf_dynamic.Pb.FieldLookup.{Lookup}
use google_protobuf_dynamic.Pb.Decoder.{
  Decoder, decode_varint, load, parse_safe, parse_unsafe, decode_varint_safe,
  decode_varint_rest_unsafe,
}
use google_protobuf_dynamic.Pb.Tokens.{
  set_buffer, start_message, end_message, next_token, decode_length, dispatch, next_field,
  after_tag, after_payload, classify, decode_payload, unwind,
}
use google_protobuf_dynamic.Mapper.Visitor.{
  RepeatedType, Action, FieldData, Call, Handlers, Mappers, Loop, Round, go_on, return,
  enter_message, store_action, leave_message, resume, finish_message, handle_token, round,
  run_rounds, start_run, run_bbpb_decoder,
}
use google_protobuf_dynamic.Mapper.Visitor.Nested.{another, none_yet, end_message-run_bbpb_decoder}

-- The handlers keep the calls, the last one first.
abbrev recorder : Handlers (List Call)
recorder = record { call = λ c calls. c ∷ calls; on_end_message = λ calls. (true, calls) }

abbrev only_field : FieldType → WireType → Action → Lookup FieldData
only_field type wire action n =
    if n == 1
    then some (
        some (record {
          field = some (record {
            field = 1;
            type = type;
            repeated = false;
            wire_type = wire;
            message = none;
          });
          value = record { index = 0; action = action; repeated_type = RepeatedType.scalar_field };
        }))
    else some none

-- The mapper 0 has a message, for the mapper 1, which has a number.
abbrev two_mappers : Mappers
two_mappers = record {
  field_mapper = λ mapper idx. some 1;
  decoder_field_data = λ mapper.
      if mapper == 0
      then only_field FieldType.message WireType.len_delimited Action.store_message
      else only_field FieldType.uint64 WireType.varint Action.store_uint64;
}

abbrev bytes : List ℕ
bytes = 0x0a ∷ 0x02 ∷ 0x08 ∷ 0x05 ∷ []

abbrev fresh : Decoder FieldData
fresh = record {
  buffer = 0;
  bytes = [];
  buffer_end = 0;
  danger_zone = 0;
  current = 0;
  message_end = 0;
  packed_end = 0;
  state = [];
  current_state = State.field;
  field_entry = none;
  field_payload = 0;
  integral_number = 0;
  error_message = none;
}

-- The calls of a run that ended.
abbrev calls_of : Option (Round (List Call)) → List Call
calls_of (some (return true l)) = l.handlers
calls_of _ = []

all_calls :
    calls_of (run_bbpb_decoder recorder two_mappers 6 0 1000 bytes [] fresh)
    ≡ Call.on_end_sub_message 0 ∷ Call.on_uv 0 5 ∷ Call.on_start_sub_message 0 ∷ []
unfolding run_bbpb_decoder run_rounds round handle_token store_action enter_message leave_message
    resume finish_message start_run set_buffer start_message end_message next_token decode_length
    dispatch next_field after_tag after_payload classify decode_payload unwind decode_varint
    decode_varint_safe decode_varint_rest_unsafe parse_safe parse_unsafe load wire_type same_wire
all_calls = refl

abbrev begun : Loop (List Call)
begun = start_run recorder two_mappers 0 1000 bytes [] fresh

-- The loop after a round, and the decoder after a token.
abbrev after : Option (Round (List Call)) → Loop (List Call)
after (some (go_on l)) = l
after _ = begun

abbrev decoder_after : Option (PbToken × Decoder FieldData) → Decoder FieldData
decoder_after (some (token, d)) = d
decoder_after none = fresh

abbrev inside : Loop (List Call)
inside = after (round recorder two_mappers begun)

abbrev inner : Decoder FieldData
inner = decoder_after (next_token inside.pb_decoder)

first_round :
    (round recorder two_mappers begun ≡ some (go_on inside))
    × (inside.mappers ≡ 0 ∷ [])
    × (next_token inside.pb_decoder ≡ some (PbToken.field, inner))
unfolding round handle_token store_action enter_message start_run set_buffer start_message
    next_token decode_length dispatch next_field after_tag after_payload classify decode_payload
    decode_varint decode_varint_safe decode_varint_rest_unsafe parse_safe parse_unsafe load
    wire_type same_wire
first_round = (refl, refl, refl)

end_message-run_bbpb_decoder_example : (d' : Decoder FieldData) × (end_message inner ≡ some d')
end_message-run_bbpb_decoder_example =
    end_message-run_bbpb_decoder recorder two_mappers 0 1000 bytes [] fresh inside 0 []
      PbToken.field inner (another first_round.0 none_yet) first_round.1 first_round.2
