-- ===== src/Examples/Encoding.antt =====
-- A run of the loop over the fields of a message, src/mapper.cpp.
use google_protobuf_dynamic.Common.{
  ℕ, ◌≡◌, refl, true, false, Option, none, some, List, [], ◌∷◌, replicate, arith, if◌then◌else◌,
  ◌==◌,
}
use google_protobuf_dynamic.Common.Sorting.{Distinct}
use google_protobuf_dynamic.Pb.Descriptor.{find}
use google_protobuf_dynamic.Mapper.Context.{
  Kind, Key, Place, set_hash_key, set_place, push_hash_level, push_level_with, pop_level,
}
use google_protobuf_dynamic.Mapper.Encoder.{
  Field, EncoderState, Ended, returned, PerlApi, SinkApi, Mapper, mark_and_maybe_skip, field_value,
  encode_fields, encode_simple_message_iterate_fields, encode_simple_message_iterate_hash,
  encode_entries, mark, new_track_seen, required_fields_present, perform_check,
}
use google_protobuf_dynamic.Mapper.Encoder.Choice.{
  Encodes, chosen, oneofs, HasRequired, encode_fields-chosen,
}
use google_protobuf_dynamic.Mapper.Encoder.Path.{encode_simple_message_iterate_fields-live}
use google_protobuf_dynamic.Mapper.Encoder.Required.{
  Gives, encode_simple_message_iterate_hash-Gives,
}

-- Two fields of one oneof, and a required field.
abbrev three_fields : List Field
three_fields =
    (record { name = 1; number = 1; field_index = 0; oneof_index = some 0; required = false })
    ∷ (record { name = 2; number = 2; field_index = 1; oneof_index = some 0; required = false })
    ∷ (record { name = 3; number = 3; field_index = 2; oneof_index = none; required = true })
    ∷ []

abbrev sample_mapper : Mapper
sample_mapper = record {
  fields = three_fields;
  oneof_count = 1;
  check_required_fields = true;
  ignore_undef_fields = false;
  field_by_name = λ name. none;
  field_by_number = λ number. none;
}

abbrev values : List (ℕ × ℕ)
values = (2, 20) ∷ (3, 30) ∷ (1, 10) ∷ []

abbrev sample_perl_api : PerlApi ℕ
sample_perl_api = record {
  sv_ok = λ value. true;
  hash_of = λ value. if value == 99 then some (7, values) else none;
  entry_key = λ name. Key.svkey name;
}

-- The sink keeps the names and values, the last one first.
abbrev log_sink : SinkApi (List (ℕ × ℕ))
log_sink = record { sink_start_message = λ k. (true, k); sink_end_message = λ k. (true, k) }

abbrev log_field : Field → ℕ → EncoderState (List (ℕ × ℕ)) → Option (Ended (List (ℕ × ℕ)))
log_field field value s = some (returned true (record s { sink = (field.name, value) ∷ s.sink }))

abbrev in_message : EncoderState (List (ℕ × ℕ))
in_message = record {
  sink = [];
  mapper_context = record {
    next_id = 2;
    live =
        (record { kind = Kind.message; id = 1; place = Place.hash_item (some 7) none none }) ∷ [];
    spare = [];
  };
  status = none;
}

abbrev after_fields : EncoderState (List (ℕ × ℕ))
after_fields = record {
  sink = (3, 30) ∷ (1, 10) ∷ [];
  mapper_context = record {
    next_id = 5;
    live =
        (record { kind = Kind.message; id = 4; place = Place.hash_item (some 7) (some 3) none })
        ∷ [];
    spare = [];
  };
  status = none;
}

fields_encoded :
    encode_fields sample_perl_api log_sink sample_mapper log_field three_fields values
      (replicate 1 false)
      in_message
    ≡ some (returned true after_fields)
unfolding encode_fields field_value mark_and_maybe_skip set_hash_key set_place find
fields_encoded = refl

encode_fields-chosen_example :
    Encodes sample_perl_api log_sink sample_mapper log_field
      (chosen sample_perl_api log_sink sample_mapper log_field three_fields values [])
      in_message
      after_fields
    × Distinct (
        oneofs sample_perl_api log_sink sample_mapper log_field
          (chosen sample_perl_api log_sink sample_mapper log_field three_fields values []))
    × HasRequired sample_perl_api log_sink sample_mapper log_field three_fields values
encode_fields-chosen_example =
    encode_fields-chosen sample_perl_api log_sink sample_mapper log_field three_fields values 1
      in_message after_fields fields_encoded

abbrev outside : EncoderState (List (ℕ × ℕ))
outside = record {
  sink = [];
  mapper_context = record { next_id = 1; live = []; spare = [] };
  status = none;
}

abbrev after_message : EncoderState (List (ℕ × ℕ))
after_message = record {
  sink = (3, 30) ∷ (1, 10) ∷ [];
  mapper_context = record {
    next_id = 5;
    live = [];
    spare =
        (record { kind = Kind.message; id = 4; place = Place.hash_item (some 7) (some 3) none })
        ∷ [];
  };
  status = none;
}

message_encoded :
    encode_simple_message_iterate_fields sample_perl_api log_sink sample_mapper log_field 99 outside
    ≡ some (returned true after_message)
unfolding encode_simple_message_iterate_fields encode_fields field_value mark_and_maybe_skip
    set_hash_key set_place find push_hash_level push_level_with pop_level
message_encoded = refl

log_field-live :
    (fd : Field) (value : ℕ) (s s' : EncoderState (List (ℕ × ℕ)))
    → log_field fd value s ≡ some (returned true s')
    → s'.mapper_context.live ≡ s.mapper_context.live
log_field-live fd value s s' e = ground (arith, e)

encode_simple_message_iterate_fields-live_example :
    after_message.mapper_context.live ≡ outside.mapper_context.live
encode_simple_message_iterate_fields-live_example =
    encode_simple_message_iterate_fields-live sample_perl_api log_sink sample_mapper log_field
      log_field-live 99 outside after_message message_encoded

-- A mapper that knows one name of the hash, that of its required field.
abbrev needed : Field
needed = record { name = 3; number = 3; field_index = 0; oneof_index = none; required = true }

abbrev hash_mapper : Mapper
hash_mapper = record {
  fields = needed ∷ [];
  oneof_count = 0;
  check_required_fields = true;
  ignore_undef_fields = false;
  field_by_name = λ name. if name == 3 then some needed else none;
  field_by_number = λ number. none;
}

abbrev ignored_field : ℕ → EncoderState (List (ℕ × ℕ)) → EncoderState (List (ℕ × ℕ))
ignored_field value s = s

abbrev after_hash : EncoderState (List (ℕ × ℕ))
after_hash = record {
  sink = (3, 30) ∷ [];
  mapper_context = record {
    next_id = 5;
    live = [];
    spare =
        (record { kind = Kind.message; id = 4; place = Place.hash_item (some 7) (some 1) none })
        ∷ [];
  };
  status = none;
}

hash_encoded :
    encode_simple_message_iterate_hash sample_perl_api log_sink hash_mapper log_field ignored_field
      99 outside
    ≡ some (returned true after_hash)
unfolding encode_simple_message_iterate_hash encode_entries mark_and_maybe_skip mark new_track_seen
    required_fields_present perform_check set_hash_key set_place push_hash_level push_level_with
    pop_level
hash_encoded = refl

encode_simple_message_iterate_hash-Gives_example :
    Gives sample_perl_api log_sink hash_mapper log_field ignored_field 0 values
encode_simple_message_iterate_hash-Gives_example =
    encode_simple_message_iterate_hash-Gives sample_perl_api log_sink hash_mapper log_field
      ignored_field 99 7 values outside after_hash 0 needed refl refl refl refl hash_encoded
