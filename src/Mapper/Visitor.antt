-- ===== src/Mapper/Visitor.antt =====
-- `run_bbpb_decoder` of src/mapper.cpp: the loop that hands the tokens to the handlers.
pub mod Nested
use google_protobuf_dynamic.Common.{
  ℕ, zero, suc, Bool, true, false, Option, none, some, List, [], ◌∷◌, ◌>>=◌, ◌%◌, ◌^◌,
}
use google_protobuf_dynamic.Pb.Types.{PbToken}
use google_protobuf_dynamic.Pb.Decoder.{Decoder}
use google_protobuf_dynamic.Pb.FieldLookup.{Lookup, Entry}
use google_protobuf_dynamic.Pb.Tokens.{next_token, set_buffer, start_message, end_message}
use google_protobuf_dynamic.Pb.Values.{
  get_unsigned_long, get_unsigned_int, get_long, get_int, get_zigzag_long, get_double, get_float,
  get_string_buffer, get_string_length, get_bool, sign_extend,
}
use Prim.Native.String.{String}

pub data RepeatedType : Type 0 where
  scalar_field repeated_field map_field : RepeatedType

pub data Action : Type 0 where
  store_float store_double store_string store_message store_int32 store_int64 : Action
  store_uint32 store_uint64 store_zigzag store_perl_bool store_enum store_numeric_bool : Action
  store_map_message store_big_int64 store_big_uint64 store_big_zigzag : Action
  store_string_map_message store_string_key store_bytes store_json_bool : Action

-- struct FieldData
pub record FieldData : Type 0 where
  pub index : ℕ
  pub action : Action
  pub repeated_type : RepeatedType

-- A call of a handler whose result the loop does not look at. `on_nv_float` is `on_nv` with a float, which
-- C++ converts to an NV.
pub data Call : Type 0 where
  on_nv on_nv_float on_iv on_uv on_bigiv on_biguv on_enum : (index val : ℕ) → Call
  on_perl_bool on_numeric_bool on_json_bool : (index : ℕ) → Bool → Call
  on_string : (index buffer len : ℕ) (is_utf8 : Bool) → Call
  on_string_key : (index buffer len : ℕ) → Call
  on_start_sub_message on_end_sub_message on_start_sequence on_end_sequence : (index : ℕ) → Call
  on_start_map on_end_map on_end_map_entry on_end_string_map_entry : (index : ℕ) → Call

-- The handlers, with their state `H`, as the loop uses them.
pub record Handlers (H : Type 0) : Type 0 where
  pub call : Call → H → H
  pub on_end_message : H → Bool × H

-- The mappers, by a number: `mapper->fields[idx].mapper` and `mapper->decoder_field_data`.
pub record Mappers : Type 0 where
  pub field_mapper : (mapper idx : ℕ) → Option ℕ
  pub decoder_field_data : (mapper : ℕ) → Lookup FieldData

-- The local variables of the loop; the back of the vector `mappers` is the list's head.
pub record Loop (H : Type 0) : Type 0 where
  pub pb_decoder : Decoder FieldData
  pub mapper : ℕ
  pub mappers : List ℕ
  pub handlers : H
  pub status : Option String

-- A round goes on, or the function returns.
pub data Round (H : Type 0) : Type 0 where
  go_on : Loop H → Round H
  return : Bool → Loop H → Round H

-- The handler for a field that is no message.
abbrev pub scalar_call : Action → (index : ℕ) → Decoder FieldData → Option Call
scalar_call store_double i d = some (on_nv i (get_double d))
scalar_call store_float i d = some (on_nv_float i (get_float d))
scalar_call store_int64 i d = some (on_iv i (get_long d))
scalar_call store_big_int64 i d = some (on_bigiv i (get_long d))
scalar_call store_int32 i d = some (on_iv i (get_int d))
scalar_call store_uint64 i d = some (on_uv i (get_unsigned_long d))
scalar_call store_big_uint64 i d = some (on_biguv i (get_unsigned_long d))
scalar_call store_uint32 i d = some (on_uv i (get_unsigned_int d))
scalar_call store_perl_bool i d = some (on_perl_bool i (get_bool d))
scalar_call store_numeric_bool i d = some (on_numeric_bool i (get_bool d))
scalar_call store_json_bool i d = some (on_json_bool i (get_bool d))
scalar_call store_string i d = some (on_string i (get_string_buffer d) (get_string_length d) true)
scalar_call store_bytes i d = some (on_string i (get_string_buffer d) (get_string_length d) false)
scalar_call store_string_key i d =
    some (on_string_key i (get_string_buffer d) (get_string_length d))
-- the parameter is an int32_t
scalar_call store_enum i d = some (on_enum i (sign_extend (get_long d)))
scalar_call store_zigzag i d = some (on_iv i (get_zigzag_long d))
scalar_call store_big_zigzag i d = some (on_bigiv i (get_zigzag_long d))
scalar_call store_message i d = none
scalar_call store_map_message i d = none
scalar_call store_string_map_message i d = none

-- The call that ends a message or map entry; for another action the assertion fails.
abbrev pub end_call : Action → (index : ℕ) → Option Call
end_call store_message i = some (on_end_sub_message i)
end_call store_map_message i = some (on_end_map_entry i)
end_call store_string_map_message i = some (on_end_string_map_entry i)
end_call _ i = none

module _ {H : Type 0} (handlers : Handlers H) (table : Mappers) where
  abbrev pub notify : Call → Loop H → Loop H
  notify c l = record l { handlers = handlers.call c l.handlers }

  -- `start_message` for the field's mapper, which becomes the current one.
  unfoldable pub enter_message : (field_mapper : ℕ) → Loop H → Loop H
  enter_message field_mapper l = record l {
    pb_decoder = start_message (table.decoder_field_data field_mapper) l.pb_decoder;
    mappers = l.mapper ∷ l.mappers;
    mapper = field_mapper;
  }

  unfoldable pub store_action : Action → (index : ℕ) → Loop H → Option (Round H)
  store_action store_message i l = table.field_mapper l.mapper i >>= λ field_mapper.
      some (go_on (enter_message field_mapper (notify (on_start_sub_message i) l)))
  store_action store_map_message i l =
      table.field_mapper l.mapper i >>= λ field_mapper. some (go_on (enter_message field_mapper l))
  store_action store_string_map_message i l =
      table.field_mapper l.mapper i >>= λ field_mapper. some (go_on (enter_message field_mapper l))
  store_action action i l = scalar_call action i l.pb_decoder >>= λ c. some (go_on (notify c l))

  -- `get_field_entry()->data`; a NULL entry is a fault.
  abbrev pub entry_data : Loop H → Option FieldData
  entry_data l = l.pb_decoder.field_entry >>= λ entry. some entry.value

  abbrev pub sequence_call : (field : Call) (map : Call) → RepeatedType → Call
  sequence_call field map repeated_field = field
  sequence_call field map _ = map

  abbrev pub end_field : Loop H → FieldData → Option (Round H)
  end_field l entry = end_call entry.action entry.index >>= λ c. some (go_on (notify c l))

  -- TOKEN_END_MESSAGE, after `on_end_message` was true and when there is an outer message.
  unfoldable pub leave_message : (outer : ℕ) (rest : List ℕ) → Loop H → Option (Round H)
  leave_message outer rest l = end_message l.pb_decoder >>= λ d.
      let l' = record l { pb_decoder = d; mapper = outer; mappers = rest } in
      entry_data l' >>= end_field l'

  -- `mappers.size() == 0`
  unfoldable pub resume : List ℕ → Loop H → Option (Round H)
  resume [] l = some (return true l)
  resume (outer ∷ rest) l = leave_message outer rest l

  unfoldable pub finish_message : Bool × H → Loop H → Option (Round H)
  finish_message (false, h) l = some (return false (record l { handlers = h }))
  finish_message (true, h) l = resume l.mappers (record l { handlers = h })

  -- The switch of the loop.
  unfoldable pub handle_token : PbToken → Loop H → Option (Round H)
  handle_token PbToken.field l = entry_data l >>= λ entry. store_action entry.action entry.index l
  handle_token PbToken.start_sequence l = entry_data l >>= λ entry. some (
      go_on (
        notify
          (sequence_call (on_start_sequence entry.index) (on_start_map entry.index)
            entry.repeated_type)
          l))
  handle_token PbToken.end_sequence l = entry_data l >>= λ entry. some (
      go_on (
        notify
          (sequence_call (on_end_sequence entry.index) (on_end_map entry.index) entry.repeated_type)
          l))
  handle_token PbToken.end_message l = finish_message (handlers.on_end_message l.handlers) l
  handle_token PbToken.error l = elim l.pb_decoder.error_message [
    | none ↦ some (return false l)
    | some message ↦ some (return false (record l { status = some message }))
  ]
  handle_token PbToken.unknown_field l = some (go_on l)

  unfoldable pub round : Loop H → Option (Round H)
  round l =
      next_token l.pb_decoder >>= λ (token, d). handle_token token (record l { pb_decoder = d })

  -- The loop, for `fuel` rounds at most; with no fuel left the last state is given as `go_on`.
  unfoldable pub run_rounds : (fuel : ℕ) → Loop H → Option (Round H)
  run_rounds zero l = some (go_on l)
  run_rounds (suc fuel) l = round l >>= λ r. elim r [
    | go_on l' ↦ run_rounds fuel l'
    | return result l' ↦ some (return result l')
  ]

  -- The state in front of the loop; `d` is a Decoder after its constructor.
  unfoldable pub start_run : (root buffer : ℕ) → List ℕ → H → Decoder FieldData → Loop H
  start_run root buffer bytes h d = record {
    pb_decoder =
        start_message (table.decoder_field_data root)
          (set_buffer buffer bytes (record d { state = [] }));
    mapper = root;
    mappers = [];
    handlers = h;
    status = none;
  }

  unfoldable pub run_bbpb_decoder :
      (fuel root buffer : ℕ) → List ℕ → H → Decoder FieldData → Option (Round H)
  unfolding run_rounds round handle_token store_action finish_message resume leave_message
      enter_message start_run
  run_bbpb_decoder fuel root buffer bytes h d = run_rounds fuel (start_run root buffer bytes h d)
