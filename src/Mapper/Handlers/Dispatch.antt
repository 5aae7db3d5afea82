-- ===== src/Mapper/Handlers/Dispatch.antt =====
-- The handlers of src/mapper.cpp as `run_bbpb_decoder` calls them, and `decode_bbpb`.
use google_protobuf_dynamic.Common.{ℕ, Bool, true, false, Option, none, some, List, ◌>>=◌}
use google_protobuf_dynamic.Pb.Decoder.{Decoder}
use google_protobuf_dynamic.Mapper.Visitor.{
  Call, on_nv, on_nv_float, on_iv, on_uv, on_bigiv, on_biguv, on_enum, on_perl_bool,
  on_numeric_bool, on_json_bool, on_string, on_string_key, on_start_sub_message, on_end_sub_message,
  on_start_sequence, on_end_sequence, on_start_map, on_end_map, on_end_map_entry,
  on_end_string_map_entry, Handlers, FieldData, Loop, Mappers, go_on, return, run_bbpb_decoder,
}
use google_protobuf_dynamic.Mapper.Scalars.{PerlScalars, new_hv}
use google_protobuf_dynamic.Mapper.Handlers.{HandlerMapper, DecoderHandlers, Handled, prepare}
use google_protobuf_dynamic.Mapper.Handlers.Calls as Calls
use google_protobuf_dynamic.Mapper.Handlers.Calls.{PerlKeys}

abbrev pub state_of : Handled Bool → Option DecoderHandlers
state_of result = result >>= λ r. some r.1

module _ (table : ℕ → HandlerMapper) (perl : PerlScalars) (keys : PerlKeys)
    (bytes_at : (buffer len : ℕ) → List ℕ) where
  -- The call of one handler, whose result is not used.
  unfoldable pub handle : Call → DecoderHandlers → Option DecoderHandlers
  handle (on_nv i v) s = state_of (Calls.on_nv table perl keys i v s)
  handle (on_nv_float i v) s = state_of (Calls.on_nv table perl keys i (perl.float_nv v) s)
  handle (on_iv i v) s = state_of (Calls.on_iv table perl keys i v s)
  handle (on_uv i v) s = state_of (Calls.on_uv table perl keys i v s)
  handle (on_bigiv i v) s = state_of (Calls.on_bigiv table perl keys i v s)
  handle (on_biguv i v) s = state_of (Calls.on_biguv table perl keys i v s)
  handle (on_enum i v) s = state_of (Calls.on_enum table perl keys i v s)
  handle (on_perl_bool i b) s = state_of (Calls.on_perl_bool table perl keys i b s)
  handle (on_numeric_bool i b) s = state_of (Calls.on_numeric_bool table perl keys i b s)
  handle (on_json_bool i b) s = state_of (Calls.on_json_bool table perl keys i b s)
  handle (on_string i buffer len is_utf8) s =
      state_of (Calls.on_string table perl keys i (bytes_at buffer len) is_utf8 s)
  handle (on_string_key i buffer len) s =
      Calls.on_string_key table perl keys (bytes_at buffer len) s
  handle (on_start_sub_message i) s = Calls.on_start_sub_message table perl keys i s
  handle (on_end_sub_message i) s = state_of (Calls.on_end_sub_message table perl keys s)
  handle (on_start_sequence i) s = Calls.on_start_sequence table perl keys i s
  handle (on_end_sequence i) s = state_of (Calls.on_end_sequence table perl keys s)
  handle (on_start_map i) s = Calls.on_start_map table perl keys i s
  handle (on_end_map i) s = state_of (Calls.on_end_map table perl keys s)
  handle (on_end_map_entry i) s = state_of (Calls.on_end_map_entry table perl keys s)
  handle (on_end_string_map_entry i) s = state_of (Calls.on_end_string_map_entry table perl keys s)

  abbrev end_result : Handled Bool → Bool × Option DecoderHandlers
  end_result none = (false, none)
  end_result (some (ok, s)) = (ok, some s)

  -- The handlers with a state that is `none` once behaviour was undefined. The status has no error
  -- before the loop ends.
  unfoldable pub decoder_callbacks : Handlers (Option DecoderHandlers)
  unfolding handle
  decoder_callbacks = record {
    call = λ c o. o >>= handle c;
    on_end_message = λ o. end_result (o >>= Calls.on_end_message table perl keys true);
  }

  -- `decode_bbpb` up to the transformations, of which there are none: the target, a new hash, or
  -- NULL; `fuel` bounds the rounds of the loop.
  unfoldable pub decode_bbpb :
      Mappers
      → (fuel root buffer : ℕ) → List ℕ
      → Decoder FieldData
      → DecoderHandlers
      → Option (Option ℕ × Loop (Option DecoderHandlers))
  unfolding decoder_callbacks run_bbpb_decoder
  decode_bbpb mappers fuel root buffer bytes d s =
      let target = s.heap.next in
      let s' = prepare table root target (record s { heap = new_hv s.heap }) in
      run_bbpb_decoder decoder_callbacks mappers fuel root buffer bytes (some s') d >>= λ r.
      elim r [
        | go_on l ↦ none
        | return true l ↦ some (some target, l)
        | return false l ↦ some (none, l)
      ]
