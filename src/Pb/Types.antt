-- ===== src/Pb/Types.antt =====
-- The enumerations of src/pb/decoder.h.
use google_protobuf_dynamic.Common.{ℕ, ◌==◌, if◌then◌else◌, Bool, true, false}

-- `WireType(n)` casts any number below 8; the numbers with no name stay `unnamed`.
pub data WireType : Type 0 where
  varint fixed64 len_delimited fixed32 : WireType
  unnamed : ℕ → WireType

unfoldable pub wire_type : ℕ → WireType
wire_type n =
    if n == 0
    then varint
    else (if n == 1
        then fixed64
        else (if n == 2 then len_delimited else (if n == 5 then fixed32 else unnamed n)))

unfoldable pub same_wire : WireType → WireType → Bool
same_wire varint varint = true
same_wire fixed64 fixed64 = true
same_wire len_delimited len_delimited = true
same_wire fixed32 fixed32 = true
same_wire (unnamed a) (unnamed b) = a == b
same_wire _ _ = false

pub data FieldType : Type 0 where
  double float int64 uint64 int32 fixed64 fixed32 bool string message bytes uint32 enum : FieldType
  sfixed32 sfixed64 sint32 sint64 : FieldType

pub data PbToken : Type 0 where
  error field unknown_field start_sequence end_sequence end_message : PbToken

pub data State : Type 0 where
  field start_repeated_field start_packed_repeated_field in_repeated_field : State
  in_packed_repeated_field end_repeated_field end_message error : State
