-- ===== src/Pb/Values.antt =====
-- What a visitor reads from the union of the decoder: the getters of src/pb/decoder.h. A signed
-- result is given as the 64 bits of its value, a floating point one as its own bits.
pub mod Zigzag
use google_protobuf_dynamic.Common.{
  ℕ, ◌+◌, ◌-◌, ◌/◌, ◌%◌, ◌^◌, bit_and, bit_xor, ltb, if◌then◌else◌, ◌==◌, Bool, not,
}
use google_protobuf_dynamic.Pb.Decoder.{Decoder, word}

-- An int, converted to 64 bits.
abbrev pub sign_extend : ℕ → ℕ
sign_extend n = let low = n % 2 ^ 32 in if ltb low (2 ^ 31) then low else low + (2 ^ 64 - 2 ^ 32)

module _ {T : Type 0} where
  abbrev pub get_unsigned_long : Decoder T → ℕ
  get_unsigned_long d = d.integral_number

  abbrev pub get_unsigned_int : Decoder T → ℕ
  get_unsigned_int d = d.integral_number % 2 ^ 32

  abbrev pub get_long : Decoder T → ℕ
  get_long d = d.integral_number

  abbrev pub get_int : Decoder T → ℕ
  get_int d = sign_extend d.integral_number

  unfoldable pub get_zigzag_long : Decoder T → ℕ
  get_zigzag_long d = bit_xor (d.integral_number / 2) (word (2 ^ 64 - bit_and d.integral_number 1))

  abbrev pub get_double : Decoder T → ℕ
  get_double d = d.integral_number

  abbrev pub get_float : Decoder T → ℕ
  get_float d = d.integral_number % 2 ^ 32

  abbrev pub get_string_buffer : Decoder T → ℕ
  get_string_buffer d = d.field_payload

  abbrev pub get_string_length : Decoder T → ℕ
  get_string_length d = d.integral_number

  -- `get_unsigned_int()` as a bool.
  abbrev pub get_bool : Decoder T → Bool
  get_bool d = not (d.integral_number % 2 ^ 32 == 0)
