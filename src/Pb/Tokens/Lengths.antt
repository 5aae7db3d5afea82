-- ===== src/Pb/Tokens/Lengths.antt =====
-- The length check of `decode_field_payload` in src/pb/decoder.cpp.
use google_protobuf_dynamic.Common.{ℕ, ◌+◌, ◌-◌, ◌^◌, ◌≤◌, ◌<◌, ◌≡◌, true, some, ◌⊎◌, ◌↔◌, arith}
use google_protobuf_dynamic.Pb.Decoder.{Decoder}
use google_protobuf_dynamic.Pb.Tokens.{decode_length}

module _ {T : Type 0} where
  -- A place and a length that both fit in 64 bits, within a message.
  abbrev pub IsInside : Decoder T → Type 0
  IsInside d = (d.current ≤ d.message_end) × (d.message_end < 2 ^ 64) × (d.integral_number < 2 ^ 64)

  -- Where the decoder is after a payload of the length that was read.
  abbrev pub skip_to : Decoder T → ℕ → Decoder T
  skip_to d place = record d { field_payload = d.current; current = place }

  -- For a place inside the message and 64-bit numbers, the check accepts a length exactly when the payload fits in the message, or when the
  -- address of its end wraps around.
  pub decode_length-accepts :
      (d d' : Decoder T)
      → IsInside d
      → (decode_length (true, d) ≡ some (true, d')) ↔ (
          (d.current + d.integral_number ≤ d.message_end
            × d' ≡ skip_to d (d.current + d.integral_number))
          ⊎ (2 ^ 64 ≤ d.current + d.integral_number
              × d' ≡ skip_to d (d.current + d.integral_number - 2 ^ 64)))
  unfolding decode_length
  decode_length-accepts d d' (a, b, c) = ground arith
