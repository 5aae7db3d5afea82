-- ===== src/Pb/Values/Zigzag.antt =====
-- `get_zigzag_long` of src/pb/decoder.h against the encoding of signed numbers.
use google_protobuf_dynamic.Common.{
  ℕ, ◌-◌, ◌*◌, ◌/◌, ◌^◌, ◌<◌, ◌≡◌, ltb, if◌then◌else◌, arith, Bool-cases, inl, inr,
}
use google_protobuf_dynamic.Common.Bits.{bit_xor-ones, bit_and-one, bit_xor-none}
use google_protobuf_dynamic.Pb.Decoder.{Decoder}
use google_protobuf_dynamic.Pb.Values.{get_zigzag_long}

-- 0, -1, 1, -2, ... are 0, 1, 2, 3, ...; a signed number is given by its 64 bits.
abbrev pub zigzag : ℕ → ℕ
zigzag n = if ltb n (2 ^ 63) then 2 * n else 2 * (2 ^ 64 - n) - 1

-- The getter gives back every signed 64-bit number that is encoded in zigzag order.
pub get_zigzag_long-zigzag :
    {T : Type 0} (d : Decoder T) (n : ℕ)
    → n < 2 ^ 64
    → d.integral_number ≡ zigzag n
    → get_zigzag_long d ≡ n
unfolding get_zigzag_long
get_zigzag_long-zigzag d n fits e = elim (Bool-cases (ltb n (2 ^ 63))) [
  | inl positive ↦
      ground (arith, positive, bit_and-one d.integral_number, bit_xor-none (d.integral_number / 2))
  | inr negative ↦
      ground
        (arith, negative, bit_and-one d.integral_number, bit_xor-ones 64 (d.integral_number / 2))
]
