-- ===== src/Mapper/Encoder/Keys.antt =====
-- The keys of a map field, `key_iv`, `key_uv` and `encode_key` of src/mapper.cpp. IVs have 64 bits.
use google_protobuf_dynamic.Common.{
  ℕ, ◌+◌, ◌-◌, ◌*◌, ◌≤◌, ◌^◌, ◌%◌, ◌≡◌, ◌<◌, refl, ◌==◌, ltb, if◌then◌else◌, Bool, true, false, not,
  Option, none, some, List, [], ◌∷◌, arith, Bool-cases, inl, inr, ltb→lt,
}
use google_protobuf_dynamic.Mapper.Encoder.{EncoderState}
use google_protobuf_dynamic.Mapper.Scalars.{PerlScalars}
use google_protobuf_dynamic.Mapper.Encoder.Scalars.{
  action_put_bool, action_put_string, action_put_int32, action_put_uint32, action_put_int64,
  action_put_uint64, put_bool, put_int32, put_uint32, put_int64, put_uint64, ScalarField,
  EncoderApi, CheckOptions, emit, put_string,
}

-- `grok_number` is that of Perl: whether the text of a number that is in a UV has a minus, and the UV.

-- The IV of a sign and a UV, in 64 bits.
unfoldable pub iv_of : (negative : Bool) (value : ℕ) → ℕ
iv_of true value = if ltb value (2 ^ 63) then (2 ^ 64 - value) % 2 ^ 64 else 0
iv_of false value = if ltb value (2 ^ 63 - 1) then value else 0

unfoldable pub key_iv : (List ℕ → Option (Bool × ℕ)) → (key : List ℕ) → ℕ
unfolding iv_of
key_iv grok_number key = elim (grok_number key) [
  | none ↦ 0
  | some (negative, value) ↦ iv_of negative value
]

unfoldable pub key_uv : (List ℕ → Option (Bool × ℕ)) → (key : List ℕ) → ℕ
key_uv grok_number key = elim (grok_number key) [ none ↦ 0 | some (negative, value) ↦ value ]

-- `keylen > 1 || (keylen == 1 && key[0] != '0')`
unfoldable pub key_bool : (key : List ℕ) → Bool
key_bool [] = false
key_bool (c ∷ []) = not (c == 48)
key_bool (c ∷ d ∷ key) = true

module _ {K : Type 0} (perl : PerlScalars) (api : EncoderApi K) (options : CheckOptions)
    (grok_number : List ℕ → Option (Bool × ℕ)) where
  unfoldable pub encode_key : ScalarField → (key : List ℕ) → EncoderState K → Bool × EncoderState K
  unfolding key_iv key_uv key_bool put_string
  encode_key fd key s = elim fd.value_action [
    | action_put_bool ↦ emit perl api options (put_bool fd.primitive (key_bool key)) s
    | action_put_string ↦ put_string perl api options fd key s
    | action_put_int32 ↦
        emit perl api options (put_int32 fd.primitive (key_iv grok_number key % 2 ^ 32)) s
    | action_put_uint32 ↦
        emit perl api options (put_uint32 fd.primitive (key_uv grok_number key % 2 ^ 32)) s
    | action_put_int64 ↦ emit perl api options (put_int64 fd.primitive (key_iv grok_number key)) s
    | action_put_uint64 ↦ emit perl api options (put_uint64 fd.primitive (key_uv grok_number key)) s
    | _ ↦ (false, s)
  ]

-- The sign and the absolute value of 64 bits in two's complement.
abbrev pub signed : (bits : ℕ) → Bool × ℕ
signed bits = if ltb bits (2 ^ 63) then (false, bits) else (true, 2 ^ 64 - bits)

-- The number from which on `key_iv` gives 0.
abbrev pub first_lost : (negative : Bool) → ℕ
first_lost true = 2 ^ 63
first_lost false = 2 ^ 63 - 1

wrapped : (value : ℕ) → 0 < value → value < 2 ^ 63 → (2 ^ 64 - value) % 2 ^ 64 ≡ 2 ^ 64 - value
wrapped value l h = omega (arith, l, h)

signed_negative :
    (value : ℕ) → 0 < value → value < 2 ^ 63 → signed ((2 ^ 64 - value) % 2 ^ 64) ≡ (true, value)
signed_negative value l h = rw (wrapped value l h) (ground (arith, l, h))

signed-iv_of :
    (negative : Bool) (value : ℕ)
    → ((negative ≡ true) → 0 < value)
    → signed (iv_of negative value)
      ≡ (if ltb value (first_lost negative) then (negative, value) else (false, 0))
unfolding iv_of
signed-iv_of true value h = elim (Bool-cases (ltb value (2 ^ 63))) [
  | inl low ↦ rw low (signed_negative value (h refl) (ltb→lt value (2 ^ 63) low))
  | inr high ↦ rw high refl
]
signed-iv_of false value h = ground arith

-- The value of a text of digits, behind others with the given value.
abbrev pub decimal : (value : ℕ) → (digits : List ℕ) → ℕ
decimal value [] = value
decimal value (c ∷ digits) = decimal (value * 10 + (c - 48)) digits

abbrev pub AreDigits : List ℕ → Type 0
AreDigits [] = Unit
AreDigits (c ∷ digits) = (48 ≤ c) × (c ≤ 57) × AreDigits digits

-- The text of an integer: a minus or not, and its digits, one at least.
abbrev pub integer_text : (negative : Bool) → List ℕ → List ℕ
integer_text true digits = 45 ∷ digits
integer_text false digits = digits

-- What Perl documents of grok_number for the text of an integer, "-0" left out: sign and absolute
-- value if this is in a UV, and no IS_NUMBER_IN_UV if it is too large.
abbrev pub ReadsNumbers : (List ℕ → Option (Bool × ℕ)) → Type 0
ReadsNumbers grok_number =
    (negative : Bool) (c : ℕ) (digits : List ℕ)
    → AreDigits (c ∷ digits)
    → ((negative ≡ true) → 0 < decimal 0 (c ∷ digits))
    → grok_number (integer_text negative (c ∷ digits)) ≡ (
        if ltb (decimal 0 (c ∷ digits)) (2 ^ 64)
        then some (negative, decimal 0 (c ∷ digits))
        else none)

too_large :
    (negative : Bool) (value : ℕ)
    → ltb value (2 ^ 64) ≡ false
    → ltb value (first_lost negative) ≡ false
too_large true value large = ground (arith, large)
too_large false value large = ground (arith, large)

-- The key that is the text of an integer in decimal digits, other than "-0", gives an IV with the sign and
-- the absolute value of that integer exactly if it is above -2 ^ 63 and below 2 ^ 63 - 1; for any other
-- integer, these two included, the IV is 0. Of grok_number it uses what Perl documents.
pub key_iv-signed :
    (grok_number : List ℕ → Option (Bool × ℕ))
    → ReadsNumbers grok_number
    → (negative : Bool) (c : ℕ) (digits : List ℕ) → AreDigits (c ∷ digits)
    → ((negative ≡ true) → 0 < decimal 0 (c ∷ digits))
    → signed (key_iv grok_number (integer_text negative (c ∷ digits))) ≡ (
        if ltb (decimal 0 (c ∷ digits)) (first_lost negative)
        then (negative, decimal 0 (c ∷ digits))
        else (false, 0))
unfolding key_iv
key_iv-signed grok_number reads negative c digits are_digits h =
    let value = decimal 0 (c ∷ digits) in
    elim (Bool-cases (ltb value (2 ^ 64))) [
      | inl fits ↦
          rw (reads negative c digits are_digits h, fits, key_iv) (signed-iv_of negative value h)
      | inr large ↦
          rw (reads negative c digits are_digits h, large, key_iv, too_large negative value large)
            refl
    ]
