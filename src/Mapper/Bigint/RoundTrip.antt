-- ===== src/Mapper/Bigint/RoundTrip.antt =====
-- What `get_int64` and `get_uint64` of src/mapper.cpp read from the scalars that `on_bigiv` and
-- `on_biguv` store.
use google_protobuf_dynamic.Common.{
  ℕ, zero, suc, ◌+◌, ◌-◌, ◌*◌, ◌/◌, ◌%◌, ◌^◌, ◌<◌, ◌≡◌, ◌≢◌, refl, ◌∙◌, ap, ltb, leb, ◌==◌,
  if◌then◌else◌, Bool, true, false, ◌&&◌, ◌||◌, Bool-cases, inl, inr, List, [], ◌∷◌, arith,
}
use google_protobuf_dynamic.Common.Bits.{bit_or-shifted, bit_or_comm}
use google_protobuf_dynamic.Mapper.Bigint.{
  digit_char, fill_digits, bigint_text, Perl, bigiv_value, biguv_value, read_digits, extract_text,
  extract_bits, get_int64, get_uint64, skip_prefix,
}

-- The digits of a number with no zeros in front, and its text as `as_hex` documents it.
unfoldable pub trim : List ℕ → List ℕ
trim [] = []
trim (c ∷ cs) = if c == 48 then trim cs else c ∷ cs

unfoldable pub hex_text : (value : ℕ) (negative : Bool) → List ℕ
hex_text value true = 45 ∷ 48 ∷ 120 ∷ trim (fill_digits 16 value [])
hex_text value false = 48 ∷ 120 ∷ trim (fill_digits 16 value [])

-- The documented behaviour of Math::BigInt and of READ_XDIGIT.
pub record IsPerl {B : Type 0} (perl : Perl B) : Type 0 where
  pub as_hex-new :
      (value : ℕ) (negative : Bool)
      → value < 2 ^ 64
      → value ≢ 0
      → perl.as_hex (perl.new (bigint_text value negative)) ≡ hex_text value negative
  pub read_xdigit-digit_char :
      (digit : ℕ) → digit < 16 → perl.read_xdigit (digit_char digit) ≡ digit

module _ {B : Type 0} (perl : Perl B) (ok : IsPerl perl) where
  read_digits-digit :
      (digit integer : ℕ) (buffer : List ℕ)
      → digit < 16
      → integer * 16 + digit < 2 ^ 64
      → read_digits perl (digit_char digit ∷ buffer) integer
        ≡ read_digits perl buffer (integer * 16 + digit)
  unfolding read_digits
  read_digits-digit digit integer buffer small fits = ap (read_digits perl buffer) (
      ground (
        arith,
        ok.read_xdigit-digit_char digit small,
        bit_or-shifted 4 digit integer small,
        bit_or_comm (integer * 16 % 2 ^ 64) digit,
      ))

  read_digits-fill_digits :
      (rounds value : ℕ) (after : List ℕ)
      → value < 16 ^ rounds
      → value < 2 ^ 64
      → read_digits perl (fill_digits rounds value after) 0 ≡ read_digits perl after value
  unfolding fill_digits
  read_digits-fill_digits zero value after small fits = ap (read_digits perl after) (omega arith)
  read_digits-fill_digits (suc rounds) value after small fits =
      read_digits-fill_digits rounds (value / 16) (digit_char (value % 16) ∷ after) (ground arith)
        (omega arith)
      ∙ read_digits-digit (value % 16) (value / 16) after (omega arith) (omega arith)
      ∙ ap (read_digits perl after) (omega arith)

  read_digits-trim :
      (digits : List ℕ) → read_digits perl (trim digits) 0 ≡ read_digits perl digits 0
  unfolding trim read_digits
  read_digits-trim [] = refl
  read_digits-trim (c ∷ cs) = elim (Bool-cases (c == 48)) [
    | inl same ↦ ground (arith, same, read_digits-trim cs, ok.read_xdigit-digit_char 0)
    | inr other ↦ ground (arith, other)
  ]

  read_hex :
      (value : ℕ) → value < 2 ^ 64 → read_digits perl (trim (fill_digits 16 value [])) 0 ≡ value
  unfolding read_digits
  read_hex value fits =
      read_digits-trim (fill_digits 16 value []) ∙ read_digits-fill_digits 16 value [] fits fits

  extract_text-hex_text :
      (value : ℕ) (negative : Bool)
      → value < 2 ^ 64
      → extract_text perl (hex_text value negative) ≡ (value, negative)
  unfolding extract_text hex_text skip_prefix
  extract_text-hex_text value true fits = ap (λ (n : ℕ). (n, true)) (read_hex value fits)
  extract_text-hex_text value false fits = ap (λ (n : ℕ). (n, false)) (read_hex value fits)

  -- With Math::BigInt and READ_XDIGIT as documented, a stored unsigned 64-bit number is read back.
  pub get_uint64-biguv_value :
      (val : ℕ) → val < 2 ^ 64 → get_uint64 perl (biguv_value perl val) ≡ val
  unfolding get_uint64 biguv_value extract_bits
  get_uint64-biguv_value val fits = elim (Bool-cases (ltb val (2 ^ 32))) [
    | inl small ↦ ground (arith, small)
    | inr big ↦ ground (arith, big, ok.as_hex-new val false, extract_text-hex_text val false fits)
  ]

  -- With Math::BigInt and READ_XDIGIT as documented, a stored signed 64-bit number is read back,
  -- except that one below -2 ^ 31, other than -2 ^ 63,
  -- comes back as its negation.
  pub get_int64-bigiv_value :
      (val : ℕ)
      → val < 2 ^ 64
      → get_int64 perl (bigiv_value perl val)
        ≡ (if leb (2 ^ 63) val && ltb val (2 ^ 64 - 2 ^ 31) then 2 ^ 64 - val else val)
  unfolding get_int64 bigiv_value extract_bits
  get_int64-bigiv_value val fits =
      elim (Bool-cases (ltb val (2 ^ 31) || leb (2 ^ 64 - 2 ^ 31) val)) [
        | inl small ↦ ground (arith, small)
        | inr big ↦ elim (Bool-cases (leb (2 ^ 63) val)) [
          | inl negative ↦
              ground
                (arith, big, negative, ok.as_hex-new val true, extract_text-hex_text val true fits)
          | inr positive ↦
              ground (
                arith,
                big,
                positive,
                ok.as_hex-new val false,
                extract_text-hex_text val false fits,
              )
        ]
      ]
