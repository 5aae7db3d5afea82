-- ===== src/Mapper/Bigint.antt =====
-- The 64-bit integers of src/mapper.cpp that Perl holds as Math::BigInt objects.
-- An int64_t or uint64_t is the number of its 64 bits; a text is the list of its characters.
pub mod RoundTrip
use google_protobuf_dynamic.Common.{
  ℕ, zero, suc, ◌+◌, ◌-◌, ◌*◌, ◌/◌, ◌%◌, ◌^◌, bit_or, ltb, leb, ◌==◌, if◌then◌else◌, Bool, true,
  false, ◌&&◌, ◌||◌, List, [], ◌∷◌,
}

-- `digit < 10 ? '0' + digit : 'a' + digit - 10`
abbrev pub digit_char : ℕ → ℕ
digit_char digit = if ltb digit 10 then 48 + digit else 97 + digit - 10

-- The loop of `set_bigint` that writes the buffer from its end, with `rounds` digits left.
unfoldable pub fill_digits : (rounds value : ℕ) → List ℕ → List ℕ
fill_digits zero value after = after
fill_digits (suc rounds) value after =
    fill_digits rounds (value / 16) (digit_char (value % 16) ∷ after)

-- The text that `set_bigint` gives to Math::BigInt->new: the buffer is "-0x" and 16 digits.
unfoldable pub bigint_text : (value : ℕ) (negative : Bool) → List ℕ
bigint_text value true = 45 ∷ 48 ∷ 120 ∷ fill_digits 16 value []
bigint_text value false = 48 ∷ 120 ∷ fill_digits 16 value []

-- A Perl scalar with an integer, or with a Math::BigInt object of the type `B`.
pub data Scalar (B : Type 0) : Type 0 where
  iv : ℕ → Scalar B
  bigint : B → Scalar B

-- What the code uses of Perl: Math::BigInt->new, its method as_hex, and READ_XDIGIT.
pub record Perl (B : Type 0) : Type 0 where
  pub new : List ℕ → B
  pub as_hex : B → List ℕ
  pub read_xdigit : ℕ → ℕ

module _ {B : Type 0} (perl : Perl B) where
  -- The value that `on_bigiv` stores: I32_MIN <= val <= I32_MAX on the 64 bits.
  unfoldable pub bigiv_value : ℕ → Scalar B
  bigiv_value val =
      if ltb val (2 ^ 31) || leb (2 ^ 64 - 2 ^ 31) val
      then iv val
      else bigint (perl.new (bigint_text val (leb (2 ^ 63) val)))

  -- The value that `on_biguv` stores.
  unfoldable pub biguv_value : ℕ → Scalar B
  biguv_value val = if ltb val (2 ^ 32) then iv val else bigint (perl.new (bigint_text val false))

  -- The loop of `extract_bits`.
  unfoldable pub read_digits : List ℕ → (integer : ℕ) → ℕ
  read_digits [] integer = integer
  read_digits (c ∷ buffer) integer =
      read_digits buffer (bit_or (integer * 16 % 2 ^ 64) (perl.read_xdigit c))

  skip_prefix : List ℕ → List ℕ
  skip_prefix (_ ∷ _ ∷ buffer) = buffer
  skip_prefix _ = []

  unfoldable pub extract_text : List ℕ → ℕ × Bool
  unfolding skip_prefix
  extract_text [] = (0, false)
  extract_text (c ∷ buffer) =
      if c == 45
      then (read_digits (skip_prefix buffer) 0, true)
      else (read_digits (skip_prefix (c ∷ buffer)) 0, false)

  -- `extract_bits`: the number, and whether the text began with '-'.
  unfoldable pub extract_bits : B → ℕ × Bool
  extract_bits src = extract_text (perl.as_hex src)

  -- `negative ? -value : value`, and in `get_uint64_nomg` `~value + 1`.
  abbrev signed : ℕ × Bool → ℕ
  signed (value, negative) = if negative then (2 ^ 64 - value) % 2 ^ 64 else value

  abbrev complemented : ℕ × Bool → ℕ
  complemented (value, negative) = if negative then (2 ^ 64 - 1 - value + 1) % 2 ^ 64 else value

  unfoldable pub get_int64 : Scalar B → ℕ
  get_int64 (iv value) = value
  get_int64 (bigint src) = signed (extract_bits src)

  unfoldable pub get_uint64 : Scalar B → ℕ
  get_uint64 (iv value) = value
  get_uint64 (bigint src) = complemented (extract_bits src)
