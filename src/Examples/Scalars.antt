-- ===== src/Examples/Scalars.antt =====
-- Scalars and an array of them on a sink that logs its calls, and keys of a map, src/mapper.cpp.
use google_protobuf_dynamic.Common.{
  ltb, ◌^◌, Bool-cases, inl, inr, ◌≤◌, ℕ, arith, ◌≡◌, refl, ◌==◌, if◌then◌else◌, Bool, true, false,
  Option, none, some, List, [], ◌∷◌,
}
use google_protobuf_dynamic.Mapper.Scalars.{iv, uv}
use google_protobuf_dynamic.Mapper.Encoder.{EncoderState}
use google_protobuf_dynamic.Mapper.Encoder.Scalars.{
  action_put_int32, action_put_uint64, action_put_uint64_nd, action_put_repeated, SinkCall,
  put_int32, put_int64, put_uint64, start_sequence, end_sequence, ScalarField, EncoderApi,
  CheckOptions, is_coerced_ref, encode_scalar, encode_scalar_array,
}
use google_protobuf_dynamic.Mapper.Encoder.Scalars.Calls.{is_int32}
use google_protobuf_dynamic.Mapper.Encoder.Scalars.Skipped.{
  skips_uint64, with_action, encode_scalar-SkipsDefault,
}
use google_protobuf_dynamic.Mapper.Encoder.Scalars.Arrays.{written, Made, encode_scalar_array-Made}
use google_protobuf_dynamic.Mapper.Encoder.Keys.{
  key_iv, signed, decimal, ReadsNumbers, key_iv-signed,
}
use google_protobuf_dynamic.Examples.Accessors.{sample_scalars}

abbrev logging : EncoderApi (List SinkCall)
logging = record {
  call = λ c log. (true, c ∷ log);
  has_overloading = λ v. false;
  nv_eq = λ a b. a == b;
  to_float = λ v. v;
}

abbrev strict : CheckOptions
strict = record { fail_ref_coercion = true; check_enum_values = false }

abbrev numbers : ScalarField
numbers = record {
  name = 1;
  field_action = action_put_repeated;
  value_action = action_put_int32;
  enum_values = [];
  primitive = 12;
  str_start = 0;
  str_cont = 0;
  str_end = 0;
  seq_start = 10;
  seq_end = 11;
  default_text = [];
  default_bool = false;
  default_iv = 5;
  default_uv = 0;
  default_nv = 0;
  default_i64 = 0;
  default_u64 = 0;
}

abbrev idle : EncoderState (List SinkCall)
idle = record {
  sink = [];
  mapper_context = record { next_id = 1; live = []; spare = [] };
  status = none;
}

encode_scalar-SkipsDefault_example :
    (encode_scalar sample_scalars logging strict
        (with_action action_put_uint64_nd numbers)
        (uv 5)
        idle
      ≡ (true, record idle { sink = put_uint64 12 5 ∷ [] }))
    × (encode_scalar sample_scalars logging strict
          (with_action action_put_uint64 numbers)
          (uv 5)
          idle
        ≡ (true, record idle { sink = put_int64 12 5 ∷ [] }))
unfolding is_coerced_ref
encode_scalar-SkipsDefault_example =
    encode_scalar-SkipsDefault sample_scalars logging strict action_put_uint64_nd action_put_uint64
      numbers (uv 5) idle skips_uint64

encode_scalar_array-Made_example :
    Made sample_scalars logging strict
      (encode_scalar_array sample_scalars logging strict numbers 3
        (written (iv 5 ∷ iv 7 ∷ []))
        idle)
      (true, end_sequence 11 ∷ put_int32 12 7 ∷ put_int32 12 5 ∷ start_sequence 10 ∷ [])
      []
unfolding is_coerced_ref
encode_scalar_array-Made_example =
    encode_scalar_array-Made sample_scalars logging strict numbers 3 (iv 5 ∷ iv 7 ∷ []) idle
      is_int32 ((refl, refl), ((refl, refl), tt))

abbrev with_sign : Option (Bool × ℕ) → (negative : Bool) → Option (Bool × ℕ)
with_sign none negative = none
with_sign (some (sign, value)) negative = some (negative, value)

abbrev read_plain : List ℕ → Option (Bool × ℕ)
read_plain text = if ltb (decimal 0 text) (2 ^ 64) then some (false, decimal 0 text) else none

-- The numbers among the texts: digits, with a minus or not.
abbrev read_number : List ℕ → Option (Bool × ℕ)
read_number [] = none
read_number (c ∷ text) = if c == 45 then with_sign (read_plain text) true else read_plain (c ∷ text)

no_minus : (c : ℕ) → 48 ≤ c → (c == 45) ≡ false
no_minus c h = ground (arith, h)

reads_numbers : ReadsNumbers read_number
reads_numbers true c text are_digits positive =
    elim (Bool-cases (ltb (decimal 0 (c ∷ text)) (2 ^ 64))) [
      | inl fits ↦ rw fits refl
      | inr large ↦ rw large refl
    ]
reads_numbers false c text are_digits positive = rw (no_minus c are_digits.0) refl

-- "-17"
key_iv-signed_example : signed (key_iv read_number (45 ∷ 49 ∷ 55 ∷ [])) ≡ (true, 17)
key_iv-signed_example =
    key_iv-signed read_number reads_numbers true 49 (55 ∷ [])
      (omega arith, omega arith, (omega arith, omega arith, tt)) (λ negative. omega arith)
