-- ===== src/Examples/Mapping.antt =====
-- Runs of src/mapper.cpp and mapper_context.cpp.
use google_protobuf_dynamic.Common.{
  ℕ, ◌-◌, ◌^◌, ◌≡◌, refl, true, false, Bool, none, some, List, [], ◌∷◌, ◌++◌, ltb, ◌==◌,
  if◌then◌else◌, arith, ◌>>=◌,
}
use google_protobuf_dynamic.Mapper.Bigint.{
  Perl, bigint_text, fill_digits, bigiv_value, biguv_value, get_int64, get_uint64,
}
use google_protobuf_dynamic.Mapper.Bigint.RoundTrip.{
  IsPerl, trim, hex_text, get_uint64-biguv_value, get_int64-bigiv_value,
}
use google_protobuf_dynamic.Mapper.Context.{
  Kind, Place, MapperContext, clear, push_level_with, pop_level, fill_context,
}
use google_protobuf_dynamic.Mapper.Context.Levels.{
  Calls, HasFreshIds, Calls-HasFreshIds, new_item, fill_context-push_level,
}

-- A Math::BigInt that keeps its text, and gives it back with no zeros in front.
abbrev canonical : List ℕ → List ℕ
canonical (a ∷ b ∷ c ∷ digits) =
    if a == 45 then a ∷ b ∷ c ∷ trim digits else a ∷ b ∷ trim (c ∷ digits)
canonical text = text

abbrev sample_perl : Perl (List ℕ)
sample_perl = record {
  new = λ text. text;
  as_hex = canonical;
  read_xdigit = λ c. if ltb c 58 then c - 48 else c - 87;
}

canonical-bigint_text :
    (value : ℕ) (negative : Bool) → canonical (bigint_text value negative) ≡ hex_text value negative
unfolding bigint_text hex_text fill_digits
canonical-bigint_text value true = refl
canonical-bigint_text value false = refl

sample_perl-IsPerl : IsPerl sample_perl
sample_perl-IsPerl = record {
  as_hex-new = λ value negative h k. canonical-bigint_text value negative;
  read_xdigit-digit_char = λ digit h. ground arith;
}

get_uint64-biguv_value_example :
    get_uint64 sample_perl (biguv_value sample_perl (2 ^ 64 - 1)) ≡ 2 ^ 64 - 1
get_uint64-biguv_value_example =
    get_uint64-biguv_value sample_perl sample_perl-IsPerl (2 ^ 64 - 1) (omega arith)

-- -2 ^ 32 comes back as 2 ^ 32.
get_int64-bigiv_value_example :
    get_int64 sample_perl (bigiv_value sample_perl (2 ^ 64 - 2 ^ 32)) ≡ 2 ^ 32
get_int64-bigiv_value_example =
    get_int64-bigiv_value sample_perl sample_perl-IsPerl (2 ^ 64 - 2 ^ 32) (omega arith)

abbrev no_levels : MapperContext
no_levels = record { next_id = 7; live = []; spare = [] }

-- A level with a key, dropped and taken again from the storage.
abbrev message_level : MapperContext
message_level = push_level_with Kind.message (Place.hash_item (some 1) none none) (clear no_levels)

abbrev array_level : MapperContext
array_level = push_level_with Kind.array (Place.array_item 2 none) message_level

Calls-HasFreshIds_example : HasFreshIds array_level
Calls-HasFreshIds_example =
    Calls-HasFreshIds 2 no_levels array_level (omega arith)
      (Calls.push Kind.message _ (Calls.push Kind.array _ Calls.done))

fill_context-push_level_example :
    (fill_context array_level
      ≡ fill_context message_level
        ++ (new_item Kind.array (Place.array_item 2 none) message_level ∷ []))
    × ((pop_level array_level >>= λ c'. some (fill_context c')) ≡ some (fill_context message_level))
fill_context-push_level_example =
    fill_context-push_level Kind.array (Place.array_item 2 none) message_level
