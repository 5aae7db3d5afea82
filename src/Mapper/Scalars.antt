-- ===== src/Mapper/Scalars.antt =====
-- Perl's values as src/mapper.cpp handles them, and the store of arrays and hashes.
use google_protobuf_dynamic.Common.{
  ℕ, suc, ◌+◌, ◌-◌, ◌^◌, ◌==◌, ◌≡◌, arith, if◌then◌else◌, Bool, true, false, Option, List, [], ltb,
}
use google_protobuf_dynamic.Dynamic.Options.{BoolStyle}

-- A scalar. A number is that of its 64 bits, a text the list of its bytes with the UTF-8 flag; a
-- reference has the address of what it refers to.
pub data Sv : Type 0 where
  undef : Sv
  iv uv nv : ℕ → Sv
  pv : List ℕ → (is_utf8 : Bool) → Sv
  bigint : (text : List ℕ) → Sv
  json_bool : Bool → Sv
  array_ref hash_ref other_ref : (address : ℕ) → Sv

-- What the code uses of C and Perl: the conversion of a float to an NV, those of a value, `sv_setpvn`, which may keep flags of the
-- scalar that it writes to, and `SvUTF8_on`.
pub record PerlScalars : Type 0 where
  pub float_nv : ℕ → ℕ
  pub sv_nv : Sv → ℕ
  pub sv_iv : Sv → ℕ
  pub sv_uv : Sv → ℕ
  pub sv_true : Sv → Bool
  pub sv_pv : Sv → List ℕ
  pub sv_pvutf8 : Sv → List ℕ
  pub sv_setpvn : (target : Sv) → List ℕ → Sv
  pub sv_utf8_on : Sv → Sv

-- SvOK and SvROK
abbrev pub sv_ok : Sv → Bool
sv_ok undef = false
sv_ok _ = true

abbrev pub sv_rok : Sv → Bool
sv_rok (json_bool b) = true
sv_rok (bigint text) = true
sv_rok (array_ref a) = true
sv_rok (hash_ref a) = true
sv_rok (other_ref a) = true
sv_rok _ = false

-- The arrays and hashes by their addresses; the next free address. An element of an array that was
-- never written is `none`; a key is the number of a text.
pub record Heap : Type 0 where
  pub arrays : ℕ → List (Option Sv)
  pub hashes : ℕ → List (ℕ × Sv)
  pub next : ℕ

abbrev pub update {ℓ} : {A : Type ℓ} → (ℕ → A) → ℕ → A → ℕ → A
update f a v b = if a == b then v else f b

pub update_same : {A : Type 0} (f : ℕ → A) (a : ℕ) (v : A) → update f a v a ≡ v
update_same f a v = ground arith

pub update_other :
    {A : Type 0} (f : ℕ → A) (a b : ℕ) (v : A) → (a == b) ≡ false → update f a v b ≡ f b
update_other f a b v e = ground (arith, e)

abbrev pub with_array : ℕ → List (Option Sv) → Heap → Heap
with_array a elements h = record h { arrays = update h.arrays a elements }

abbrev pub with_hash : ℕ → List (ℕ × Sv) → Heap → Heap
with_hash a entries h = record h { hashes = update h.hashes a entries }

-- newAV and newHV, at the address `h.next`.
abbrev pub new_av : Heap → Heap
new_av h = record h { arrays = update h.arrays h.next []; next = suc h.next }

abbrev pub new_hv : Heap → Heap
new_hv h = record h { hashes = update h.hashes h.next []; next = suc h.next }

-- An int32_t as an IV.
unfoldable pub sign_extend : ℕ → ℕ
sign_extend value = if ltb value (2 ^ 31) then value else value + (2 ^ 64 - 2 ^ 32)

-- The types of upb; the fields' types are of no other.
pub data UpbType : Type 0 where
  type_float type_double type_bool type_string type_bytes type_message : UpbType
  type_enum type_int32 type_uint32 type_int64 type_uint64 : UpbType

-- A field's default values, by the type that they are asked for; a float has 32 bits.
pub record Defaults : Type 0 where
  pub default_float : ℕ
  pub default_double : ℕ
  pub default_bool : Bool
  pub default_string : List ℕ
  pub default_int32 : ℕ
  pub default_uint32 : ℕ
  pub default_int64 : ℕ
  pub default_uint64 : ℕ

-- `set_perl_bool` and `set_numeric_bool`, and `Mapper::set_bool`.
unfoldable pub set_perl_bool : PerlScalars → (target : Sv) (value : Bool) → Sv
set_perl_bool perl target true = iv 1
set_perl_bool perl target false = perl.sv_setpvn target []

unfoldable pub set_numeric_bool : (value : Bool) → Sv
set_numeric_bool value = iv (if value then 1 else 0)

unfoldable pub set_bool : PerlScalars → BoolStyle → (target : Sv) (value : Bool) → Sv
set_bool perl BoolStyle.perl target value = set_perl_bool perl target value
set_bool perl BoolStyle.numeric target value = set_numeric_bool value
set_bool perl BoolStyle.json target value = json_bool value
