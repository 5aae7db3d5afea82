-- ===== src/Pb/Decoder.antt =====
-- class Decoder of src/pb/decoder.h and decoder.cpp: its state and the reads of numbers.
-- A pointer is a 64-bit address. `bytes` is what memory holds from `buffer` to `buffer_end`.
pub mod Frame
pub mod Varint
pub mod Paths
use google_protobuf_dynamic.Common.{
  ℕ, zero, suc, ◌+◌, ◌-◌, ◌*◌, ◌/◌, ◌%◌, ◌^◌, bit_and, bit_or, ltb, leb, ◌==◌, if◌then◌else◌, Bool,
  false, ◌&&◌, ◌||◌, Option, none, some, List, get_elem?, ◌>>=◌,
}
use google_protobuf_dynamic.Pb.Types.{State}
use google_protobuf_dynamic.Pb.FieldLookup.{Lookup, Entry}
use Prim.Native.String.{String}

-- The union of `fixedbytes`, `integral_number` and the floating point views is its 64 bits,
-- `integral_number`, on a little-endian machine where `unsigned long` has 64 bits.
pub record Context (T : Type 0) : Type 0 where
  pub field_lookup : Lookup T
  pub message_end : ℕ
  pub field_entry : Option (Entry T)
  pub state : State

pub record Decoder (T : Type 0) : Type 0 where
  pub buffer : ℕ
  pub bytes : List ℕ
  pub buffer_end : ℕ
  pub danger_zone : ℕ
  pub current : ℕ
  pub message_end : ℕ
  pub packed_end : ℕ
  pub state : List (Context T)
  pub current_state : State
  pub field_entry : Option (Entry T)
  pub field_payload : ℕ
  pub integral_number : ℕ
  pub error_message : Option String

abbrev pub word : ℕ → ℕ
word n = n % 2 ^ 64

-- `(byte & 0x7fL) << shift`
abbrev pub group : ℕ → ℕ → ℕ
group byte shift = word (bit_and byte 0x7f * 2 ^ shift)

-- fixedbytes[i] = b
abbrev pub put_byte : (i b n : ℕ) → ℕ
put_byte i b n = n % 2 ^ (8 * i) + b * 2 ^ (8 * i) + n / 2 ^ (8 * (i + 1)) * 2 ^ (8 * (i + 1))

module _ {T : Type 0} where
  -- `*p`; outside the buffer this is undefined.
  unfoldable pub load : Decoder T → ℕ → Option ℕ
  load d p = if leb d.buffer p then get_elem? d.bytes (p - d.buffer) else none

  -- The expansions of PARSE_VARINT_BYTE in `decode_varint_rest_unsafe`: `rounds` are left, from
  -- `shift` on. The result is `byte`, `decoded` and `current` at the label `done`.
  unfoldable pub parse_unsafe :
      Decoder T → (rounds shift decoded byte current : ℕ) → Option (ℕ × ℕ × ℕ)
  unfolding load
  parse_unsafe d zero shift decoded byte current = some (byte, decoded, current)
  parse_unsafe d (suc rounds) shift decoded byte current = do
    next ← load d current
    let decoded' = bit_or decoded (group next shift)
    let rest = parse_unsafe d rounds (shift + 7) decoded' next (current + 1)
    if ltb next 0x80 then some (next, decoded', current + 1) else rest

  -- The expansions in `decode_varint_safe`.
  unfoldable pub parse_safe :
      Decoder T → (rounds shift decoded byte current : ℕ) → Option (ℕ × ℕ × ℕ)
  unfolding load
  parse_safe d zero shift decoded byte current = some (byte, decoded, current)
  parse_safe d (suc rounds) shift decoded byte current = do
    next ← load d current
    let decoded' = bit_or decoded (group next shift)
    let rest = parse_safe d rounds (shift + 7) decoded' next (current + 1)
    if ltb next 0x80 || (current + 1 == d.buffer_end)
        then some (next, decoded', current + 1)
        else rest

  -- The label `done`.
  abbrev finish_varint : Decoder T → ℕ × ℕ × ℕ → Bool × Decoder T
  finish_varint d (byte, decoded, current) = (
    ltb byte 0x80 && leb current d.message_end,
    record d { integral_number = decoded; current = current },
  )

  unfoldable pub decode_varint_rest_unsafe : Decoder T → ℕ → Option (Bool × Decoder T)
  unfolding parse_unsafe
  decode_varint_rest_unsafe d first_byte = do
    parsed ← parse_unsafe d 9 7 (bit_and first_byte 0x7f) first_byte d.current
    some (finish_varint d parsed)

  unfoldable pub decode_varint_safe : Decoder T → Option (Bool × Decoder T)
  unfolding parse_safe
  decode_varint_safe d =
      if leb d.buffer_end d.current
      then some (false, d)
      else (do parsed ← parse_safe d 10 0 0 0 d.current; some (finish_varint d parsed))

  unfoldable pub decode_varint : Decoder T → Option (Bool × Decoder T)
  unfolding decode_varint_rest_unsafe decode_varint_safe load
  decode_varint d =
      if ltb d.current d.danger_zone
      then (do
        byte ← load d d.current
        let d' = record d { current = d.current + 1 }
        if ltb byte 0x80
            then some (leb d'.current d'.message_end, record d' { integral_number = byte })
            else decode_varint_rest_unsafe d' byte)
      else decode_varint_safe d

  -- `for (int i …; i < count; ++i) fixedbytes[i] = *current++`, with `count` rounds left.
  unfoldable pub copy_bytes : (count i : ℕ) → Decoder T → Option (Decoder T)
  copy_bytes zero i d = some d
  copy_bytes (suc count) i d = do
    b ← load d d.current
    copy_bytes count (i + 1)
        (record d { integral_number = put_byte i b d.integral_number; current = d.current + 1 })

  unfoldable pub decode_fixed64_unsafe : Decoder T → Option (Bool × Decoder T)
  unfolding copy_bytes
  decode_fixed64_unsafe d = do d' ← copy_bytes 8 0 d; some (leb d'.current d'.message_end, d')

  unfoldable pub decode_fixed32_unsafe : Decoder T → Option (Bool × Decoder T)
  unfolding copy_bytes
  decode_fixed32_unsafe d = do
    d' ← copy_bytes 4 0 (record d { integral_number = 0 })
    some (leb d'.current d'.message_end, d')

  unfoldable pub decode_fixed64_safe : Decoder T → Option (Bool × Decoder T)
  unfolding decode_fixed64_unsafe
  decode_fixed64_safe d =
      if ltb (word (d.buffer_end + 2 ^ 64 - 8)) d.current
      then some (false, d)
      else decode_fixed64_unsafe d

  unfoldable pub decode_fixed32_safe : Decoder T → Option (Bool × Decoder T)
  unfolding decode_fixed32_unsafe
  decode_fixed32_safe d =
      if ltb (word (d.buffer_end + 2 ^ 64 - 4)) d.current
      then some (false, d)
      else decode_fixed32_unsafe d

  unfoldable pub decode_fixed64 : Decoder T → Option (Bool × Decoder T)
  unfolding decode_fixed64_unsafe decode_fixed64_safe
  decode_fixed64 d =
      if ltb d.current d.danger_zone then decode_fixed64_unsafe d else decode_fixed64_safe d

  unfoldable pub decode_fixed32 : Decoder T → Option (Bool × Decoder T)
  unfolding decode_fixed32_unsafe decode_fixed32_safe
  decode_fixed32 d =
      if ltb d.current d.danger_zone then decode_fixed32_unsafe d else decode_fixed32_safe d
