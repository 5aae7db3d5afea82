-- ===== src/Pb/Decoder/Frame.antt =====
-- What the reads of numbers leave alone: all but the number and the place.
use google_protobuf_dynamic.Common.{
  ℕ, zero, suc, ◌+◌, ◌≡◌, Bool, some, arith, Option-cases, inl, inr,
}
use google_protobuf_dynamic.Pb.Decoder.{
  Decoder, decode_varint, decode_varint_safe, load, copy_bytes, decode_fixed64, decode_fixed32,
}

module _ {T : Type 0} where
  abbrev pub reads_to : Decoder T → (integral_number current : ℕ) → Decoder T
  reads_to d integral_number current = record d {
    integral_number = integral_number;
    current = current;
  }

  abbrev pub Reads : Decoder T → Decoder T → Type 0
  Reads d d' = d' ≡ reads_to d d'.integral_number d'.current

  decode_varint_safe-Reads :
      (d d' : Decoder T) (ok : Bool) → decode_varint_safe d ≡ some (ok, d') → Reads d d'
  unfolding decode_varint_safe
  decode_varint_safe-Reads d d' ok e = ground arith

  pub decode_varint-Reads :
      (d d' : Decoder T) (ok : Bool) → decode_varint d ≡ some (ok, d') → Reads d d'
  unfolding decode_varint
  decode_varint-Reads d d' ok e = ground arith

  copy_bytes-Reads : (count i : ℕ) (d d' : Decoder T) → copy_bytes count i d ≡ some d' → Reads d d'
  unfolding copy_bytes
  copy_bytes-Reads zero i d d' e = ground arith
  copy_bytes-Reads (suc count) i d d' e = elim (Option-cases (load d d.current)) [
    | inl fault ↦ cc (fault, e)
    | inr (b, found) ↦ copy_bytes-Reads count (i + 1) _ d' (rw found at e)
  ]

  pub decode_fixed64-Reads :
      (d d' : Decoder T) (ok : Bool) → decode_fixed64 d ≡ some (ok, d') → Reads d d'
  unfolding decode_fixed64
  decode_fixed64-Reads d d' ok e = ground arith

  pub decode_fixed32-Reads :
      (d d' : Decoder T) (ok : Bool) → decode_fixed32 d ≡ some (ok, d') → Reads d d'
  unfolding decode_fixed32
  decode_fixed32-Reads d d' ok e = ground arith
