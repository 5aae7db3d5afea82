-- ===== src/Pb/Decoder/Paths.antt =====
-- decode_varint of src/pb/decoder.h: its two paths against the reference reader.
use google_protobuf_dynamic.Common.{
  ℕ, zero, suc, ◌+◌, ◌-◌, ◌*◌, ◌%◌, ◌≤◌, ◌<◌, ◌≡◌, refl, ◌∙◌, subst, bit_or, ltb, leb, ◌==◌,
  if◌then◌else◌, Bool, false, Option, none, some, List, [], ◌∷◌, ◌>>=◌, ltb→lt, length, length-drop,
  arith, Bool-cases, inl, inr,
}
use native.Mathlib.Nat.{mod-eq_of_lt}
use google_protobuf_dynamic.Common.Bits.{bit_and-seven_bits}
use google_protobuf_dynamic.Pb.Decoder.{
  Decoder, word, group, load, parse_unsafe, parse_safe, decode_varint, decode_varint_safe,
  decode_varint_rest_unsafe, finish_varint,
}
use google_protobuf_dynamic.Pb.Decoder.Frame.{reads_to}
use google_protobuf_dynamic.Pb.Decoder.Varint.{
  read_varint, weight, digit_word, digit_word_bound, Holds, Holds-load, Holds-next, IsValid, unread,
}

-- What the expansions give, for what the reference reads: the last byte, the number modulo 2 ^ 64
-- with what was decoded before, and the place behind; or a byte that asks for another.
abbrev ParsedAs : (x p : ℕ) → Option (ℕ × ℕ) → Option (ℕ × ℕ × ℕ) → Type 0
ParsedAs x p none r = (b y q : ℕ) × (128 ≤ b) × (r ≡ some (b, y, q))
ParsedAs x p (some (v, n)) r = (b : ℕ) × (b < 128) × (r ≡ some (b, word (x + v), p + n))

-- One digit more in front.
ParsedAs-digit :
    (x p y : ℕ) (o : Option (ℕ × ℕ)) (r : Option (ℕ × ℕ × ℕ))
    → ParsedAs (word (x + y)) (p + 1) o r
    → ParsedAs x p (elim o [ none ↦ none | some (v, n) ↦ some (y + v, n + 1) ]) r
ParsedAs-digit x p y none r h = h
ParsedAs-digit x p y (some (v, n)) r (b, small, e) = (b, small, e ∙ ground arith)

next_shift : (k : ℕ) → 7 * k + 7 ≡ 7 * (k + 1)
next_shift k = omega arith

-- A last byte, below 128.
last_digit :
    (k decoded b p : ℕ)
    → k < 10
    → decoded < weight k
    → b < 128
    → ParsedAs decoded p
        (some (b * weight k, 1))
        (some (b, bit_or decoded (group b (7 * k)), p + 1))
last_digit k decoded b p hk hd small =
    (b, small, rw (digit_word k decoded b hk hd, mod-eq_of_lt small))

read_varint-nothing : (rounds k : ℕ) (bs : List ℕ) → length bs ≡ 0 → read_varint rounds k bs ≡ none
unfolding read_varint
read_varint-nothing zero k bs h = refl
read_varint-nothing (suc rounds) k [] h = refl
read_varint-nothing (suc rounds) k (b ∷ bs) h = absurd (omega arith)

module _ {T : Type 0} (d : Decoder T) where
  parse_unsafe_lem :
      (rounds k decoded byte p : ℕ) (bs : List ℕ)
      → k + rounds ≡ 10
      → (0 < rounds → decoded < weight k)
      → Holds d p bs
      → rounds ≤ length bs
      → (rounds ≡ 0 → 128 ≤ byte)
      → ParsedAs decoded p (read_varint rounds k bs) (parse_unsafe d rounds (7 * k) decoded byte p)
  unfolding read_varint parse_unsafe
  parse_unsafe_lem zero k decoded byte p bs hk hd h hl hb = (byte, decoded, p, hb refl, refl)
  parse_unsafe_lem (suc rounds) k decoded byte p [] hk hd h hl hb = absurd (omega arith)
  parse_unsafe_lem (suc rounds) k decoded byte p (b ∷ bs) hk hd h hl hb =
      let lo = hd (omega arith) in
      rw (Holds-load d p b bs h) (elim (Bool-cases (ltb b 128)) [
        | inl small ↦ rw small (last_digit k decoded b p (omega arith) lo (ltb→lt b 128 small))
        | inr large ↦
            rw (large, next_shift, digit_word k decoded b (omega arith) lo)
              (ParsedAs-digit decoded p (b % 128 * weight k) (read_varint rounds (k + 1) bs) _ (
                parse_unsafe_lem rounds (k + 1) (word (decoded + b % 128 * weight k)) b (p + 1) bs
                  (omega arith) (λ m. digit_word_bound k decoded b (omega arith) lo)
                  (Holds-next d p b bs h) (omega arith) (λ e. ground (arith, large))))
      ])

  parse_safe_lem :
      (rounds k decoded byte p : ℕ) (bs : List ℕ)
      → k + rounds ≡ 10
      → (0 < rounds → decoded < weight k)
      → Holds d p bs
      → (0 < rounds → 0 < length bs)
      → (rounds ≡ 0 → 128 ≤ byte)
      → ParsedAs decoded p (read_varint rounds k bs) (parse_safe d rounds (7 * k) decoded byte p)
  unfolding read_varint parse_safe
  parse_safe_lem zero k decoded byte p bs hk hd h hl hb = (byte, decoded, p, hb refl, refl)
  parse_safe_lem (suc rounds) k decoded byte p [] hk hd h hl hb = absurd (omega arith)
  parse_safe_lem (suc rounds) k decoded byte p (b ∷ bs) hk hd h hl hb =
      let lo = hd (omega arith) in
      rw (Holds-load d p b bs h) (elim (Bool-cases (ltb b 128)) [
        | inl small ↦ rw small (last_digit k decoded b p (omega arith) lo (ltb→lt b 128 small))
        | inr large ↦ elim (Bool-cases (p + 1 == d.buffer_end)) [
          | inl at_end ↦
              rw (large, at_end, read_varint-nothing rounds (k + 1) bs (ground (arith, h.whole)))
                (b, _, _, ground (arith, large), refl)
          | inr more ↦
              rw (large, more, next_shift, digit_word k decoded b (omega arith) lo)
                (ParsedAs-digit decoded p (b % 128 * weight k) (read_varint rounds (k + 1) bs) _ (
                  parse_safe_lem rounds (k + 1) (word (decoded + b % 128 * weight k)) b (p + 1) bs
                    (omega arith) (λ m. digit_word_bound k decoded b (omega arith) lo)
                    (Holds-next d p b bs h) (λ m. ground (arith, h.whole, more))
                    (λ e. ground (arith, large))))
        ]
      ])

first_digit : (b : ℕ) → word (0 + b % 128 * weight 0) ≡ b % 128
first_digit b = omega arith

-- The outcome of `decode_varint` for what the reference reads.
abbrev pub VarintDone :
    {T : Type 0} → Decoder T → Option (ℕ × ℕ) → Option (Bool × Decoder T) → Type 0
VarintDone d none r = (x q : ℕ) × (r ≡ some (false, reads_to d x q))
VarintDone d (some (v, n)) r =
    r ≡ some (leb (d.current + n) d.message_end, reads_to d (word v) (d.current + n))

module _ {T : Type 0} (d : Decoder T) (valid : IsValid d) where
  pub unread-Holds : Holds d d.current (unread d)
  unread-Holds = record {
    above = valid.above;
    content = refl;
    whole = ground (arith, valid, length-drop (d.current - d.buffer) d.bytes);
  }

  finish-VarintDone :
      (o : Option (ℕ × ℕ)) (r : Option (ℕ × ℕ × ℕ))
      → ParsedAs 0 d.current o r
      → VarintDone d o (r >>= λ parsed. some (finish_varint d parsed))
  finish-VarintDone none r (b, y, q, large, e) = (y, q, rw e (ground arith))
  finish-VarintDone (some (v, n)) r (b, small, e) = rw e (ground arith)

  safe-VarintDone : VarintDone d (read_varint 10 0 (unread d)) (decode_varint_safe d)
  unfolding decode_varint_safe
  safe-VarintDone = elim (Bool-cases (leb d.buffer_end d.current)) [
    | inl done ↦
        rw (done, read_varint-nothing 10 0 (unread d) (ground (arith, done, unread-Holds.whole)))
          (d.integral_number, d.current, refl)
    | inr more ↦ rw more (
        finish-VarintDone _ _ (
          parse_safe_lem d 10 0 0 0 d.current (unread d) refl (λ m. omega arith) unread-Holds
            (λ m. ground (arith, more, unread-Holds.whole)) (λ e. absurd (omega arith))))
  ]

  -- The fast path, on the bytes that it is known to have.
  fast-VarintDone :
      (bs : List ℕ)
      → unread d ≡ bs
      → 10 ≤ length bs
      → VarintDone d (read_varint 10 0 bs) (
          load d d.current >>= λ byte.
          if ltb byte 0x80
          then some (leb (d.current + 1) d.message_end, reads_to d byte (d.current + 1))
          else decode_varint_rest_unsafe (record d { current = d.current + 1 }) byte)
  unfolding decode_varint_rest_unsafe read_varint
  fast-VarintDone [] e h = absurd (omega arith)
  fast-VarintDone (b ∷ bs) e h =
      let d' = record d { current = d.current + 1 } in
      let held : Holds d d.current (b ∷ bs) = subst (Holds d d.current) e unread-Holds in
      let behind = Holds-next d d.current b bs held in
      let after : Holds d' (d.current + 1) bs = record {
        above = behind.above;
        content = behind.content;
        whole = behind.whole;
      } in
      rw (Holds-load d d.current b bs held) (elim (Bool-cases (ltb b 128)) [
        | inl small ↦ rw small (ground arith)
        | inr large ↦
            rw (large, bit_and-seven_bits)
              (finish-VarintDone _ _ (
                ParsedAs-digit 0 d.current (b % 128 * weight 0) (read_varint 9 1 bs) _ (
                  rw first_digit (
                    parse_unsafe_lem d' 9 1 (b % 128) b (d.current + 1) bs refl (λ m. omega arith)
                      after (omega arith) (λ m. absurd (omega arith))))))
      ])

  -- On a valid decoder `decode_varint` reads no byte outside the buffer, and gives what the reference reader reads
  -- from `current` on: the number modulo 2 ^ 64 with `current` behind it, and `true` when it ends
  -- within the message. Where the reference reads no number of ten bytes at most, it is `false`.
  pub decode_varint-read_varint : VarintDone d (read_varint 10 0 (unread d)) (decode_varint d)
  unfolding decode_varint
  decode_varint-read_varint = elim (Bool-cases (ltb d.current d.danger_zone)) [
    | inl fast ↦
        rw fast
          (fast-VarintDone (unread d) refl (ground (arith, fast, valid.danger, unread-Holds.whole)))
    | inr slow ↦ rw slow safe-VarintDone
  ]
