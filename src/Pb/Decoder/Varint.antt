-- ===== src/Pb/Decoder/Varint.antt =====
-- decode_varint of src/pb/decoder.h, its two paths against one reference reader.
use google_protobuf_dynamic.Common.{
  ℕ, zero, suc, ◌+◌, ◌-◌, ◌*◌, ◌%◌, ◌^◌, ◌≤◌, ◌<◌, ◌≡◌, ◌∙◌, ap, subst, bit_or, ltb, if◌then◌else◌,
  Option, none, some, List, [], ◌∷◌, drop, get_elem?-drop, drop-suc, length, arith,
}
use native.Mathlib.Decide.{dec_lt}
use native.Mathlib.Numerals.{towards_suc}
use google_protobuf_dynamic.Common.Bits.{bit_or-shifted, bit_and-seven_bits}
use google_protobuf_dynamic.Pb.Decoder.{Decoder, word, group, load}

-- The reference: a number in base 128, lowest digit first. Every byte but the last has its top bit
-- set. The result is the number and its length; `none` is a number that does not end within
-- `rounds` bytes. The first byte of the list has the weight 128 ^ k.
unfoldable pub read_varint : (rounds k : ℕ) → List ℕ → Option (ℕ × ℕ)
read_varint zero k bs = none
read_varint (suc rounds) k [] = none
read_varint (suc rounds) k (b ∷ bs) =
    let rest = read_varint rounds (k + 1) bs in
    if ltb b 128
    then some (b * 2 ^ (7 * k), 1)
    else (elim rest [ none ↦ none | some (v, n) ↦ some (b % 128 * 2 ^ (7 * k) + v, n + 1) ])

abbrev pub AllBytes : List ℕ → Type 0
AllBytes [] = Unit
AllBytes (b ∷ bs) = (b < 256) × AllBytes bs

-- One round adds one digit to what is decoded, modulo 2 ^ 64.
add_digit :
    (s lo b g : ℕ)
    → word (b % 128 * 2 ^ s) ≡ g * 2 ^ s
    → lo < 2 ^ s
    → bit_or lo (group b s) ≡ lo + g * 2 ^ s
add_digit s lo b g e h =
    ap (bit_or lo) (ap (λ (t : ℕ). word (t * 2 ^ s)) (bit_and-seven_bits b) ∙ e)
    ∙ bit_or-shifted s lo g h

abbrev pub weight : ℕ → ℕ
weight k = 2 ^ (7 * k)

weight-suc : (k : ℕ) → weight (k + 1) ≡ 128 * weight k
weight-suc k =
    ap (λ (e : ℕ). 2 ^ e) {x = 7 * (k + 1)} {y = 7 * k + 7} (omega arith)
    ∙ simp towards_suc (omega arith)

weight-le : (j k : ℕ) → k + j ≡ 9 → weight k ≤ 2 ^ 63
weight-le zero k h = rw (ap weight {x = k} {y = 9} (omega arith)) (omega arith)
weight-le (suc j) k h = omega (arith, weight-le j (k + 1) (omega arith), weight-suc k)

digit_bound : (k b : ℕ) → k < 9 → b % 128 * weight k + weight k ≤ weight (k + 1)
digit_bound k b h = grind (arith, weight-suc k)

-- The digit as the code shifts it, with what is left of it in 64 bits.
digit_kept :
    (k b : ℕ)
    → k < 10
    → (g : ℕ) × (word (b % 128 * weight k) ≡ g * weight k) × (g * weight k + weight k ≤ 2 ^ 64)
digit_kept k b h = elim (dec_lt k 9) [
  | yes small ↦
      let fits = weight-le (8 - k) (k + 1) (omega arith) in
      let bound = digit_bound k b small in
      (b % 128, omega (arith, bound, fits), omega (arith, bound, fits))
  | no large ↦
      let nine : k ≡ 9 = omega arith in
      (b % 2, rw (ap weight nine) (omega arith), rw (ap weight nine) (omega arith))
]

pub digit_word :
    (k lo b : ℕ)
    → k < 10
    → lo < weight k
    → bit_or lo (group b (7 * k)) ≡ word (lo + b % 128 * weight k)
digit_word k lo b h l =
    let (g, e, fits) = digit_kept k b h in add_digit (7 * k) lo b g e l ∙ omega (arith, e, fits)

pub digit_word_bound :
    (k lo b : ℕ) → k < 9 → lo < weight k → word (lo + b % 128 * weight k) < weight (k + 1)
digit_word_bound k lo b h l = omega (arith, digit_bound k b h)

module _ {T : Type 0} (d : Decoder T) where
  -- Memory holds `bs` from `p` to the end of the buffer.
  pub record Holds (p : ℕ) (bs : List ℕ) : Type 0 where
    pub above : d.buffer ≤ p
    pub content : drop (p - d.buffer) d.bytes ≡ bs
    pub whole : p + length bs ≡ d.buffer_end

  pub Holds-load : (p b : ℕ) (bs : List ℕ) → Holds p (b ∷ bs) → load d p ≡ some b
  unfolding load
  Holds-load p b bs h = ground (arith, get_elem?-drop d.bytes (p - d.buffer) b bs)

  pub Holds-next : (p b : ℕ) (bs : List ℕ) → Holds p (b ∷ bs) → Holds (p + 1) bs
  Holds-next p b bs h = record {
    above = omega (arith, h.above);
    content =
        subst (λ (i : ℕ). drop i d.bytes ≡ bs) {x = suc (p - d.buffer)} (omega (arith, h.above))
          (drop-suc d.bytes (p - d.buffer) b bs h.content);
    whole = omega (arith, h.whole);
  }

-- What holds of a decoder that has seen no error. The buffer lies above address 10 and ends below
-- 2 ^ 64, as memory that a C++ program owns does.
pub record IsValid {T : Type 0} (d : Decoder T) : Type 0 where
  pub low : 10 ≤ d.buffer
  pub fits : d.buffer_end < 2 ^ 64
  pub ends : d.buffer_end ≡ d.buffer + length d.bytes
  pub danger : d.danger_zone + 10 ≡ d.buffer_end
  pub above : d.buffer ≤ d.current
  pub inside : d.current ≤ d.message_end
  pub nested : d.message_end ≤ d.buffer_end

-- The bytes from `current` on.
abbrev pub unread : {T : Type 0} → Decoder T → List ℕ
unread d = drop (d.current - d.buffer) d.bytes
