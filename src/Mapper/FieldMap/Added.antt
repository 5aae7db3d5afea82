-- ===== src/Mapper/FieldMap/Added.antt =====
-- A field that was added to a FieldMap is found by its name and its number, and no other one is lost.
use google_protobuf_dynamic.Common.{
  ℕ, ◌<◌, ◌≡◌, ◌≢◌, refl, sym, ◌∙◌, ap, ◌⊎◌, inl, inr, ◌==◌, if◌then◌else◌, Bool-cases, true, false,
  some, List, [], ◌∷◌, arith,
}
use google_protobuf_dynamic.Pb.Descriptor.Maps.{find-assign}
use google_protobuf_dynamic.Mapper.FieldMap.{
  PerlString, FieldMapImpl, same_text, same_string, find_string, assign_string, add, find_by_name,
  find_by_number,
}

pub same_text_refl : (l : List ℕ) → same_text l l ≡ true
unfolding same_text
same_text_refl [] = refl
same_text_refl (x ∷ l) = ground (arith, same_text_refl l)

pub same_text_eq : (a b : List ℕ) → same_text a b ≡ true → a ≡ b
unfolding same_text
same_text_eq [] [] e = refl
same_text_eq [] (y ∷ b) e = cc e
same_text_eq (x ∷ a) [] e = cc e
same_text_eq (x ∷ a) (y ∷ b) e = ground (arith, e, same_text_eq a b)

not_other :
    (k key other : PerlString)
    → k.text ≡ other.text
    → same_text k.text key.text ≡ false
    → same_text key.text other.text ≡ false
not_other k key other texts different = elim (Bool-cases (same_text key.text other.text)) [
  | inl same ↦
      let same_key = texts ∙ sym (same_text_eq key.text other.text same) in
      cc (different, ap (λ t. same_text t key.text) same_key ∙ same_text_refl key.text)
  | inr other_text ↦ other_text
]

module _ (text_at : ℕ → List ℕ) where
  -- The string's characters are those at its address.
  abbrev pub IsAt : PerlString → Type 0
  IsAt s = s.text ≡ text_at s.buffer

  abbrev pub AllAt : {V : Type 0} → List (PerlString × V) → Type 0
  AllAt [] = Unit
  AllAt ((s, v) ∷ m) = IsAt s × AllAt m

  same_string-same_text :
      (a b : PerlString) → IsAt a → IsAt b → same_string a b ≡ same_text a.text b.text
  unfolding same_string
  same_string-same_text a b at_a at_b = elim (Bool-cases (a.buffer == b.buffer)) [
    | inl same ↦
        let texts : a.text ≡ b.text =
          at_a ∙ ap text_at {x = a.buffer} {y = b.buffer} (ground (arith, same)) ∙ sym at_b in
        rw (same, texts, same_text_refl b.text) refl
    | inr other ↦ rw other refl
  ]

  module _ {V : Type 0} where
    find_string-assign_string :
        (key other : PerlString) (v : V) (m : List (PerlString × V))
        → IsAt key
        → IsAt other
        → AllAt m
        → find_string other (assign_string key v m)
          ≡ (if same_text key.text other.text then some v else find_string other m)
    unfolding find_string assign_string
    find_string-assign_string key other v [] at_key at_other all =
        rw (same_string-same_text key other at_key at_other) refl
    find_string-assign_string key other v ((k, w) ∷ m) at_key at_other (at_k, all) =
        let k_key = same_string-same_text k key at_k at_key in
        let k_other = same_string-same_text k other at_k at_other in
        elim (Bool-cases (same_string k key)) [
          | inl same ↦
              let texts = same_text_eq k.text key.text (sym k_key ∙ same) in
              let others : same_string k other ≡ same_text key.text other.text =
                k_other ∙ ap (λ t. same_text t other.text) texts in
              elim (Bool-cases (same_text key.text other.text)) [
                | inl found ↦ rw (same, others, found) refl
                | inr missed ↦ rw (same, others, missed) refl
              ]
          | inr different ↦ elim (Bool-cases (same_string k other)) [
            | inl same ↦
                let texts = same_text_eq k.text other.text (sym k_other ∙ same) in
                rw (different, same, not_other k key other texts (sym k_key ∙ different)) refl
            | inr missed ↦
                rw (different, missed) (find_string-assign_string key other v m at_key at_other all)
          ]
        ]

    -- What is said of the strings by their characters, whatever their addresses.
    abbrev pub FoundByName :
        PerlString → V → (other : PerlString) → FieldMapImpl V → FieldMapImpl V → Type 0
    FoundByName key field other m m' =
        ((key.text ≡ other.text) × (find_by_name m' other ≡ some field))
        ⊎ ((key.text ≢ other.text) × (find_by_name m' other ≡ find_by_name m other))

    -- Until `optimize_lookup`, a name with the characters of the field that was added last gives that
    -- field, and any other name what it gave before; so does a number above 0. The characters of a
    -- string are those at its address, which two strings can share.
    pub find_by_name-add :
        (key other : PerlString) (number other_number : ℕ) (field : V) (m : FieldMapImpl V)
        → IsAt key
        → IsAt other
        → AllAt m.by_name
        → m.top_packed_field ≡ 0
        → 0 < other_number
        → FoundByName key field other m (add key number field m)
          × (find_by_number (add key number field m) other_number ≡ (
              if number == other_number then some (some field) else find_by_number m other_number))
    unfolding find_by_name find_by_number add
    find_by_name-add key other number other_number field m at_key at_other all fresh pos = (
      elim (Bool-cases (same_text key.text other.text)) [
        | inl same ↦ inl (
          same_text_eq key.text other.text same,
          find_string-assign_string key other field m.by_name at_key at_other all ∙ rw same refl,
        )
        | inr different ↦ inr (
          λ texts.
              cc (different, ap (λ t. same_text t other.text) texts, same_text_refl other.text),
          find_string-assign_string key other field m.by_name at_key at_other all
              ∙ rw different refl,
        )
      ],
      ground (arith, fresh, pos, find-assign other_number number field m.by_number),
    )
