-- ===== src/Mapper/Encoder/Choice.antt =====
-- Which fields `encode_simple_message_iterate_fields` of src/mapper.cpp encodes.
use google_protobuf_dynamic.Common.{
  ℕ, zero, suc, ◌≡◌, ◌⊎◌, refl, sym, subst, ◌∙◌, ap, Bool, true, false, Option, none, some, List,
  [], ◌∷◌, >>=-elim, Bool-cases, Option-cases, inl, inr, if◌then◌else◌, arith, get_elem?, set,
  replicate, get_elem?-bound, get_elem?-set,
}
use mathlib.Core.Option.{some-injective}
use google_protobuf_dynamic.Common.Sorting.{contains, Distinct}
use google_protobuf_dynamic.Mapper.Context.{Key, MapperContext, set_hash_key}
use google_protobuf_dynamic.Mapper.Encoder.{
  Field, EncoderState, Ended, returned, croaked, PerlApi, SinkApi, Mapper, mark_and_maybe_skip,
  field_value, encode_fields, with_context, then_continue,
}

-- The oneofs that have a value, as a list in place of the vector.
abbrev pub is_used : Option ℕ → List ℕ → Bool
is_used none used = false
is_used (some i) used = contains i used

abbrev pub use_oneof : Option ℕ → List ℕ → List ℕ
use_oneof none used = used
use_oneof (some i) used = i ∷ used

abbrev pub Matches : List Bool → List ℕ → Type 0
Matches seen used = (i : ℕ) (b : Bool) → get_elem? seen i ≡ some b → b ≡ contains i used

pub replicate-Matches : (n : ℕ) → Matches (replicate n false) []
replicate-Matches zero i b e = cc e
replicate-Matches (suc n) zero b e = ground (arith, e)
replicate-Matches (suc n) (suc i) b e = replicate-Matches n i b e

set-Matches :
    (seen : List Bool) (used : List ℕ) (i : ℕ) (b : Bool)
    → get_elem? seen i ≡ some b
    → Matches seen used
    → Matches (set seen i true) (i ∷ used)
set-Matches seen used i b at m j c e = ground (
  arith,
  e,
  get_elem?-set seen i j true (get_elem?-bound seen i b at),
  λ (f : get_elem? seen j ≡ some c). m j c f,
)

-- What `mark_and_maybe_skip` gives for a oneof that is used or not.
abbrev Marked : Option ℕ → List ℕ → Bool × List Bool → Type 0
Marked oneof used marked =
    (marked.0 ≡ is_used oneof used)
    × Matches marked.1 (if is_used oneof used then used else use_oneof oneof used)

one-Marked :
    (i : ℕ) (seen : List Bool) (used : List ℕ) (b : Bool) (marked : Bool × List Bool)
    → contains i used ≡ b
    → get_elem? seen i ≡ some b
    → Matches seen used
    → (if b then some (true, seen) else some (false, set seen i true)) ≡ some marked
    → Marked (some i) used marked
one-Marked i seen used true marked same at m e =
    subst (Marked (some i) used) (some-injective _ _ e) (rw same (refl, m))
one-Marked i seen used false marked same at m e =
    subst (Marked (some i) used) (some-injective _ _ e)
      (rw same (refl, set-Matches seen used i false at m))

-- The vector and the list stay in step, and tell the same about a field's oneof.
mark_and_maybe_skip-Marked :
    (oneof : Option ℕ) (seen : List Bool) (used : List ℕ) (marked : Bool × List Bool)
    → Matches seen used
    → mark_and_maybe_skip oneof seen ≡ some marked
    → Marked oneof used marked
unfolding mark_and_maybe_skip
mark_and_maybe_skip-Marked none seen used marked m e =
    subst (Marked none used) (some-injective _ _ e) (refl, m)
mark_and_maybe_skip-Marked (some i) seen used marked m e =
    >>=-elim (get_elem? seen i) _ e
      λ b at rest. one-Marked i seen used b marked (sym (m i b at)) at m rest

module _ {K V : Type 0} (perl : PerlApi V) (sink : SinkApi K) (mapper : Mapper)
    (encode_field : Field → V → EncoderState K → Option (Ended K)) where
  -- The fields with a value, in their order, but of each oneof the first one only.
  unfoldable pub chosen : List Field → List (ℕ × V) → (used : List ℕ) → List (Field × V)
  chosen [] hash used = []
  chosen (field ∷ fields) hash used = elim (field_value perl sink mapper encode_field field hash) [
    | none ↦ chosen fields hash used
    | some value ↦
        if is_used field.oneof_index used
        then chosen fields hash used
        else (field, value) ∷ chosen fields hash (use_oneof field.oneof_index used)
  ]

  -- Calls of `encode_field` that are all true, on these fields and values, in this order, with
  -- keys set in the path before and between them.
  pub data Encodes : List (Field × V) → EncoderState K → EncoderState K → Type 0 where
    done : {s : EncoderState K} → Encodes [] s s
    key :
        {l : List (Field × V)} {s s' : EncoderState K} {c : MapperContext} (k : Key)
        → set_hash_key k s.mapper_context ≡ some c
        → Encodes l (with_context c s) s'
        → Encodes l s s'
    field :
        {l : List (Field × V)} {s s1 s' : EncoderState K} {fd : Field} {value : V}
        → encode_field fd value s ≡ some (returned true s1)
        → Encodes l s1 s'
        → Encodes ((fd, value) ∷ l) s s'

  pub then_continue-elim :
      {C : Type 0} (r : Ended K) (next : EncoderState K → Option (Ended K)) (s' : EncoderState K)
      → then_continue r next ≡ some (returned true s')
      → ((s1 : EncoderState K) → r ≡ returned true s1 → next s1 ≡ some (returned true s') → C)
      → C
  then_continue-elim (returned true s) next s' e k = k s refl e
  then_continue-elim (returned false s) next s' e k = cc e
  then_continue-elim (croaked s) next s' e k = cc e

  abbrev pub ended_state : Ended K → EncoderState K
  ended_state (returned ok s) = s
  ended_state (croaked s) = s

  pub encode_fields-Encodes :
      (fields : List Field) (hash : List (ℕ × V)) (seen : List Bool) (used : List ℕ)
      → (s s' : EncoderState K) → Matches seen used
      → encode_fields perl sink mapper encode_field fields hash seen s ≡ some (returned true s')
      → Encodes (chosen fields hash used) s s'
  unfolding encode_fields chosen
  encode_fields-Encodes [] hash seen used s s' m e =
      subst (Encodes [] s) {x = s} {y = s'} (ap ended_state (some-injective _ _ e)) done
  encode_fields-Encodes (fd ∷ fields) hash seen used s s' m e =
      >>=-elim (set_hash_key (Key.svkey fd.name) s.mapper_context) _ e λ c moved more.
        key (Key.svkey fd.name) moved
          (elim (Option-cases (field_value perl sink mapper encode_field fd hash)) [
            | inl missing ↦ elim (Bool-cases fd.required) [
              | inl needed ↦ cc (rw (missing, needed) at more)
              | inr optional ↦
                  rw (missing, chosen)
                    (encode_fields-Encodes fields hash seen used _ s' m
                      (rw (missing, optional) at more))
            ]
            | inr (value, found) ↦
                >>=-elim (mark_and_maybe_skip fd.oneof_index seen) _ (rw found at more)
                  λ marked taken rest.
                    let told = mark_and_maybe_skip-Marked fd.oneof_index seen used marked m taken in
                    elim (Bool-cases (is_used fd.oneof_index used)) [
                      | inl before ↦
                          rw (found, before, chosen)
                            (encode_fields-Encodes fields hash marked.1 used _ s'
                              (rw before at told.1) (rw (told.0, before) at rest))
                      | inr first ↦
                          >>=-elim (encode_field fd value _) _ (rw (told.0, first) at rest)
                            λ r called last. then_continue-elim r _ s' last λ s1 good tail.
                              rw (found, first, chosen)
                                (field (called ∙ ap some good) (
                                  encode_fields-Encodes fields hash marked.1
                                    (use_oneof fd.oneof_index used) s1 s' (rw first at told.1)
                                    tail))
                    ]
          ])

  -- The oneofs of a choice of fields.
  abbrev pub oneofs : List (Field × V) → List ℕ
  oneofs [] = []
  oneofs ((fd, value) ∷ l) = elim fd.oneof_index [ none ↦ oneofs l | some i ↦ i ∷ oneofs l ]

  -- Every required field of the list has a value.
  unfoldable pub HasRequired : List Field → List (ℕ × V) → Type 0
  HasRequired [] hash = Unit
  HasRequired (fd ∷ fields) hash =
      ((fd.required ≡ false)
        ⊎ ((value : V) × (field_value perl sink mapper encode_field fd hash ≡ some value)))
      × HasRequired fields hash

  encode_fields-HasRequired :
      (fields : List Field) (hash : List (ℕ × V)) (seen : List Bool) (s s' : EncoderState K)
      → encode_fields perl sink mapper encode_field fields hash seen s ≡ some (returned true s')
      → HasRequired fields hash
  unfolding encode_fields HasRequired
  encode_fields-HasRequired [] hash seen s s' e = tt
  encode_fields-HasRequired (fd ∷ fields) hash seen s s' e =
      >>=-elim (set_hash_key (Key.svkey fd.name) s.mapper_context) _ e λ c _ more.
        elim (Option-cases (field_value perl sink mapper encode_field fd hash)) [
          | inl missing ↦ elim (Bool-cases fd.required) [
            | inl needed ↦ cc (rw (missing, needed) at more)
            | inr optional ↦ (
              inl optional,
              encode_fields-HasRequired fields hash seen _ s' (rw (missing, optional) at more),
            )
          ]
          | inr (value, found) ↦
              >>=-elim (mark_and_maybe_skip fd.oneof_index seen) _ (rw found at more)
                λ marked _ rest. (
                  inr (value, found),
                  elim (Bool-cases marked.0) [
                    | inl skip ↦
                        encode_fields-HasRequired fields hash marked.1 _ s' (rw skip at rest)
                    | inr go ↦ >>=-elim (encode_field fd value _) _ (rw go at rest) λ r _ last.
                        then_continue-elim r _ s' last
                          λ s1 _ tail. encode_fields-HasRequired fields hash marked.1 s1 s' tail
                  ],
                )
        ]

  contains-oneofs :
      (fields : List Field) (hash : List (ℕ × V)) (used : List ℕ) (i : ℕ)
      → contains i used ≡ true
      → contains i (oneofs (chosen fields hash used)) ≡ false
  unfolding chosen
  contains-oneofs [] hash used i h = refl
  contains-oneofs (fd ∷ fields) hash used i h =
      elim (Option-cases (field_value perl sink mapper encode_field fd hash)) [
        | inl missing ↦ rw (missing, chosen) (contains-oneofs fields hash used i h)
        | inr (value, found) ↦ elim (Option-cases fd.oneof_index) [
          | inl free ↦ rw (found, chosen, free) (contains-oneofs fields hash used i h)
          | inr (j, grouped) ↦ elim (Bool-cases (contains j used)) [
            | inl before ↦
                rw (found, chosen, grouped, before) (contains-oneofs fields hash used i h)
            | inr first ↦
                rw (found, chosen, grouped, first)
                  (ground (arith, h, first, contains-oneofs fields hash (j ∷ used) i))
          ]
        ]
      ]

  oneofs-Distinct :
      (fields : List Field) (hash : List (ℕ × V)) (used : List ℕ)
      → Distinct (oneofs (chosen fields hash used))
  unfolding chosen
  oneofs-Distinct [] hash used = tt
  oneofs-Distinct (fd ∷ fields) hash used =
      elim (Option-cases (field_value perl sink mapper encode_field fd hash)) [
        | inl missing ↦ rw (missing, chosen) (oneofs-Distinct fields hash used)
        | inr (value, found) ↦ elim (Option-cases fd.oneof_index) [
          | inl free ↦ rw (found, chosen, free) (oneofs-Distinct fields hash used)
          | inr (j, grouped) ↦ elim (Bool-cases (contains j used)) [
            | inl before ↦ rw (found, chosen, grouped, before) (oneofs-Distinct fields hash used)
            | inr first ↦
                rw (found, chosen, grouped, first)
                  (
                    contains-oneofs fields hash (j ∷ used) j (ground arith),
                    oneofs-Distinct fields hash (j ∷ used),
                  )
          ]
        ]
      ]

  -- When the loop over the fields is true, it has called `encode_field` exactly for the fields
  -- with a value, in their order, but once at most for each oneof, for the first field of it that has
  -- a value; and every required field has a value.
  pub encode_fields-chosen :
      (fields : List Field) (hash : List (ℕ × V)) (oneof_count : ℕ) (s s' : EncoderState K)
      → encode_fields perl sink mapper encode_field fields hash (replicate oneof_count false) s
        ≡ some (returned true s')
      → Encodes (chosen fields hash []) s s'
        × Distinct (oneofs (chosen fields hash []))
        × HasRequired fields hash
  encode_fields-chosen fields hash oneof_count s s' e = (
    encode_fields-Encodes fields hash (replicate oneof_count false) [] s s'
        (replicate-Matches oneof_count) e,
    oneofs-Distinct fields hash [],
    encode_fields-HasRequired fields hash (replicate oneof_count false) s s' e,
  )
