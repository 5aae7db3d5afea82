-- ===== src/Mapper/Encoder/Path.antt =====
-- The path of the encoder around a message: src/mapper.cpp and mapper_context.cpp.
use google_protobuf_dynamic.Common.{
  ℕ, ◌≡◌, refl, sym, ap, subst, ◌∙◌, true, false, Option, some, List, [], ◌∷◌, ◌>>=◌, >>=-elim,
  Bool-cases, Option-cases, inl, inr, arith, replicate,
}
use mathlib.Core.Option.{some-injective}
use google_protobuf_dynamic.Mapper.Context.{
  Kind, Key, Place, Item, MapperContext, set_hash_key, set_place, push_hash_level, push_level_with,
  pop_level,
}
use google_protobuf_dynamic.Mapper.Encoder.{
  Field, EncoderState, Ended, returned, PerlApi, SinkApi, Mapper, encode_fields, with_context,
  then_continue, encode_simple_message_iterate_fields, leave_level, end_sink,
}
use google_protobuf_dynamic.Mapper.Encoder.Choice.{
  Encodes, done, key, field, encode_fields-Encodes, replicate-Matches, then_continue-elim,
  ended_state,
}

-- The levels around the innermost one.
abbrev HasOuter : List Item → MapperContext → Type 0
HasOuter rest c = (item : Item) × (c.live ≡ item ∷ rest)

tail_or_nil : List Item → List Item
tail_or_nil [] = []
tail_or_nil (item ∷ rest) = rest

moved-HasOuter :
    (change : Place → Option Place) (next_id : ℕ) (live spare rest : List Item) (c' : MapperContext)
    → HasOuter rest (record { next_id = next_id; live = live; spare = spare })
    → set_place change (record { next_id = next_id; live = live; spare = spare }) ≡ some c'
    → HasOuter rest c'
unfolding set_place tail_or_nil
moved-HasOuter change next_id [] spare rest c' (item, h) e = cc h
moved-HasOuter change next_id (x ∷ xs) spare rest c' (item, h) e =
    elim (Option-cases (change x.place)) [
      | inl fault ↦ cc (rw (fault, set_place) at e)
      | inr (place, found) ↦
          subst (HasOuter rest) (some-injective _ _ (rw (found, set_place) at e)) (
            _,
            ap (λ (r : List Item). (record x { id = next_id; place = place }) ∷ r) {x = xs}
                {y = rest} (ap tail_or_nil h),
          )
    ]

set_hash_key-HasOuter :
    (k : Key) (c c' : MapperContext) (rest : List Item)
    → HasOuter rest c
    → set_hash_key k c ≡ some c'
    → HasOuter rest c'
unfolding set_hash_key
set_hash_key-HasOuter k c c' rest o e = moved-HasOuter _ c.next_id c.live c.spare rest c' o e

pop_level-live :
    (c c' : MapperContext) (rest : List Item)
    → HasOuter rest c
    → pop_level c ≡ some c'
    → c'.live ≡ rest
unfolding pop_level
pop_level-live c c' rest (item, h) e = ground (arith, h, e)

push_hash_level-HasOuter :
    (hv : Option ℕ) (kind : Kind) (c : MapperContext) → HasOuter c.live (push_hash_level hv kind c)
unfolding push_hash_level push_level_with
push_hash_level-HasOuter hv kind c = pushed c.next_id c.live c.spare
  where
    pushed :
        (next_id : ℕ) (live spare : List Item)
        → HasOuter live
            (push_hash_level hv kind (record { next_id = next_id; live = live; spare = spare }))
    pushed next_id live [] = (_, refl)
    pushed next_id live (item ∷ spare) = (_, refl)

module _ {K V : Type 0} (perl : PerlApi V) (sink : SinkApi K) (mapper : Mapper)
    (encode_field : Field → V → EncoderState K → Option (Ended K))
    (keeps : (fd : Field) (value : V) (s s' : EncoderState K)
      → encode_field fd value s ≡ some (returned true s')
      → s'.mapper_context.live ≡ s.mapper_context.live) where
  Encodes-HasOuter :
      (rest : List Item) {l : List (Field × V)} (s s' : EncoderState K)
      → HasOuter rest s.mapper_context
      → Encodes perl sink mapper encode_field l s s'
      → HasOuter rest s'.mapper_context
  Encodes-HasOuter rest s _ o done = o
  Encodes-HasOuter rest s s' o (key {c = c} k moved more) =
      Encodes-HasOuter rest (with_context c s) s'
        (set_hash_key-HasOuter k s.mapper_context c rest o moved) more
  Encodes-HasOuter rest s s' (item, h) (field {s1 = s1} {fd = fd} {value = value} called more) =
      Encodes-HasOuter rest s1 s' (item, keeps fd value s s1 called ∙ h) more

  -- The state in which the loop begins.
  abbrev begun : (hv : ℕ) → EncoderState K → EncoderState K
  begun hv s = record s {
    sink = (sink.sink_start_message s.sink).1;
    mapper_context = push_hash_level (some hv) Kind.message s.mapper_context;
  }

  message_ended-live :
      (hv : ℕ) (hash : List (ℕ × V)) (s s' : EncoderState K)
      → (encode_fields perl sink mapper encode_field mapper.fields hash
            (replicate mapper.oneof_count false)
            (begun hv s)
          >>= λ r. then_continue r λ s''.
            leave_level perl sink mapper encode_field s''
            >>= end_sink perl sink mapper encode_field)
        ≡ some (returned true s')
      → s'.mapper_context.live ≡ s.mapper_context.live
  message_ended-live hv hash s s' e =
      >>=-elim
        (encode_fields perl sink mapper encode_field mapper.fields hash
          (replicate mapper.oneof_count false) (begun hv s))
        _ e
        λ r ran rest. then_continue-elim perl sink mapper encode_field r _ s' rest λ s1 good tail.
          >>=-elim (pop_level s1.mapper_context >>= λ c. some (with_context c s1)) _ tail
            λ s2 left ended. >>=-elim (pop_level s1.mapper_context) _ left λ c popped same.
              let outer =
                Encodes-HasOuter s.mapper_context.live (begun hv s) s1
                  (push_hash_level-HasOuter (some hv) Kind.message s.mapper_context)
                  (encode_fields-Encodes perl sink mapper encode_field mapper.fields hash
                    (replicate mapper.oneof_count false) [] (begun hv s) s1
                    (replicate-Matches mapper.oneof_count) (ran ∙ ap some good)) in
              sym (
                ap
                  (λ (f : Ended K).
                    (ended_state perl sink mapper encode_field f).mapper_context.live)
                  (some-injective _ _ ended))
              ∙ sym (ap (λ (f : EncoderState K). f.mapper_context.live) (some-injective _ _ same))
              ∙ pop_level-live s1.mapper_context c s.mapper_context.live outer popped

  -- When a message is encoded from a hash, field by field, with the result true, the path around it
  -- is as it was before, if this holds of the encoding of each field.
  pub encode_simple_message_iterate_fields-live :
      (ref : V) (s s' : EncoderState K)
      → encode_simple_message_iterate_fields perl sink mapper encode_field ref s
        ≡ some (returned true s')
      → s'.mapper_context.live ≡ s.mapper_context.live
  unfolding encode_simple_message_iterate_fields
  encode_simple_message_iterate_fields-live ref s s' e = elim (Option-cases (perl.hash_of ref)) [
    | inl scalar ↦ cc (rw (scalar, encode_simple_message_iterate_fields) at e)
    | inr ((hv, hash), is_hash) ↦
        let opened = rw (is_hash, encode_simple_message_iterate_fields) at e in
        elim (Bool-cases (sink.sink_start_message s.sink).0) [
          | inl started ↦ message_ended-live hv hash s s' (rw started at opened)
          | inr refused ↦ cc (rw refused at opened)
        ]
  ]
