-- ===== src/Mapper/Encoder/Scalars/Arrays.antt =====
-- Arrays of scalars in src/mapper.cpp: what `encode_from_array` hands to the sink, and the path.
use google_protobuf_dynamic.Common.{
  ℕ, suc, ◌+◌, ◌%◌, ◌^◌, ◌≡◌, refl, sym, ◌∙◌, ap, Bool, true, false, Option, none, some, List, [],
  ◌∷◌, ◌++◌, ◌>>=◌, ◌⊎◌, Bool-cases, inl, inr,
}
use google_protobuf_dynamic.Mapper.Context.{
  MapperContext, Item, array_item, push_array_level, push_level_with, set_array_index, set_place,
  next_after, pop_level,
}
use google_protobuf_dynamic.Mapper.Scalars.{Sv, PerlScalars}
use google_protobuf_dynamic.Mapper.Encoder.{EncoderState, with_context}
use google_protobuf_dynamic.Mapper.Encoder.Scalars.{
  SinkCall, start_sequence, end_sequence, ScalarField, EncoderApi, CheckOptions, emit,
  unless_coerced, go_on_if, encode_item, encode_items, encode_from_array, encode_scalar_array,
}
use google_protobuf_dynamic.Mapper.Encoder.Scalars.Calls.{
  IsScalar, value_calls, items_calls, array_calls, send, IsValue, AreValues, sent, emit-sent,
  Setter, Sets, item_setter-Sets, resumed, resumed-send,
}

-- The elements of an array that were all written.
abbrev pub written : List Sv → List (Option Sv)
written [] = []
written (v ∷ items) = some v ∷ written items

-- The innermost level of the path is that of an array, above the given levels.
abbrev AtArray : MapperContext → List Item → Type 0
AtArray c levels =
    (item : Item) × (av : ℕ) × (index : Option ℕ) × (c.live ≡ item ∷ levels)
    × (item.place ≡ array_item av index)

pushed :
    (av next_id : ℕ) (live spare : List Item)
    → AtArray (push_array_level av (record { next_id = next_id; live = live; spare = spare })) live
unfolding push_array_level push_level_with
pushed av next_id live [] = (_, av, none, refl, refl)
pushed av next_id live (item ∷ spare) = (_, av, none, refl, refl)

push_array_level-AtArray : (av : ℕ) (c : MapperContext) → AtArray (push_array_level av c) c.live
push_array_level-AtArray av c = pushed av c.next_id c.live c.spare

set_array_index-AtArray :
    (index : ℕ) (c : MapperContext) (levels : List Item)
    → AtArray c levels
    → (c' : MapperContext) × (set_array_index index c ≡ some c') × AtArray c' levels
unfolding set_array_index set_place next_after
set_array_index-AtArray index c levels (item, av, i, live, place) =
    let item' = record item { id = c.next_id; place = array_item av (some index) } in
    (
      record c { next_id = (c.next_id + 1) % 2 ^ 32; live = item' ∷ levels },
      rw (live, place) refl,
      (item', av, some index, refl, refl),
    )

pop_level-AtArray :
    (c : MapperContext) (levels : List Item)
    → AtArray c levels
    → (c' : MapperContext) × (pop_level c ≡ some c') × (c'.live ≡ levels)
unfolding pop_level
pop_level-AtArray c levels (item, av, i, live, place) =
    (record c { live = levels; spare = item ∷ c.spare }, rw live refl, refl)

module _ {K : Type 0} (perl : PerlScalars) (api : EncoderApi K) (options : CheckOptions) where
  resumed_on :
      (r : Bool × K) (more : List SinkCall)
      → r.0 ≡ true
      → resumed perl api options r more ≡ send perl api options more r.1
  resumed_on (true, k) more ok = refl
  resumed_on (false, k) more ok = cc ok

  resumed_off :
      (r : Bool × K) (more : List SinkCall)
      → r.0 ≡ false
      → resumed perl api options r more ≡ (false, r.1)
  resumed_off (true, k) more failed = cc failed
  resumed_off (false, k) more failed = refl

  -- The result and the sink are those of the calls; if all went well the path is as `Q` says.
  abbrev Makes : Option (Bool × EncoderState K) → Bool × K → (MapperContext → Type 0) → Type 0
  Makes result done Q =
      (r : Bool × EncoderState K) × (result ≡ some r)
      × ((r.0, r.1.sink) ≡ done)
      × (r.0 ≡ true → Q r.1.mapper_context)

  encode_item-sent :
      (setter : Setter perl api options) (fd : ScalarField) (v : Sv) (s : EncoderState K)
      → Sets perl api options setter fd.value_action
      → IsValue perl api options fd v
      → encode_item perl api options setter fd (some v) s
        ≡ sent perl api options (value_calls perl api options fd.value_action fd v) s
  unfolding encode_item unless_coerced
  encode_item-sent setter fd v s sets is_value = rw is_value.0 (sets fd v s is_value.1)

  encode_items-Makes :
      (setter : Setter perl api options) (fd : ScalarField) (index : ℕ) (items : List Sv)
      (s : EncoderState K) (levels : List Item)
      → Sets perl api options setter fd.value_action
      → AreValues perl api options fd items
      → AtArray s.mapper_context levels
      → Makes
          (encode_items perl api options setter fd index (written items) s)
          (send perl api options (items_calls perl api options fd items) s.sink)
          (λ c. AtArray c levels)
  unfolding encode_items
  encode_items-Makes setter fd index [] s levels sets values at = (_, refl, refl, λ ok. at)
  encode_items-Makes setter fd index (v ∷ items) s levels sets (is_value, values) at =
      let (c, set, at') = set_array_index-AtArray index s.mapper_context levels at in
      let calls = value_calls perl api options fd.value_action fd v in
      let more = items_calls perl api options fd items in
      elim (Bool-cases (send perl api options calls s.sink).0) [
        | inl ok ↦
            let (r, e, done, path) =
              encode_items-Makes setter fd (suc index) items
                (sent perl api options calls (with_context c s)).1 levels sets values at' in
            (
              r,
              rw (set, encode_item-sent setter fd v (with_context c s) sets is_value, ok) e,
              rw (resumed-send perl api options calls more s.sink)
                  (done ∙ sym (resumed_on _ more ok)),
              path,
            )
        | inr failed ↦ (
          (false, (sent perl api options calls (with_context c s)).1),
          rw (set, encode_item-sent setter fd v (with_context c s) sets is_value, failed) refl,
          rw (resumed-send perl api options calls more s.sink) (sym (resumed_off _ more failed)),
          λ ok. cc ok,
        )
      ]

  end_array-Makes :
      (fd : ScalarField) (result : Option (Bool × EncoderState K)) (r : Bool × EncoderState K)
      (calls : List SinkCall) (k : K) (levels : List Item)
      → result ≡ some r
      → (r.0, r.1.sink) ≡ send perl api options calls k
      → (r.0 ≡ true → AtArray r.1.mapper_context levels)
      → Makes
          (result >>= λ r'. go_on_if perl api options r' λ s. pop_level s.mapper_context >>= λ c.
            some (emit perl api options (end_sequence fd.seq_end) (with_context c s)))
          (send perl api options (calls ++ (end_sequence fd.seq_end ∷ [])) k)
          (λ c. c.live ≡ levels)
  end_array-Makes fd result (true, s) calls k levels e done at =
      let (c, popped, live) = pop_level-AtArray s.mapper_context levels (at refl) in
      let last = end_sequence fd.seq_end ∷ [] in
      (
        emit perl api options (end_sequence fd.seq_end) (with_context c s),
        rw (e, popped) refl,
        ap (λ (r : Bool × EncoderState K). (r.0, r.1.sink))
              (emit-sent perl api options (end_sequence fd.seq_end) (with_context c s) refl)
            ∙ sym (
                resumed-send perl api options calls last k
                ∙ ap (λ r. resumed perl api options r last) (sym done)),
        λ ok. live,
      )
  end_array-Makes fd result (false, s) calls k levels e done at =
      let last = end_sequence fd.seq_end ∷ [] in
      (
        (false, s),
        rw e refl,
        sym (
            resumed-send perl api options calls last k
            ∙ ap (λ r. resumed perl api options r last) (sym done)),
        λ ok. cc ok,
      )

  encode_from_array-Makes :
      (setter : Setter perl api options) (fd : ScalarField) (source : ℕ) (items : List Sv)
      (s : EncoderState K)
      → Sets perl api options setter fd.value_action
      → AreValues perl api options fd items
      → Makes
          (encode_from_array perl api options setter fd source (written items) s)
          (send perl api options (array_calls perl api options fd items) s.sink)
          (λ c. c.live ≡ s.mapper_context.live)
  unfolding encode_from_array
  encode_from_array-Makes setter fd source [] s sets values = (_, refl, refl, λ ok. refl)
  encode_from_array-Makes setter fd source (v ∷ items) s sets values =
      elim (Bool-cases (api.call (start_sequence fd.seq_start) s.sink).0) [
        | inl started ↦
            let k = (api.call (start_sequence fd.seq_start) s.sink).1 in
            let calls = items_calls perl api options fd (v ∷ items) in
            let context = push_array_level source s.mapper_context in
            let (r, e, done, at) =
              encode_items-Makes setter fd 0 (v ∷ items)
                (record s { sink = k; mapper_context = context }) s.mapper_context.live sets values
                (push_array_level-AtArray source s.mapper_context) in
            rw started (end_array-Makes fd _ r calls k s.mapper_context.live e done at)
        | inr failed ↦ (
          (false, record s { sink = (api.call (start_sequence fd.seq_start) s.sink).1 }),
          rw failed refl,
          rw failed refl,
          λ ok. refl,
        )
      ]

  -- The same for the end of the array, where the path is as it was unless the result is false.
  abbrev pub Made : Option (Bool × EncoderState K) → Bool × K → (levels : List Item) → Type 0
  Made result done levels =
      (r : Bool × EncoderState K) × (result ≡ some r)
      × ((r.0, r.1.sink) ≡ done)
      × ((r.0 ≡ false) ⊎ (r.1.mapper_context.live ≡ levels))

  Makes-Made :
      (result : Option (Bool × EncoderState K)) (done : Bool × K) (levels : List Item)
      → Makes result done (λ c. c.live ≡ levels)
      → Made result done levels
  Makes-Made result done levels (r, e, calls, path) = elim (Bool-cases r.0) [
    | inl ok ↦ (r, e, calls, inr (path ok))
    | inr failed ↦ (r, e, calls, inl failed)
  ]

  -- For an array of values that were all written and can be encoded, `encode_from_perl_array` makes the
  -- calls of `array_calls` in their order up to the first that fails, none for an empty array; its result
  -- is false, or the path is as it was.
  pub encode_scalar_array-Made :
      (fd : ScalarField) (source : ℕ) (items : List Sv) (s : EncoderState K)
      → IsScalar fd.value_action
      → AreValues perl api options fd items
      → Made
          (encode_scalar_array perl api options fd source (written items) s)
          (send perl api options (array_calls perl api options fd items) s.sink)
          s.mapper_context.live
  unfolding encode_scalar_array
  encode_scalar_array-Made fd source items s is_scalar values =
      let (setter, e, sets) = item_setter-Sets perl api options fd.value_action is_scalar in
      rw (e, encode_scalar_array)
        (Makes-Made _ _ _ (encode_from_array-Makes setter fd source items s sets values))
