-- ===== src/Mapper/Handlers/Ends.antt =====
-- The starts and ends of lists, maps and messages among the handlers of src/mapper.cpp.
use google_protobuf_dynamic.Common.{
  ℕ, ◌≡◌, refl, sym, ◌∙◌, ap, subst, ◌==◌, if◌then◌else◌, Bool, true, false, none, some, List, [],
  ◌∷◌, >>=-elim,
}
use mathlib.Core.Option.{some-injective}
use google_protobuf_dynamic.Mapper.Visitor.{on_start_sub_message, on_start_sequence, on_start_map}
use google_protobuf_dynamic.Mapper.Scalars.{undef, PerlScalars}
use google_protobuf_dynamic.Mapper.Handlers.{
  HandlerMapper, av, hv, null, DecoderHandlers, back, pop_back, read_target, current_field,
  mark_seen, get_target, get_hash_item_target, push_mapper, pop_mapper, get_track_seen_fields,
}
use google_protobuf_dynamic.Mapper.Handlers.Calls as Calls
use google_protobuf_dynamic.Mapper.Handlers.Calls.{
  PerlKeys, store, mark_and_store, array_in, hash_in, store_entry, map_items, check_fields,
  apply_defaults_and_check, entry_value,
}
use google_protobuf_dynamic.Mapper.Handlers.Dispatch.{handle, state_of}
use google_protobuf_dynamic.Mapper.Handlers.Leaves.{state_of-elim}
use google_protobuf_dynamic.Mapper.Handlers.Balance.{
  Framed, Framed-trans, mark_seen-Framed, get_target-Framed, array_in-Framed, hash_in-Framed,
  get_hash_item_target-Framed,
}

module _ (table : ℕ → HandlerMapper) (perl : PerlScalars) (keys : PerlKeys)
    (bytes_at : (buffer len : ℕ) → List ℕ) where
  -- The flag is the one of the mapper at the back.
  abbrev pub Tracked : DecoderHandlers → Type 0
  Tracked s =
      (m : ℕ) → back s.mappers ≡ some m → s.track_seen_fields ≡ get_track_seen_fields (table m)

  pub Framed-Tracked : (s s' : DecoderHandlers) → Framed s s' → Tracked s → Tracked s'
  Framed-Tracked s s' f t m e = f.1 ∙ t m (ap back (sym f.0) ∙ e)

  pub sequence_end-Framed :
      (a : ℕ) (s s2 s3 : DecoderHandlers)
      → Framed (Calls.push_items table perl keys (av a ∷ []) s) s2
      → state_of (Calls.on_end_sequence table perl keys s2) ≡ some s3
      → Framed s s3
  unfolding Calls.on_end_sequence Calls.push_items
  sequence_end-Framed a s s2 s3 f e =
      subst (Framed s) (some-injective _ _ (rw (f.2) at e)) (f.0, f.1, refl, f.3, f.4, f.5)

  pop_mapper-outer :
      (m : ℕ) (outers : List ℕ) (s s1 : DecoderHandlers)
      → s.mappers ≡ m ∷ outers
      → pop_mapper table s ≡ some s1
      → (outer : ℕ) × (back outers ≡ some outer)
        × (s1 ≡ record s {
          mappers = outers;
          track_seen_fields = get_track_seen_fields (table outer);
        })
  unfolding pop_mapper
  pop_mapper-outer m outers s s1 e popped =
      >>=-elim (back outers) _ (rw e at popped)
        λ outer there rest. (outer, there, sym (some-injective _ _ rest))

  -- A vector to which a row was pushed, or not, has its old rows when one is popped, or not.
  restored :
      {A : Type 0} (pushed : Bool) (row : A) (old now after : List A)
      → (if pushed then pop_back now else some now) ≡ some after
      → pop_back now ≡ pop_back (if pushed then row ∷ old else old)
      → pop_back after ≡ pop_back old
  restored true row old now after e f = ap pop_back (some-injective _ _ (sym e ∙ f))
  restored false row old now after e f = ap pop_back (sym (some-injective _ _ e)) ∙ f

  kept_or_restored :
      {A : Type 0} (kept : Bool) (row : A) (old now after : List A)
      → (if kept then some now else pop_back now) ≡ some after
      → pop_back now ≡ pop_back (if kept then old else row ∷ old)
      → pop_back after ≡ pop_back old
  kept_or_restored true row old now after e f = ap pop_back (sym (some-injective _ _ e)) ∙ f
  kept_or_restored false row old now after e f = ap pop_back (some-injective _ _ (sym e ∙ f))

  abbrev state_in : Bool × DecoderHandlers → DecoderHandlers
  state_in r = r.1

  pub map_end-Framed :
      (m a : ℕ) (s s2 s3 : DecoderHandlers)
      → Tracked s
      → Framed
          (record (Calls.push_items table perl keys (null ∷ hv a ∷ []) (push_mapper table m s)) {
            map_keys = (record { key_sv = undef; key_buffer = none }) ∷ s.map_keys;
          })
          s2
      → state_of (Calls.on_end_map table perl keys s2) ≡ some s3
      → Framed s s3
  unfolding Calls.on_end_map Calls.push_items push_mapper pop_mapper
  map_end-Framed m a s s2 s3 tracked f e = state_of-elim _ s3 e λ ok e1.
      >>=-elim (pop_mapper table s2) _ e1 λ s1 popped e2.
        let (outer, there, same) = pop_mapper-outer m s.mappers s2 s1 f.0 popped in
        subst (Framed s) (ap state_in (some-injective _ _ (rw (f.2, f.3) at rw same at e2)))
          (refl, sym (tracked outer there), refl, refl, f.4, f.5)

  pub sub_message_end-Framed :
      (m a : ℕ) (s s2 s3 : DecoderHandlers)
      → Tracked s
      → Framed
          (Calls.push_seen table perl keys
            (table m)
            (push_mapper table m (Calls.push_items table perl keys (hv a ∷ []) s)))
          s2
      → state_of (Calls.on_end_sub_message table perl keys s2) ≡ some s3
      → Framed s s3
  unfolding Calls.on_end_sub_message Calls.push_items push_mapper pop_mapper
  sub_message_end-Framed m a s s2 s3 tracked f e = state_of-elim _ s3 e λ ok e1.
      >>=-elim (back s2.mappers) _ e1 λ m2 current e2.
        >>=-elim
          (if (table m2).oneof_count == 0 then some s2.seen_oneof else pop_back s2.seen_oneof) _ e2
          λ seen_oneof oneofs e3.
            >>=-elim (if s2.track_seen_fields then pop_back s2.seen_fields else some s2.seen_fields)
              _ e3
              λ seen_fields fields e4.
                let s4 : DecoderHandlers = record s2 {
                  seen_oneof = seen_oneof;
                  seen_fields = seen_fields;
                } in
                >>=-elim (pop_mapper table s4) _ e4 λ s1 popped e5.
                  let (outer, there, same) = pop_mapper-outer m s.mappers s4 s1 f.0 popped in
                  let is_m : m2 ≡ m = some-injective _ _ (sym current ∙ ap back (f.0)) in
                  subst (Framed s) (ap state_in (some-injective _ _ (rw (f.2) at rw same at e5))) (
                    refl,
                    sym (tracked outer there),
                    refl,
                    f.3,
                    restored (get_track_seen_fields (table m)) _ s.seen_fields s2.seen_fields
                        seen_fields (rw (f.1) at fields) f.4,
                    kept_or_restored ((table m).oneof_count == 0) _ s.seen_oneof s2.seen_oneof
                        seen_oneof (rw is_m at oneofs) f.5,
                  )

  -- What a start handler leaves, over a state with the frame of the one before it.
  pub sequence-started :
      (i : ℕ) (s s1 : DecoderHandlers)
      → handle table perl keys bytes_at (on_start_sequence i) s ≡ some s1
      → (x : ℕ) × (c : DecoderHandlers) × Framed s c
        × (Calls.push_items table perl keys (av x ∷ []) c ≡ s1)
  unfolding handle Calls.on_start_sequence
  sequence-started i s s1 e = >>=-elim (mark_seen table i s) _ e λ a marked e1.
      >>=-elim (get_hash_item_target table i a) _ e1 λ (t, b) got e2.
        >>=-elim (read_target t b) _ e2 λ old _ e3.
          >>=-elim (array_in table perl keys t old b) _ e3 λ (x, c) made e4. (
            x,
            c,
            Framed-trans s a c (mark_seen-Framed table i s a marked) (
                Framed-trans a b c (get_hash_item_target-Framed table i a (t, b) got)
                  (array_in-Framed table perl keys t old b (x, c) made)),
            some-injective _ _ e4,
          )

  abbrev pub in_map : (m x : ℕ) → DecoderHandlers → DecoderHandlers
  in_map m x c =
      record (Calls.push_items table perl keys (null ∷ hv x ∷ []) (push_mapper table m c)) {
        map_keys = (record { key_sv = undef; key_buffer = none }) ∷ c.map_keys;
      }

  pub entries-started :
      (i : ℕ) (s s1 : DecoderHandlers)
      → handle table perl keys bytes_at (on_start_map i) s ≡ some s1
      → (m x : ℕ) × (c : DecoderHandlers) × Framed s c × (in_map m x c ≡ s1)
  unfolding handle Calls.on_start_map push_mapper
  entries-started i s s1 e = >>=-elim (mark_seen table i s) _ e λ a marked e1.
      >>=-elim (current_field table i a) _ e1 λ field _ e2.
        >>=-elim (get_hash_item_target table i a) _ e2 λ (t, b) got e3.
          >>=-elim (read_target t b) _ e3 λ old _ e4.
            >>=-elim (hash_in table perl keys t old b) _ e4 λ (x, c) made e5. (
              field.mapper,
              x,
              c,
              Framed-trans s a c (mark_seen-Framed table i s a marked) (
                  Framed-trans a b c (get_hash_item_target-Framed table i a (t, b) got)
                    (hash_in-Framed table perl keys t old b (x, c) made)),
              some-injective _ _ e5,
            )

  abbrev pub in_sub_message : (m x : ℕ) → DecoderHandlers → DecoderHandlers
  in_sub_message m x c =
      Calls.push_seen table perl keys (table m)
        (push_mapper table m (Calls.push_items table perl keys (hv x ∷ []) c))

  pub sub_message-started :
      (i : ℕ) (s s1 : DecoderHandlers)
      → handle table perl keys bytes_at (on_start_sub_message i) s ≡ some s1
      → (m x : ℕ) × (c : DecoderHandlers) × Framed s c × (in_sub_message m x c ≡ s1)
  unfolding handle Calls.on_start_sub_message
  sub_message-started i s s1 e = >>=-elim (mark_seen table i s) _ e λ a marked e1.
      >>=-elim (current_field table i a) _ e1 λ field _ e2.
        >>=-elim (get_target table i a) _ e2 λ (t, b) got e3.
          >>=-elim (read_target t b) _ e3 λ old _ e4.
            >>=-elim (hash_in table perl keys t old b) _ e4 λ (x, c) made e5. (
              field.mapper,
              x,
              c,
              Framed-trans s a c (mark_seen-Framed table i s a marked) (
                  Framed-trans a b c (get_target-Framed table i a (t, b) got)
                    (hash_in-Framed table perl keys t old b (x, c) made)),
              some-injective _ _ e5,
            )

  -- The new mapper is the last one, and the flag is its flag.
  pushed-Tracked : (m : ℕ) (c : DecoderHandlers) → Tracked (push_mapper table m c)
  unfolding push_mapper
  pushed-Tracked m c n e = ap (λ k. get_track_seen_fields (table k)) (some-injective _ _ e)

  pub in_map-Tracked : (m x : ℕ) (c : DecoderHandlers) → Tracked (in_map m x c)
  unfolding Calls.push_items
  in_map-Tracked m x c = pushed-Tracked m c

  pub in_sub_message-Tracked : (m x : ℕ) (c : DecoderHandlers) → Tracked (in_sub_message m x c)
  unfolding push_mapper
  in_sub_message-Tracked m x c n e =
      ap (λ k. get_track_seen_fields (table k)) (some-injective _ _ e)

  pub in_sequence-Tracked :
      (x : ℕ) (c : DecoderHandlers)
      → Tracked c
      → Tracked (Calls.push_items table perl keys (av x ∷ []) c)
  unfolding Calls.push_items
  in_sequence-Tracked x c t = t
