-- ===== src/Mapper/Encoder/Required.antt =====
-- The required fields of a message that is encoded in the order of its hash, src/mapper.cpp.
use google_protobuf_dynamic.Common.{
  ℕ, zero, suc, ◌≡◌, ◌⊎◌, sym, ap, subst, ◌∙◌, Bool, true, false, not, ◌&&◌, Option, some, List, [],
  ◌∷◌, ◌>>=◌, >>=-elim, Bool-cases, Option-cases, inl, inr, arith, ◌==◌, get_elem?, get_elem?-set,
  get_elem?-bound, ==_iff, replicate, length,
}
use mathlib.Core.Option.{some-injective}
use google_protobuf_dynamic.Mapper.Context.{set_hash_key}
use google_protobuf_dynamic.Mapper.Encoder.{
  Field, EncoderState, Ended, returned, croaked, PerlApi, SinkApi, Mapper, mark_and_maybe_skip,
  mark, perform_check, encode_entries, then_continue_with, then_continue, new_track_seen,
  required_fields_present, leave_level, end_sink, encode_simple_message_iterate_hash,
}
use google_protobuf_dynamic.Mapper.Encoder.Choice.{then_continue-elim}

module _ {K V : Type 0} (perl : PerlApi V) (sink : SinkApi K) (mapper : Mapper)
    (encode_field : Field → V → EncoderState K → Option (Ended K))
    (unknown_field : V → EncoderState K → EncoderState K) where
  -- The hash has an entry for the field of this index.
  pub data Gives (i : ℕ) : List (ℕ × V) → Type 0 where
    here :
        {name : ℕ} {value : V} {l : List (ℕ × V)} (fd : Field)
        → mapper.field_by_name name ≡ some fd
        → fd.field_index ≡ i
        → Gives i ((name, value) ∷ l)
    there : {e : ℕ × V} {l : List (ℕ × V)} → Gives i l → Gives i (e ∷ l)

  further :
      {A : Type 0} {i : ℕ} {e : ℕ × V} {l : List (ℕ × V)} → A ⊎ Gives i l → A ⊎ Gives i (e ∷ l)
  further (inl a) = inl a
  further (inr g) = inr (there g)

  then_continue_with-elim :
      {C : Type 0} (r : Ended K) (seen : List Bool)
      → (next : EncoderState K → Option (Ended K × List Bool)) (s' : EncoderState K)
        (seen' : List Bool)
      → then_continue_with r seen next ≡ some (returned true s', seen')
      → ((s1 : EncoderState K) → next s1 ≡ some (returned true s', seen') → C)
      → C
  then_continue_with-elim (returned true s) seen next s' seen' e k = k s e
  then_continue_with-elim (returned false s) seen next s' seen' e k = cc e
  then_continue_with-elim (croaked s) seen next s' seen' e k = cc e

  mark-seen :
      (index i : ℕ) (seen seen1 : List Bool)
      → mark true index seen ≡ some seen1
      → get_elem? seen1 i ≡ some true
      → (get_elem? seen i ≡ some true) ⊎ (index ≡ i)
  unfolding mark
  mark-seen index i seen seen1 e h = >>=-elim (get_elem? seen index) _ e λ b at rest.
      let same = get_elem?-set seen index i true (get_elem?-bound seen index b at) in
      let there1 =
        subst (λ (l : List Bool). get_elem? l i ≡ some true) (sym (some-injective _ _ rest)) h in
      elim (Bool-cases (index == i)) [
        | inl equal ↦ inr ((==_iff index i).0 equal)
        | inr other ↦ inl (rw other at (sym same ∙ there1))
      ]

  encode_entries-Gives :
      (i : ℕ) (entries : List (ℕ × V)) (oneofs seen seen' : List Bool) (s s' : EncoderState K)
      → mapper.check_required_fields ≡ true
      → encode_entries perl sink mapper encode_field unknown_field entries oneofs seen s
        ≡ some (returned true s', seen')
      → get_elem? seen' i ≡ some true
      → (get_elem? seen i ≡ some true) ⊎ Gives i entries
  unfolding encode_entries
  encode_entries-Gives i [] oneofs seen seen' s s' check e h = inl (
      subst (λ (l : List Bool). get_elem? l i ≡ some true)
        (sym (ap (λ (r : Ended K × List Bool). r.1) (some-injective _ _ e))) h)
  encode_entries-Gives i ((name, value) ∷ entries) oneofs seen seen' s s' check e h =
      >>=-elim (set_hash_key (perl.entry_key name) s.mapper_context) _ e λ c _ more.
        elim (Option-cases (mapper.field_by_name name)) [
          | inl unknown ↦
              further
                (encode_entries-Gives i entries oneofs seen seen' _ s' check (rw unknown at more) h)
          | inr (fd, found) ↦
              elim (Bool-cases (mapper.ignore_undef_fields && not (perl.sv_ok value))) [
                | inl ignored ↦ further (
                    encode_entries-Gives i entries oneofs seen seen' _ s' check
                      (rw (found, ignored) at more) h)
                | inr kept ↦
                    >>=-elim (mark_and_maybe_skip fd.oneof_index oneofs) _
                      (rw (found, kept) at more)
                      λ marked _ rest. elim (Bool-cases marked.0) [
                        | inl skip ↦ further (
                            encode_entries-Gives i entries marked.1 seen seen' _ s' check
                              (rw skip at rest) h)
                        | inr go ↦
                            >>=-elim (mark mapper.check_required_fields fd.field_index seen) _
                              (rw go at rest)
                              λ seen1 noted last.
                                >>=-elim (encode_field fd value _) _ last λ r _ ended.
                                  then_continue_with-elim r seen1 _ s' seen' ended λ s1 tail.
                                    elim (encode_entries-Gives i entries marked.1 seen1 seen' s1 s'
                                      check tail h) [
                                        | inr later ↦ inr (there later)
                                        | inl now ↦
                                            elim (mark-seen fd.field_index i seen seen1
                                              (rw check at noted) now) [
                                                | inl before ↦ inl before
                                                | inr this ↦ inr (here fd found this)
                                              ]
                                      ]
                      ]
              ]
        ]

  perform_check-seen :
      (fields : List Field) (seen : List Bool) (s s' : EncoderState K) (i : ℕ) (fd : Field)
      → perform_check fields seen s ≡ some (returned true s')
      → get_elem? fields i ≡ some fd
      → fd.required ≡ true
      → get_elem? seen i ≡ some true
  unfolding perform_check
  perform_check-seen [] seen s s' i fd e at needed = cc at
  perform_check-seen (f ∷ fields) [] s s' i fd e at needed = cc e
  perform_check-seen (f ∷ fields) (b ∷ seen) s s' zero fd e at needed =
      ground (arith, e, at, needed)
  perform_check-seen (f ∷ fields) (b ∷ seen) s s' (suc i) fd e at needed =
      elim (Bool-cases (not b && f.required)) [
        | inl missing ↦ cc (rw (missing, perform_check) at e)
        | inr fine ↦
            perform_check-seen fields seen s s' i fd (rw (fine, perform_check) at e) at needed
      ]

  nothing_seen : {C : Type 0} (n i : ℕ) → get_elem? (replicate n false) i ≡ some true → C
  nothing_seen zero i e = cc e
  nothing_seen (suc n) zero e = absurd (ground (arith, e))
  nothing_seen (suc n) (suc i) e = nothing_seen n i e

  loop_required :
      (hash : List (ℕ × V)) (s s' : EncoderState K) (i : ℕ) (fd : Field)
      → mapper.check_required_fields ≡ true
      → get_elem? mapper.fields i ≡ some fd
      → fd.required ≡ true
      → (encode_entries perl sink mapper encode_field unknown_field hash
            (replicate mapper.oneof_count false)
            (new_track_seen mapper.check_required_fields mapper.fields)
            s
          >>= λ ended. then_continue ended.0 λ s''.
            required_fields_present mapper.check_required_fields mapper.fields ended.1 s'' >>= λ r.
            then_continue r λ s3.
              leave_level perl sink mapper encode_field s3
              >>= end_sink perl sink mapper encode_field)
        ≡ some (returned true s')
      → Gives i hash
  unfolding required_fields_present new_track_seen
  loop_required hash s s' i fd check at needed e =
      >>=-elim
        (encode_entries perl sink mapper encode_field unknown_field hash
          (replicate mapper.oneof_count false)
          (new_track_seen mapper.check_required_fields mapper.fields) s)
        _ e
        λ (r, seen) ran rest.
          then_continue-elim perl sink mapper encode_field r _ s' rest λ s1 good more.
            >>=-elim (required_fields_present mapper.check_required_fields mapper.fields seen s1) _
              more
              λ r2 checked last.
                then_continue-elim perl sink mapper encode_field r2 _ s' last λ s2 fine _.
                  let whole =
                    perform_check-seen mapper.fields seen s1 s2 i fd
                      ((rw check at checked) ∙ ap some fine) at needed in
                  elim (encode_entries-Gives i hash (replicate mapper.oneof_count false)
                    (new_track_seen mapper.check_required_fields mapper.fields) seen s s1 check
                    (ran ∙ ap (λ (x : Ended K). some (x, seen)) good) whole) [
                      | inl before ↦ nothing_seen (length mapper.fields) i (rw check at before)
                      | inr given ↦ given
                    ]

  -- When a message is encoded in the order of its hash with the result true, and required fields are
  -- checked, the hash has an entry for every required field of the mapper.
  pub encode_simple_message_iterate_hash-Gives :
      (ref : V) (hv : ℕ) (hash : List (ℕ × V)) (s s' : EncoderState K) (i : ℕ) (fd : Field)
      → mapper.check_required_fields ≡ true
      → get_elem? mapper.fields i ≡ some fd
      → fd.required ≡ true
      → perl.hash_of ref ≡ some (hv, hash)
      → encode_simple_message_iterate_hash perl sink mapper encode_field unknown_field ref s
        ≡ some (returned true s')
      → Gives i hash
  unfolding encode_simple_message_iterate_hash
  encode_simple_message_iterate_hash-Gives ref hv hash s s' i fd check at needed is_hash e =
      let opened = rw (is_hash, encode_simple_message_iterate_hash) at e in
      elim (Bool-cases (sink.sink_start_message s.sink).0) [
        | inl started ↦ loop_required hash _ s' i fd check at needed (rw started at opened)
        | inr refused ↦ cc (rw refused at opened)
      ]
