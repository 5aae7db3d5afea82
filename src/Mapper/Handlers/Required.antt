-- ===== src/Mapper/Handlers/Required.antt =====
-- The check at the end of a message, `apply_defaults_and_check` of src/mapper.cpp.
use google_protobuf_dynamic.Common.{
  ℕ, zero, suc, ◌≤◌, ◌≡◌, refl, ◌∙◌, ap, if◌then◌else◌, Bool, true, false, not, ◌&&◌, Option, none,
  some, List, [], ◌∷◌, get_elem?, length, arith, >>=-elim, Bool-cases, inl, inr,
}
use mathlib.Core.Option.{some-injective}
use google_protobuf_dynamic.Mapper.Scalars.{PerlScalars, sv_ok}
use google_protobuf_dynamic.Mapper.Handlers.{
  HandlerField, HandlerMapper, DecoderHandlers, back, get_target, read_target, write_target,
  get_track_seen_fields,
}
use google_protobuf_dynamic.Mapper.Handlers.Calls.{
  PerlKeys, check_fields, apply_defaults_and_check, on_end_message,
}

-- The name of the first required field that was not seen.
abbrev pub first_missing : List HandlerField → List Bool → Option ℕ
first_missing [] seen = none
first_missing (field ∷ fields) [] = none
first_missing (field ∷ fields) (field_seen ∷ seen) =
    if not field_seen && field.required then some field.name else first_missing fields seen

abbrev pub verdict : Option ℕ → DecoderHandlers → Bool × DecoderHandlers
verdict none s = (true, s)
verdict (some name) s = (false, record s { error = some name })

if_true : {A : Type 0} {b : Bool} (x y : A) → b ≡ true → (if b then x else y) ≡ x
if_true x y e = rw e refl

module _ (table : ℕ → HandlerMapper) (perl : PerlScalars) (keys : PerlKeys) where
  check_fields-verdict :
      (m : HandlerMapper) (i : ℕ) (fields : List HandlerField) (seen : List Bool)
      (s : DecoderHandlers)
      → m.decode_explicit_defaults ≡ false
      → m.check_required_fields ≡ true
      → length fields ≤ length seen
      → check_fields table perl keys m i fields seen s
        ≡ some (verdict (first_missing fields seen) s)
  unfolding check_fields
  check_fields-verdict m i [] seen s plain checked l = refl
  check_fields-verdict m i (field ∷ fields) [] s plain checked l = absurd (omega (arith, l))
  check_fields-verdict m i (field ∷ fields) (true ∷ seen) s plain checked l =
      check_fields-verdict m (suc i) fields seen s plain checked (omega (arith, l))
  check_fields-verdict m i (field ∷ fields) (false ∷ seen) s plain checked l =
      elim (Bool-cases field.required) [
        | inl required ↦ rw (plain, checked, required) refl
        | inr optional ↦
            rw (plain, checked, optional)
              (check_fields-verdict m (suc i) fields seen s plain checked (omega (arith, l)))
      ]

  -- With required fields checked and no defaults applied, a message ends well exactly if every
  -- required field was seen; else the error names the first one that was not. Nothing else changes.
  -- The status is good, and there is a flag for every field.
  pub on_end_message-verdict :
      (m : ℕ) (seen : List Bool) (s : DecoderHandlers)
      → back s.mappers ≡ some m
      → back s.seen_fields ≡ some seen
      → s.track_seen_fields ≡ true
      → (table m).decode_explicit_defaults ≡ false
      → (table m).check_required_fields ≡ true
      → length (table m).fields ≤ length seen
      → on_end_message table perl keys true s
        ≡ some (verdict (first_missing (table m).fields seen) s)
  unfolding on_end_message apply_defaults_and_check
  on_end_message-verdict m seen s mapper row tracked plain checked l =
      if_true _ _ tracked
      ∙ rw (mapper, row)
          (if_true {b = get_track_seen_fields (table m)} _ _ (rw checked refl)
            ∙ check_fields-verdict (table m) 0 (table m).fields seen s plain checked l)

  -- Whether defaults are applied or not: when the check is true, every required field without a
  -- default was seen.
  pub check_fields-seen :
      (m : HandlerMapper) (i j : ℕ) (fields : List HandlerField) (seen : List Bool)
      (s s' : DecoderHandlers) (field : HandlerField)
      → check_fields table perl keys m i fields seen s ≡ some (true, s')
      → m.check_required_fields ≡ true
      → get_elem? fields j ≡ some field
      → field.required ≡ true
      → field.has_default ≡ false
      → get_elem? seen j ≡ some true
  unfolding check_fields
  check_fields-seen m i j [] seen s s' field e checked at_j required bare = cc at_j
  check_fields-seen m i j (f ∷ fields) [] s s' field e checked at_j required bare = cc e
  check_fields-seen m i zero (f ∷ fields) (true ∷ seen) s s' field e checked at_j required bare =
      refl
  check_fields-seen m i zero (f ∷ fields) (false ∷ seen) s s' field e checked at_j required bare =
      let is : f ≡ field = some-injective _ _ at_j in
      let needs : f.required ≡ true = ap (λ (g : HandlerField). g.required) is ∙ required in
      let has_none : f.has_default ≡ false = ap (λ (g : HandlerField). g.has_default) is ∙ bare in
      elim (Bool-cases m.decode_explicit_defaults) [
        | inl explicit ↦ cc (rw (explicit, has_none, checked, needs) at e)
        | inr plain ↦ cc (rw (plain, checked, needs) at e)
      ]
  check_fields-seen m i (suc j) (f ∷ fields) (b ∷ seen) s s' field e checked at_j required bare =
      elim (Bool-cases (not b && m.decode_explicit_defaults && f.has_default)) [
        | inl defaulted ↦ >>=-elim (get_target table i s) _ (rw defaulted at e) λ (t, s1) got e1.
            >>=-elim (read_target t s1) _ e1 λ old _ e2. elim (Bool-cases (sv_ok old)) [
              | inl present ↦
                  check_fields-seen m (suc i) j fields seen s1 s' field (rw present at e2) checked
                    at_j required bare
              | inr absent ↦ >>=-elim (write_target t _ s1) _ (rw absent at e2) λ s2 wrote e3.
                  check_fields-seen m (suc i) j fields seen s2 s' field e3 checked at_j required
                    bare
            ]
        | inr other ↦ elim (Bool-cases (not b && m.check_required_fields && f.required)) [
          | inl missing ↦ cc (rw (other, missing) at e)
          | inr fine ↦
              check_fields-seen m (suc i) j fields seen s s' field (rw (other, fine) at e) checked
                at_j required bare
        ]
      ]
