-- ===== src/Mapper/Handlers/Texts.antt =====
-- A text that src/mapper.cpp gets in several pieces.
use google_protobuf_dynamic.Common.{
  ℕ, ◌≡◌, refl, sym, ◌∙◌, ap, subst, Bool, ◌||◌, Option, none, some, List, [], ◌∷◌, ◌++◌, ◌>>=◌,
  get_elem?, set, arith, >>=-elim, get_elem?-set_self, get_elem?-bound,
}
use mathlib.Core.Option.{some-injective}
use mathlib.Core.List.{append-nil, append_assoc}
use google_protobuf_dynamic.Pb.Descriptor.{assign}
use google_protobuf_dynamic.Pb.Descriptor.Maps.{find-assign}
use google_protobuf_dynamic.Mapper.Scalars.{Sv, pv, PerlScalars, update_same}
use google_protobuf_dynamic.Mapper.Handlers.{
  HandlerField, HandlerMapper, sv, Target, entry, element, key, value, DecoderHandlers, back,
  set_back, read_target, write_target, current_field, mark_seen, get_target,
}
use google_protobuf_dynamic.Mapper.Handlers.Calls.{
  PerlKeys, utf8_flag, on_start_string, on_append_string, on_end_string, is_string_type,
}

set_back-read : {A : Type 0} (y : A) (xs ys : List A) → set_back y xs ≡ some ys → back ys ≡ some y
set_back-read y [] ys e = cc e
set_back-read y (x ∷ xs) ys e = ap back (sym (some-injective _ _ e))

-- A write to a scalar that is there is read back, and changes neither the mappers nor `string`.
abbrev Wrote : Target → Sv → DecoderHandlers → DecoderHandlers → Type 0
Wrote t v s s' = (read_target t s' ≡ some v) × (s'.mappers ≡ s.mappers) × (s'.string ≡ s.string)

read_target-write_target :
    (t : Target) (old v : Sv) (s s' : DecoderHandlers)
    → read_target t s ≡ some old
    → write_target t v s ≡ some s'
    → Wrote t v s s'
unfolding read_target write_target
read_target-write_target (entry hash name) old v s s' there e =
    subst (Wrote (entry hash name) v s) (some-injective _ _ e) (
      rw (update_same s.heap.hashes hash (assign name v (s.heap.hashes hash)))
          (ground (arith, find-assign name name v (s.heap.hashes hash))),
      refl,
      refl,
    )
read_target-write_target (element array i) old v s s' there e =
    >>=-elim (get_elem? (s.heap.arrays array) i) _ there λ o at_i _.
      subst (Wrote (element array i) v s) (some-injective _ _ e) (
        rw
            (
              update_same s.heap.arrays array (set (s.heap.arrays array) i (some v)),
              get_elem?-set_self (s.heap.arrays array) i (some v)
                  (get_elem?-bound (s.heap.arrays array) i o at_i),
            )
            refl,
        refl,
        refl,
      )
read_target-write_target key old v s s' there e = >>=-elim (back s.map_keys) _ e λ k _ e1.
    >>=-elim (set_back (record k { key_sv = v }) s.map_keys) _ e1 λ ks put e2.
      subst (Wrote key v s) (some-injective _ _ e2)
        (rw (set_back-read _ s.map_keys ks put) refl, refl, refl)
read_target-write_target value old v s s' there e =
    >>=-elim (set_back (sv v) s.items) _ e λ items put e1.
      subst (Wrote value v s) (some-injective _ _ e1)
        (rw (set_back-read _ s.items items put) refl, refl, refl)

abbrev concat : List (List ℕ) → List ℕ
concat [] = []
concat (buf ∷ bufs) = buf ++ concat bufs

module _ (table : ℕ → HandlerMapper) (perl : PerlScalars) (keys : PerlKeys) where
  -- The calls for the pieces of a text.
  abbrev pub append_all : List (List ℕ) → DecoderHandlers → Option DecoderHandlers
  append_all [] s = some s
  append_all (buf ∷ bufs) s = on_append_string table perl keys buf s >>= append_all bufs

  appended-Wrote :
      (buf : List ℕ) (t : Target) (text : List ℕ) (flag : Bool) (s s' : DecoderHandlers)
      → s.string ≡ some t
      → read_target t s ≡ some (pv text flag)
      → on_append_string table perl keys buf s ≡ some s'
      → Wrote t (pv (text ++ buf) flag) s s'
  unfolding on_append_string
  appended-Wrote buf t text flag s s' string there e = >>=-elim s.string _ e λ t' is e1.
      >>=-elim (read_target t s) _ (rw (some-injective _ _ (sym is ∙ string)) at e1) λ old was e2.
        read_target-write_target t (pv text flag) (pv (text ++ buf) flag) s s' there
          (rw (some-injective _ _ (sym was ∙ there)) at e2)

  append_all-concat :
      (bufs : List (List ℕ)) (t : Target) (text : List ℕ) (flag : Bool) (s s' : DecoderHandlers)
      → s.string ≡ some t
      → read_target t s ≡ some (pv text flag)
      → append_all bufs s ≡ some s'
      → Wrote t (pv (text ++ concat bufs) flag) s s'
  unfolding on_append_string
  append_all-concat [] t text flag s s' string there e =
      subst (Wrote t (pv (text ++ []) flag) s) (some-injective _ _ e)
        (there ∙ ap (λ l. some (pv l flag)) (sym (append-nil text)), refl, refl)
  append_all-concat (buf ∷ bufs) t text flag s s' string there e =
      >>=-elim (on_append_string table perl keys buf s) _ e λ s1 appended rest.
        let (now, mappers, same) = appended-Wrote buf t text flag s s1 string there appended in
        let (last, mappers', same') =
          append_all-concat bufs t (text ++ buf) flag s1 s' (same ∙ string) now rest in
        (
          subst (λ (l : List ℕ). read_target t s' ≡ some (pv l flag))
              (append_assoc text buf (concat bufs)) last,
          mappers' ∙ mappers,
          same' ∙ same,
        )

  read_target-string :
      (t : Target) (o : Option Target) (s : DecoderHandlers)
      → read_target t (record s { string = o }) ≡ read_target t s
  unfolding read_target
  read_target-string (entry hash name) o s = refl
  read_target-string (element array i) o s = refl
  read_target-string key o s = refl
  read_target-string value o s = refl

  -- What is in the scalar that `string` refers to.
  abbrev pub Holds : (text : List ℕ) (flag : Bool) → Target → DecoderHandlers → Type 0
  Holds text flag t s = (s.string ≡ some t) × (read_target t s ≡ some (pv text flag))

  -- The target of the field when the text starts, and what it holds then.
  abbrev pub Starts : (index : ℕ) → Target → (old : Sv) → DecoderHandlers → Type 0
  Starts index t old s =
      (a : DecoderHandlers) × (b : DecoderHandlers) × (mark_seen table index s ≡ some a)
      × (get_target table index a ≡ some (t, b))
      × (read_target t b ≡ some old)

  on_start_string-Holds :
      (index : ℕ) (s s1 : DecoderHandlers)
      → on_start_string table perl keys index s ≡ some s1
      → (t : Target) × (old : Sv) × Starts index t old s × Holds [] (utf8_flag old) t s1
  unfolding on_start_string
  on_start_string-Holds index s s1 start = >>=-elim (mark_seen table index s) _ start λ a marked e1.
      >>=-elim (get_target table index a) _ e1 λ (t, b) got e2.
        >>=-elim (read_target t b) _ e2 λ old was e3.
          >>=-elim (write_target t (pv [] (utf8_flag old)) b) _ e3 λ c wrote e4.
            let (now, _, _) =
              read_target-write_target t old (pv [] (utf8_flag old)) b c was wrote in
            (
              t,
              old,
              (a, b, marked, got, was),
              subst (Holds [] (utf8_flag old) t) (some-injective _ _ e4)
                  (refl, read_target-string t (some t) c ∙ now),
            )

  end-Holds :
      (text : List ℕ) (flag : Bool) (index : ℕ) (t : Target) (field : HandlerField)
      (s s' : DecoderHandlers) (ok : Bool)
      → Holds text flag t s
      → current_field table index s ≡ some field
      → on_end_string table perl keys index s ≡ some (ok, s')
      → read_target t s' ≡ some (pv text (flag || is_string_type table perl keys field.type))
  unfolding on_end_string
  end-Holds text flag index t field s s' ok (string, there) its e =
      >>=-elim s.string _ (rw its at e) λ t' is e1.
        >>=-elim (read_target t s) _ (rw (some-injective _ _ (sym is ∙ string)) at e1) λ old was e2.
          >>=-elim (write_target t (pv text (flag || is_string_type table perl keys field.type)) s)
            _ (rw (some-injective _ _ (sym was ∙ there)) at e2)
            λ b wrote e3.
              let (now, _, _) = read_target-write_target t (pv text flag) _ s b there wrote in
              subst
                (λ (r : Bool × DecoderHandlers).
                  read_target t r.1
                  ≡ some (pv text (flag || is_string_type table perl keys field.type)))
                (some-injective _ _ e3) (read_target-string t none b ∙ now)

  -- A text in pieces: after its start, any pieces and its end, the target of the field has the pieces
  -- one after the other, as UTF-8 exactly if the field is a string, or if what the target held when the
  -- text started was marked so.
  pub on_end_string-concat :
      (index : ℕ) (bufs : List (List ℕ)) (field : HandlerField) (s s1 s2 s3 : DecoderHandlers)
      (ok : Bool)
      → on_start_string table perl keys index s ≡ some s1
      → append_all bufs s1 ≡ some s2
      → on_end_string table perl keys index s2 ≡ some (ok, s3)
      → current_field table index s1 ≡ some field
      → (t : Target) × (old : Sv) × Starts index t old s
        × (s1.string ≡ some t)
        × (read_target t s3
            ≡ some (pv (concat bufs) (utf8_flag old || is_string_type table perl keys field.type)))
  unfolding current_field
  on_end_string-concat index bufs field s s1 s2 s3 ok start pieces end its =
      let (t, old, starts, holds) = on_start_string-Holds index s s1 start in
      let (last, mappers, same) =
        append_all-concat bufs t [] (utf8_flag old) s1 s2 (holds.0) (holds.1) pieces in
      (
        t,
        old,
        starts,
        holds.0,
        end-Holds (concat bufs) (utf8_flag old) index t field s2 s3 ok (same ∙ holds.0, last)
            (rw (mappers, current_field) its) end,
      )
