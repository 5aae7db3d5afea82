-- ===== src/Mapper/Handlers/Balance.antt =====
-- The vectors of Mapper::DecoderHandlers, src/mapper.cpp, as the handlers push and pop them.
use google_protobuf_dynamic.Common.{
  ℕ, ◌≡◌, refl, sym, ◌∙◌, ap, subst, Bool, true, Option, none, some, List, [], ◌∷◌, get_elem?, set,
  >>=-elim, Bool-cases, inl, inr,
}
use mathlib.Core.Option.{some-injective}
use google_protobuf_dynamic.Mapper.Scalars.{
  Sv, undef, array_ref, hash_ref, PerlScalars, new_av, new_hv,
}
use google_protobuf_dynamic.Mapper.Handlers.Calls.{
  PerlKeys, store, mark_and_store, array_in, hash_in,
}
use google_protobuf_dynamic.Mapper.Handlers.{
  HandlerField, HandlerMapper, FieldTarget, target_map_key, target_map_value, target_array_item,
  target_hash_item, sv, Target, entry, element, key, value, DecoderHandlers, back, pop_back,
  set_back, read_target, write_target, hash_at_back, array_at_back, delete_other, note_oneof,
  current_field, mark_seen, target_of, get_target, get_hash_item_target,
}

-- The vectors below their last elements are the same, and so are the mappers and the flag.
abbrev pub Framed : DecoderHandlers → DecoderHandlers → Type 0
Framed s s' =
    (s'.mappers ≡ s.mappers)
    × (s'.track_seen_fields ≡ s.track_seen_fields)
    × (pop_back s'.items ≡ pop_back s.items)
    × (pop_back s'.map_keys ≡ pop_back s.map_keys)
    × (pop_back s'.seen_fields ≡ pop_back s.seen_fields)
    × (pop_back s'.seen_oneof ≡ pop_back s.seen_oneof)

pub Framed-refl : (s : DecoderHandlers) → Framed s s
Framed-refl s = (refl, refl, refl, refl, refl, refl)

pub Framed-trans : (r s t : DecoderHandlers) → Framed r s → Framed s t → Framed r t
Framed-trans r s t (a, b, c, d, e, f) (a', b', c', d', e', f') =
    (a' ∙ a, b' ∙ b, c' ∙ c, d' ∙ d, e' ∙ e, f' ∙ f)

pub pop_back-set_back :
    {A : Type 0} (y : A) (xs ys : List A) → set_back y xs ≡ some ys → pop_back ys ≡ pop_back xs
pop_back-set_back y [] ys e = cc e
pop_back-set_back y (x ∷ xs) ys e = ap pop_back (sym (some-injective _ _ e))

pub write_target-Framed :
    (t : Target) (v : Sv) (s s' : DecoderHandlers) → write_target t v s ≡ some s' → Framed s s'
unfolding write_target
write_target-Framed (entry hash name) v s s' e =
    subst (Framed s) (some-injective _ _ e) (Framed-refl s)
write_target-Framed (element array i) v s s' e =
    subst (Framed s) (some-injective _ _ e) (Framed-refl s)
write_target-Framed key v s s' e = >>=-elim (back s.map_keys) _ e λ k _ more.
    >>=-elim (set_back (record k { key_sv = v }) s.map_keys) _ more λ ks put last.
      subst (Framed s) (some-injective _ _ last)
        (refl, refl, refl, pop_back-set_back _ _ _ put, refl, refl)
write_target-Framed value v s s' e = >>=-elim (set_back (sv v) s.items) _ e λ xs put last.
    subst (Framed s) (some-injective _ _ last)
      (refl, refl, pop_back-set_back _ _ _ put, refl, refl, refl)

note_oneof-Framed :
    (fields : List HandlerField) (oneof : Option ℕ) (index hash : ℕ) (s s' : DecoderHandlers)
    → note_oneof fields oneof index hash s ≡ some s'
    → Framed s s'
unfolding note_oneof
note_oneof-Framed fields none index hash s s' e =
    subst (Framed s) (some-injective _ _ e) (Framed-refl s)
note_oneof-Framed fields (some k) index hash s s' e = >>=-elim (back s.seen_oneof) _ e λ row _ e1.
    >>=-elim (get_elem? row k) _ e1 λ seen _ e2.
      >>=-elim (delete_other fields seen index hash s.heap) _ e2 λ h _ e3.
        >>=-elim (set_back (set row k (some index)) s.seen_oneof) _ e3 λ rows put e4.
          subst (Framed s) (some-injective _ _ e4)
            (refl, refl, refl, refl, refl, pop_back-set_back _ _ _ put)

module _ (table : ℕ → HandlerMapper) where
  pub mark_seen-Framed :
      (index : ℕ) (s s' : DecoderHandlers) → mark_seen table index s ≡ some s' → Framed s s'
  unfolding mark_seen
  mark_seen-Framed index s s' e = elim (Bool-cases s.track_seen_fields) [
    | inl tracked ↦ >>=-elim (back s.seen_fields) _ (rw tracked at e) λ seen _ e1.
        >>=-elim (get_elem? seen index) _ e1 λ b _ e2.
          >>=-elim (set_back (set seen index true) s.seen_fields) _ e2 λ rows put e3.
            subst (Framed s) (some-injective _ _ e3)
              (refl, sym tracked, refl, refl, pop_back-set_back _ _ _ put, refl)
    | inr untracked ↦
        subst (Framed s) (some-injective _ _ (rw untracked at e))
          (refl, sym untracked, refl, refl, refl, refl)
  ]

  abbrev FramedAfter : {A : Type 0} → DecoderHandlers → A × DecoderHandlers → Type 0
  FramedAfter s r = Framed s r.1

  pub framed_result :
      {A : Type 0} (s : DecoderHandlers) (r r' : A × DecoderHandlers)
      → some r ≡ some r'
      → FramedAfter s r
      → FramedAfter s r'
  framed_result s r r' e f = subst (FramedAfter s) (some-injective _ _ e) f

  target_of-Framed :
      (fields : List HandlerField) (target : FieldTarget) (oneof : Option ℕ) (name index : ℕ)
      (s : DecoderHandlers) (r : Target × DecoderHandlers)
      → target_of table fields target oneof name index s ≡ some r
      → Framed s r.1
  unfolding target_of
  target_of-Framed fields target_map_key oneof name index s r e =
      >>=-elim (back s.map_keys) _ e λ k _ e1. framed_result s (key, s) r e1 (Framed-refl s)
  target_of-Framed fields target_map_value oneof name index s r e =
      >>=-elim (set_back (sv undef) s.items) _ e λ items put e1.
        framed_result s (value, record s { items = items }) r e1
          (refl, refl, pop_back-set_back _ _ _ put, refl, refl, refl)
  target_of-Framed fields target_array_item oneof name index s r e =
      >>=-elim (array_at_back s) _ e λ a _ e1. framed_result s _ r e1 (Framed-refl s)
  target_of-Framed fields target_hash_item oneof name index s r e =
      >>=-elim (hash_at_back s) _ e λ a _ e1.
        >>=-elim (note_oneof fields oneof index a s) _ e1
          λ s1 noted e2. framed_result s _ r e2 (note_oneof-Framed fields oneof index a s s1 noted)

  pub get_target-Framed :
      (index : ℕ) (s : DecoderHandlers) (r : Target × DecoderHandlers)
      → get_target table index s ≡ some r
      → Framed s r.1
  unfolding get_target
  get_target-Framed index s r e = >>=-elim (back s.mappers) _ e λ m _ e1.
      >>=-elim (get_elem? (table m).fields index) _ e1 λ field _ e2.
        target_of-Framed (table m).fields field.field_target field.oneof_index field.name index s r
          e2

  pub get_hash_item_target-Framed :
      (index : ℕ) (s : DecoderHandlers) (r : Target × DecoderHandlers)
      → get_hash_item_target table index s ≡ some r
      → Framed s r.1
  unfolding get_hash_item_target
  get_hash_item_target-Framed index s r e =
      >>=-elim (current_field table index s) _ e λ field _ e1.
        >>=-elim (hash_at_back s) _ e1 λ a _ e2. framed_result s _ r e2 (Framed-refl s)

module _ (table : ℕ → HandlerMapper) (perl : PerlScalars) (keys : PerlKeys) where
  pub store-Framed :
      (index : ℕ) (change : Sv → Sv) (s : DecoderHandlers) (r : Bool × DecoderHandlers)
      → store table perl keys index change s ≡ some r
      → Framed s r.1
  unfolding store
  store-Framed index change s r e = >>=-elim (get_target table index s) _ e λ (target, s1) got e1.
      >>=-elim (read_target target s1) _ e1 λ old _ e2.
        >>=-elim (write_target target (change old) s1) _ e2 λ s2 wrote e3.
          framed_result table s _ r e3 (
            Framed-trans s s1 s2 (get_target-Framed table index s (target, s1) got)
              (write_target-Framed target (change old) s1 s2 wrote))

  pub mark_and_store-Framed :
      (index : ℕ) (change : Sv → Sv) (s : DecoderHandlers) (r : Bool × DecoderHandlers)
      → mark_and_store table perl keys index change s ≡ some r
      → Framed s r.1
  unfolding mark_and_store
  mark_and_store-Framed index change s r e = >>=-elim (mark_seen table index s) _ e λ s1 marked e1.
      Framed-trans s s1 r.1 (mark_seen-Framed table index s s1 marked)
        (store-Framed index change s1 r e1)

  -- A start handler leaves vectors on which the end handler finds what was below.
  pub array_in-Framed :
      (t : Target) (old : Sv) (s : DecoderHandlers) (r : ℕ × DecoderHandlers)
      → array_in table perl keys t old s ≡ some r
      → Framed s r.1
  unfolding array_in
  array_in-Framed t undef s r e =
      >>=-elim (write_target t (array_ref s.heap.next) (record s { heap = new_av s.heap })) _ e
        λ s1 wrote e1. framed_result table s _ r e1 (write_target-Framed t _ _ s1 wrote)
  array_in-Framed t (array_ref a) s r e = framed_result table s _ r e (Framed-refl s)
  array_in-Framed t _ s r e = cc e

  pub hash_in-Framed :
      (t : Target) (old : Sv) (s : DecoderHandlers) (r : ℕ × DecoderHandlers)
      → hash_in table perl keys t old s ≡ some r
      → Framed s r.1
  unfolding hash_in
  hash_in-Framed t undef s r e =
      >>=-elim (write_target t (hash_ref s.heap.next) (record s { heap = new_hv s.heap })) _ e
        λ s1 wrote e1. framed_result table s _ r e1 (write_target-Framed t _ _ s1 wrote)
  hash_in-Framed t (hash_ref a) s r e = framed_result table s _ r e (Framed-refl s)
  hash_in-Framed t _ s r e = cc e
