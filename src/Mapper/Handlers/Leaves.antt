-- ===== src/Mapper/Handlers/Leaves.antt =====
-- The handlers of src/mapper.cpp that neither start nor end a message, a list or a map leave the
-- vectors as they are below their last elements.
use google_protobuf_dynamic.Common.{
  ℕ, suc, ◌≡◌, refl, sym, ap, subst, if◌then◌else◌, Bool, true, false, not, ◌&&◌, ◌||◌, Option,
  none, some, List, [], ◌∷◌, ◌>>=◌, get_elem?, set, ltb, leb, ◌^◌, ◌-◌, >>=-elim, Bool-cases, inl,
  inr,
}
use mathlib.Core.Option.{some-injective}
use google_protobuf_dynamic.Common.Sorting.{contains}
use google_protobuf_dynamic.Mapper.Visitor.{
  Call, on_nv, on_nv_float, on_iv, on_uv, on_bigiv, on_biguv, on_enum, on_perl_bool,
  on_numeric_bool, on_json_bool, on_string, on_string_key, on_start_sub_message, on_end_sub_message,
  on_start_sequence, on_end_sequence, on_start_map, on_end_map, on_end_map_entry,
  on_end_string_map_entry,
}
use google_protobuf_dynamic.Mapper.Scalars.{Sv, undef, iv, sv_ok, PerlScalars}
use google_protobuf_dynamic.Mapper.Handlers.{
  HandlerField, HandlerMapper, Item, av, hv, sv, null, DecoderHandlers, Handled, back, pop_back,
  set_back, read_target, write_target, current_field, get_target, get_track_seen_fields,
}
use google_protobuf_dynamic.Mapper.Handlers.Calls as Calls
use google_protobuf_dynamic.Mapper.Handlers.Calls.{
  PerlKeys, store, mark_and_store, array_in, hash_in, store_entry, map_items, check_fields,
  apply_defaults_and_check, entry_value,
}
use google_protobuf_dynamic.Mapper.Handlers.Dispatch.{handle, state_of}
use google_protobuf_dynamic.Mapper.Handlers.Balance.{
  Framed, Framed-refl, Framed-trans, pop_back-set_back, framed_result, store-Framed,
  mark_and_store-Framed, get_target-Framed, write_target-Framed,
}

-- A call that neither starts nor ends a message, a list or a map.
abbrev pub is_leaf : Call → Bool
is_leaf (on_start_sub_message i) = false
is_leaf (on_end_sub_message i) = false
is_leaf (on_start_sequence i) = false
is_leaf (on_end_sequence i) = false
is_leaf (on_start_map i) = false
is_leaf (on_end_map i) = false
is_leaf _ = true

pub state_of-elim :
    {C : Type 0} (r : Handled Bool) (s' : DecoderHandlers)
    → state_of r ≡ some s'
    → ((ok : Bool) → r ≡ some (ok, s') → C)
    → C
state_of-elim none s' e k = cc e
state_of-elim (some (ok, s)) s' e k = k ok (ap (λ x. some (ok, x)) (some-injective _ _ e))

module _ (table : ℕ → HandlerMapper) (perl : PerlScalars) (keys : PerlKeys)
    (bytes_at : (buffer len : ℕ) → List ℕ) where
  stored-Framed :
      (index : ℕ) (change : Sv → Sv) (s s' : DecoderHandlers)
      → state_of (mark_and_store table perl keys index change s) ≡ some s'
      → Framed s s'
  stored-Framed index change s s' e =
      state_of-elim _ s' e λ ok f. mark_and_store-Framed table perl keys index change s (ok, s') f

  entry_stored-Framed :
      (key : Option ℕ) (hash : ℕ) (item : Item) (s s' : DecoderHandlers)
      → store_entry table perl keys key hash item s ≡ some s'
      → Framed s s'
  unfolding store_entry
  entry_stored-Framed none hash item s s' e =
      subst (Framed s) (some-injective _ _ e) (Framed-refl s)
  entry_stored-Framed (some key) hash item s s' e =
      >>=-elim (entry_value table perl keys s item) _ e
        λ v _ e1. subst (Framed s) (some-injective _ _ e1) (Framed-refl s)

  map_items-pop_back :
      (items : List Item) (r : ℕ × Item × List Item)
      → map_items table perl keys items ≡ some r
      → pop_back items ≡ some (hv r.0 ∷ r.2)
  unfolding map_items
  map_items-pop_back [] r e = cc e
  map_items-pop_back (x ∷ []) r e = cc e
  map_items-pop_back (x ∷ hv a ∷ rest) r e = ap (λ q. some (hv q.0 ∷ q.2)) (some-injective _ _ e)
  map_items-pop_back (x ∷ _ ∷ rest) r e = cc e

  check_fields-Framed :
      (m : HandlerMapper) (i : ℕ) (fields : List HandlerField) (seen : List Bool)
      (s : DecoderHandlers) (r : Bool × DecoderHandlers)
      → check_fields table perl keys m i fields seen s ≡ some r
      → Framed s r.1
  unfolding check_fields
  check_fields-Framed m i [] seen s r e = framed_result table s _ r e (Framed-refl s)
  check_fields-Framed m i (field ∷ fields) [] s r e = cc e
  check_fields-Framed m i (field ∷ fields) (field_seen ∷ seen) s r e =
      elim (Bool-cases (not field_seen && m.decode_explicit_defaults && field.has_default)) [
        | inl defaulted ↦ >>=-elim (get_target table i s) _ (rw defaulted at e) λ (t, s1) got e1.
            >>=-elim (read_target t s1) _ e1 λ old _ e2. elim (Bool-cases (sv_ok old)) [
              | inl present ↦
                  Framed-trans s s1 r.1 (get_target-Framed table i s (t, s1) got)
                    (check_fields-Framed m (suc i) fields seen s1 r (rw present at e2))
              | inr absent ↦ >>=-elim (write_target t _ s1) _ (rw absent at e2) λ s2 wrote e3.
                  Framed-trans s s1 r.1 (get_target-Framed table i s (t, s1) got) (
                    Framed-trans s1 s2 r.1 (write_target-Framed t _ s1 s2 wrote)
                      (check_fields-Framed m (suc i) fields seen s2 r e3))
            ]
        | inr other ↦
            elim (Bool-cases (not field_seen && m.check_required_fields && field.required)) [
              | inl missing ↦ framed_result table s _ r (rw (other, missing) at e) (Framed-refl s)
              | inr fine ↦ check_fields-Framed m (suc i) fields seen s r (rw (other, fine) at e)
            ]
      ]

  entry_reset :
      (s : DecoderHandlers) (seen_fields : List (List Bool))
      → (if s.track_seen_fields
          then (back s.seen_fields >>= λ seen.
              get_elem? seen 1 >>= λ b. set_back (set seen 1 false) s.seen_fields)
          else some s.seen_fields)
        ≡ some seen_fields
      → pop_back seen_fields ≡ pop_back s.seen_fields
  entry_reset s seen_fields e = elim (Bool-cases s.track_seen_fields) [
    | inl tracked ↦
        >>=-elim (back s.seen_fields) _ (rw tracked at e)
          λ seen _ e1. >>=-elim (get_elem? seen 1) _ e1 λ b _ e2. pop_back-set_back _ _ _ e2
    | inr untracked ↦ ap pop_back (sym (some-injective _ _ (rw untracked at e)))
  ]

  on_end_map_entry-Framed :
      (s : DecoderHandlers) (r : Bool × DecoderHandlers)
      → Calls.on_end_map_entry table perl keys s ≡ some r
      → Framed s r.1
  unfolding Calls.on_end_map_entry
  on_end_map_entry-Framed s r e =
      >>=-elim (map_items table perl keys s.items) _ e λ (hash, value, rest) split e1.
        >>=-elim (back s.map_keys) _ e1 λ k _ e2.
          let key : Option ℕ = if sv_ok k.key_sv then some (keys.key_of_sv k.key_sv) else none in
          >>=-elim (store_entry table perl keys key hash value s) _ e2 λ s1 stored e3.
            >>=-elim (set_back (record k { key_sv = undef }) s.map_keys) _ e3 λ map_keys put e4.
              >>=-elim _ _ e4 λ seen_fields reset e5.
                let f = entry_stored-Framed key hash value s s1 stored in
                framed_result table s _ r e5 (
                  f.0,
                  f.1,
                  sym (map_items-pop_back s.items (hash, value, rest) split),
                  pop_back-set_back _ _ _ put,
                  entry_reset s seen_fields reset,
                  f.5,
                )

  on_end_string_map_entry-Framed :
      (s : DecoderHandlers) (r : Bool × DecoderHandlers)
      → Calls.on_end_string_map_entry table perl keys s ≡ some r
      → Framed s r.1
  unfolding Calls.on_end_string_map_entry
  on_end_string_map_entry-Framed s r e =
      >>=-elim (map_items table perl keys s.items) _ e λ (hash, value, rest) split e1.
        >>=-elim (back s.map_keys) _ e1 λ k _ e2.
          >>=-elim
            (store_entry table perl keys (k.key_buffer >>= λ buf. some (keys.key_of_text buf)) hash
              value s)
            _ e2
            λ s1 stored e3.
              >>=-elim (set_back (record k { key_buffer = none }) s.map_keys) _ e3
                λ map_keys put e4.
                  let f =
                    entry_stored-Framed (k.key_buffer >>= λ buf. some (keys.key_of_text buf)) hash
                      value s s1 stored in
                  framed_result table s _ r e4 (
                    f.0,
                    f.1,
                    sym (map_items-pop_back s.items _ split),
                    pop_back-set_back _ _ _ put,
                    f.4,
                    f.5,
                  )

  checked-Framed :
      (tracked : Bool) (s : DecoderHandlers) (r : Bool × DecoderHandlers)
      → (if tracked then apply_defaults_and_check table perl keys s else some (true, s)) ≡ some r
      → Framed s r.1
  unfolding apply_defaults_and_check
  checked-Framed false s r e = framed_result table s (true, s) r e (Framed-refl s)
  checked-Framed true s r e = >>=-elim (back s.mappers) _ e λ m _ e1.
      elim (Bool-cases (get_track_seen_fields (table m))) [
        | inl checked ↦
            >>=-elim (back s.seen_fields) _ (rw checked at e1)
              λ seen _ e2. check_fields-Framed (table m) 0 (table m).fields seen s r e2
        | inr unchecked ↦ framed_result table s (true, s) r (rw unchecked at e1) (Framed-refl s)
      ]

  pub on_end_message-Framed :
      (s : DecoderHandlers) (r : Bool × DecoderHandlers)
      → Calls.on_end_message table perl keys true s ≡ some r
      → Framed s r.1
  unfolding Calls.on_end_message
  on_end_message-Framed s r e = checked-Framed s.track_seen_fields s r e

  enum_dropped-Framed :
      (item : Item) (index val : ℕ) (s : DecoderHandlers) (r : Bool × DecoderHandlers)
      → (elim item as (λ x. Handled Bool) [
        | av a ↦ store table perl keys index (λ old. iv val) s
        | null ↦ none
        | hv a ↦ some (true, s)
        | sv v ↦ some (true, s)
      ])
        ≡ some r
      → Framed s r.1
  enum_dropped-Framed (av a) index val s r e = store-Framed table perl keys index _ s r e
  enum_dropped-Framed null index val s r e = cc e
  enum_dropped-Framed (hv a) index val s r e = framed_result table s _ r e (Framed-refl s)
  enum_dropped-Framed (sv v) index val s r e = framed_result table s _ r e (Framed-refl s)

  on_enum-Framed :
      (index val : ℕ) (s : DecoderHandlers) (r : Bool × DecoderHandlers)
      → Calls.on_enum table perl keys index val s ≡ some r
      → Framed s r.1
  unfolding Calls.on_enum
  on_enum-Framed index val s r e = >>=-elim (current_field table index s) _ e λ field _ e1.
      elim (Bool-cases (contains val field.enum_values)) [
        | inl known ↦ mark_and_store-Framed table perl keys index _ s r (rw known at e1)
        | inr unknown ↦
            >>=-elim (back s.items) _ (rw unknown at e1)
              λ item _ e2. enum_dropped-Framed item index field.defaults.default_int32 s r e2
      ]

  pub handle-Framed :
      (c : Call) (s s' : DecoderHandlers)
      → is_leaf c ≡ true
      → handle table perl keys bytes_at c s ≡ some s'
      → Framed s s'
  unfolding handle Calls.on_nv Calls.on_iv Calls.on_uv Calls.on_bigiv Calls.on_biguv
      Calls.on_perl_bool Calls.on_numeric_bool Calls.on_json_bool Calls.on_string
      Calls.on_string_key
  handle-Framed (on_nv i v) s s' l e = stored-Framed i _ s s' e
  handle-Framed (on_nv_float i v) s s' l e = stored-Framed i _ s s' e
  handle-Framed (on_iv i v) s s' l e = stored-Framed i _ s s' e
  handle-Framed (on_uv i v) s s' l e = stored-Framed i _ s s' e
  handle-Framed (on_bigiv i v) s s' l e =
      elim (Bool-cases (ltb v (2 ^ 31) || leb (2 ^ 64 - 2 ^ 31) v)) [
        | inl small ↦ stored-Framed i _ s s' (rw small at e)
        | inr large ↦ stored-Framed i _ s s' (rw large at e)
      ]
  handle-Framed (on_biguv i v) s s' l e = elim (Bool-cases (ltb v (2 ^ 32))) [
    | inl small ↦ stored-Framed i _ s s' (rw small at e)
    | inr large ↦ stored-Framed i _ s s' (rw large at e)
  ]
  handle-Framed (on_enum i v) s s' l e =
      state_of-elim _ s' e λ ok f. on_enum-Framed i v s (ok, s') f
  handle-Framed (on_perl_bool i b) s s' l e = stored-Framed i _ s s' e
  handle-Framed (on_numeric_bool i b) s s' l e = stored-Framed i _ s s' e
  handle-Framed (on_json_bool i b) s s' l e = stored-Framed i _ s s' e
  handle-Framed (on_string i buffer len is_utf8) s s' l e = stored-Framed i _ s s' e
  handle-Framed (on_string_key i buffer len) s s' l e = >>=-elim (back s.map_keys) _ e λ k _ e1.
      >>=-elim (set_back (record k { key_buffer = some (bytes_at buffer len) }) s.map_keys) _ e1
        λ map_keys put e2.
          subst (Framed s) (some-injective _ _ e2)
            (refl, refl, refl, pop_back-set_back _ _ _ put, refl, refl)
  handle-Framed (on_start_sub_message i) s s' l e = cc l
  handle-Framed (on_end_sub_message i) s s' l e = cc l
  handle-Framed (on_start_sequence i) s s' l e = cc l
  handle-Framed (on_end_sequence i) s s' l e = cc l
  handle-Framed (on_start_map i) s s' l e = cc l
  handle-Framed (on_end_map i) s s' l e = cc l
  handle-Framed (on_end_map_entry i) s s' l e =
      state_of-elim _ s' e λ ok f. on_end_map_entry-Framed s (ok, s') f
  handle-Framed (on_end_string_map_entry i) s s' l e =
      state_of-elim _ s' e λ ok f. on_end_string_map_entry-Framed s (ok, s') f
