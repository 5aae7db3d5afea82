-- ===== src/Mapper/Handlers/Nesting.antt =====
-- Runs of the handlers of src/mapper.cpp in which every start has its end.
use google_protobuf_dynamic.Common.{ℕ, ◌≡◌, sym, subst, Bool, true, some, List}
use google_protobuf_dynamic.Mapper.Visitor.{
  Call, on_start_sub_message, on_end_sub_message, on_start_sequence, on_end_sequence, on_start_map,
  on_end_map,
}
use google_protobuf_dynamic.Mapper.Scalars.{PerlScalars}
use google_protobuf_dynamic.Mapper.Handlers.{HandlerMapper, DecoderHandlers}
use google_protobuf_dynamic.Mapper.Handlers.Calls as Calls
use google_protobuf_dynamic.Mapper.Handlers.Calls.{
  PerlKeys, store, mark_and_store, array_in, hash_in, store_entry, map_items, check_fields,
  apply_defaults_and_check, entry_value,
}
use google_protobuf_dynamic.Mapper.Handlers.Dispatch.{handle}
use google_protobuf_dynamic.Mapper.Handlers.Leaves.{is_leaf, handle-Framed, on_end_message-Framed}
use google_protobuf_dynamic.Mapper.Handlers.Balance.{Framed, Framed-refl, Framed-trans}
use google_protobuf_dynamic.Mapper.Handlers.Ends.{
  Tracked, Framed-Tracked, map_end-Framed, sub_message_end-Framed, sequence_end-Framed,
  sequence-started, entries-started, sub_message-started, in_map-Tracked, in_sub_message-Tracked,
  in_sequence-Tracked,
}

module _ (table : ℕ → HandlerMapper) (perl : PerlScalars) (keys : PerlKeys)
    (bytes_at : (buffer len : ℕ) → List ℕ) where
  -- A run of the handlers from a state to a state, well nested.
  pub data Balanced : DecoderHandlers → DecoderHandlers → Type 0 where
    done : {s : DecoderHandlers} → Balanced s s
    leaf :
        {s s1 s' : DecoderHandlers} (c : Call)
        → is_leaf c ≡ true
        → handle table perl keys bytes_at c s ≡ some s1
        → Balanced s1 s'
        → Balanced s s'
    end_of_message :
        {s s1 s' : DecoderHandlers} (ok : Bool)
        → Calls.on_end_message table perl keys true s ≡ some (ok, s1)
        → Balanced s1 s'
        → Balanced s s'
    sequence :
        {s s1 s2 s3 s' : DecoderHandlers} (i : ℕ)
        → handle table perl keys bytes_at (on_start_sequence i) s ≡ some s1
        → Balanced s1 s2
        → handle table perl keys bytes_at (on_end_sequence i) s2 ≡ some s3
        → Balanced s3 s'
        → Balanced s s'
    entries :
        {s s1 s2 s3 s' : DecoderHandlers} (i : ℕ)
        → handle table perl keys bytes_at (on_start_map i) s ≡ some s1
        → Balanced s1 s2
        → handle table perl keys bytes_at (on_end_map i) s2 ≡ some s3
        → Balanced s3 s'
        → Balanced s s'
    sub_message :
        {s s1 s2 s3 s' : DecoderHandlers} (i : ℕ)
        → handle table perl keys bytes_at (on_start_sub_message i) s ≡ some s1
        → Balanced s1 s2
        → handle table perl keys bytes_at (on_end_sub_message i) s2 ≡ some s3
        → Balanced s3 s'
        → Balanced s s'

  -- A well nested run of the handlers leaves every vector as it was below its last element, with the
  -- same mappers and the same flag, if the flag was that of the last mapper.
  pub Balanced-Framed :
      {s s' : DecoderHandlers} → Tracked table perl keys bytes_at s → Balanced s s' → Framed s s'
  unfolding handle
  Balanced-Framed {s = s} tracked done = Framed-refl s
  Balanced-Framed {s = s} {s' = s'} tracked (leaf {s1 = s1} c l e rest) =
      let f = handle-Framed table perl keys bytes_at c s s1 l e in
      Framed-trans s s1 s' f
        (Balanced-Framed (Framed-Tracked table perl keys bytes_at s s1 f tracked) rest)
  Balanced-Framed {s = s} {s' = s'} tracked (end_of_message {s1 = s1} ok e rest) =
      let f = on_end_message-Framed table perl keys bytes_at s (ok, s1) e in
      Framed-trans s s1 s' f
        (Balanced-Framed (Framed-Tracked table perl keys bytes_at s s1 f tracked) rest)
  Balanced-Framed {s = s} {s' = s'} tracked
        (sequence {s1 = s1} {s2 = s2} {s3 = s3} i e inner e' rest) =
      let (x, c, before, same) = sequence-started table perl keys bytes_at i s s1 e in
      let start = subst (Tracked table perl keys bytes_at) same (
        in_sequence-Tracked table perl keys bytes_at x c
          (Framed-Tracked table perl keys bytes_at s c before tracked)) in
      let body = Balanced-Framed start inner in
      let f = Framed-trans s c s3 before (
        sequence_end-Framed table perl keys bytes_at x c s2 s3
          (subst (λ y. Framed y s2) (sym same) body) e') in
      Framed-trans s s3 s' f
        (Balanced-Framed (Framed-Tracked table perl keys bytes_at s s3 f tracked) rest)
  Balanced-Framed {s = s} {s' = s'} tracked
        (entries {s1 = s1} {s2 = s2} {s3 = s3} i e inner e' rest) =
      let (m, x, c, before, same) = entries-started table perl keys bytes_at i s s1 e in
      let body =
        Balanced-Framed
          (subst (Tracked table perl keys bytes_at) same
            (in_map-Tracked table perl keys bytes_at m x c))
          inner in
      let f = Framed-trans s c s3 before (
        map_end-Framed table perl keys bytes_at m x c s2 s3
          (Framed-Tracked table perl keys bytes_at s c before tracked)
          (subst (λ y. Framed y s2) (sym same) body) e') in
      Framed-trans s s3 s' f
        (Balanced-Framed (Framed-Tracked table perl keys bytes_at s s3 f tracked) rest)
  Balanced-Framed {s = s} {s' = s'} tracked
        (sub_message {s1 = s1} {s2 = s2} {s3 = s3} i e inner e' rest) =
      let (m, x, c, before, same) = sub_message-started table perl keys bytes_at i s s1 e in
      let body =
        Balanced-Framed
          (subst (Tracked table perl keys bytes_at) same
            (in_sub_message-Tracked table perl keys bytes_at m x c))
          inner in
      let f = Framed-trans s c s3 before (
        sub_message_end-Framed table perl keys bytes_at m x c s2 s3
          (Framed-Tracked table perl keys bytes_at s c before tracked)
          (subst (λ y. Framed y s2) (sym same) body) e') in
      Framed-trans s s3 s' f
        (Balanced-Framed (Framed-Tracked table perl keys bytes_at s s3 f tracked) rest)
