-- ===== src/Mapper/Handlers/Entries.antt =====
-- The entries of maps and the texts that the handlers of src/mapper.cpp store.
use google_protobuf_dynamic.Common.{
  ℕ, suc, ◌≡◌, refl, ap, subst, ◌==◌, if◌then◌else◌, Bool, true, false, Option, none, some, List,
  ◌∷◌, ◌>>=◌, get_elem?, set, >>=-elim,
}
use mathlib.Core.Option.{some-injective}
use google_protobuf_dynamic.Pb.Descriptor.{find, assign}
use google_protobuf_dynamic.Pb.Descriptor.Maps.{find-assign}
use google_protobuf_dynamic.Mapper.Scalars.{Sv, undef, with_hash, PerlScalars, update_same}
use google_protobuf_dynamic.Mapper.Handlers.{
  HandlerMapper, Item, av, hv, sv, null, MapKey, DecoderHandlers, back, set_back,
}
use google_protobuf_dynamic.Mapper.Handlers.Calls.{
  PerlKeys, on_string_key, on_end_string_map_entry, on_end_map_entry, entry_value, store_entry,
  map_items,
}

abbrev state_in : Bool × DecoderHandlers → DecoderHandlers
state_in r = r.1

module _ (table : ℕ → HandlerMapper) (perl : PerlScalars) (keys : PerlKeys) where
  entry_value-same :
      (item : Item) (s s' : DecoderHandlers)
      → s'.mappers ≡ s.mappers
      → entry_value table perl keys s' item ≡ entry_value table perl keys s item
  unfolding entry_value
  entry_value-same (sv v) s s' e = refl
  entry_value-same null s s' e = rw e refl
  entry_value-same (hv a) s s' e = refl
  entry_value-same (av a) s s' e = refl

  -- A state inside an entry of the map `hash`.
  abbrev pub in_entry :
      (hash : ℕ) → Item → List Item → MapKey → List MapKey → DecoderHandlers → DecoderHandlers
  in_entry hash item rest k ks s = record s { items = item ∷ hv hash ∷ rest; map_keys = k ∷ ks }

  -- The text of a key and then the end of the entry, in a map with text keys: the hash has the value
  -- for the key, which is the default if none was decoded, and what it had for the other keys; key
  -- and value are gone, so that the next entry starts anew.
  pub on_end_string_map_entry-stored :
      (text : List ℕ) (hash : ℕ) (item : Item) (v : Sv) (rest : List Item) (k : MapKey)
      (ks : List MapKey) (s : DecoderHandlers)
      → entry_value table perl keys s item ≡ some v
      → (s' : DecoderHandlers) × ((on_string_key table perl keys text
              (in_entry hash item rest k ks s)
            >>= on_end_string_map_entry table perl keys)
          ≡ some (true, s'))
        × (s'.items ≡ null ∷ hv hash ∷ rest)
        × (s'.map_keys ≡ (record { key_sv = k.key_sv; key_buffer = none }) ∷ ks)
        × ((key : ℕ)
            → find key (s'.heap.hashes hash)
              ≡ (if keys.key_of_text text == key then some v else find key (s.heap.hashes hash)))
  unfolding on_string_key on_end_string_map_entry map_items store_entry
  on_end_string_map_entry-stored text hash item v rest k ks s decoded = (
    record s {
      heap = with_hash hash (assign (keys.key_of_text text) v (s.heap.hashes hash)) s.heap;
      items = null ∷ hv hash ∷ rest;
      map_keys = (record { key_sv = k.key_sv; key_buffer = none }) ∷ ks;
    },
    rw
        (
          entry_value-same item s
              (in_entry hash item rest (record k { key_buffer = some text }) ks s) refl,
          decoded,
        )
        refl,
    refl,
    refl,
    λ key.
        rw (update_same s.heap.hashes hash (assign (keys.key_of_text text) v (s.heap.hashes hash)))
          (find-assign key (keys.key_of_text text) v (s.heap.hashes hash)),
  )

  -- An entry without a key is not stored: there is a warning, the hashes are as before, and the value
  -- is gone.
  pub on_end_map_entry-no_key :
      (hash : ℕ) (item : Item) (rest : List Item) (buffer : Option (List ℕ)) (ks : List MapKey)
      (s s' : DecoderHandlers) (ok : Bool)
      → on_end_map_entry table perl keys
          (in_entry hash item rest (record { key_sv = undef; key_buffer = buffer }) ks s)
        ≡ some (ok, s')
      → (s'.heap ≡ s.heap) × (s'.warnings ≡ suc s.warnings) × (s'.items ≡ null ∷ hv hash ∷ rest)
  unfolding on_end_map_entry map_items store_entry
  on_end_map_entry-no_key hash item rest buffer ks s s' ok e =
      >>=-elim
        (if s.track_seen_fields
          then (back s.seen_fields >>= λ seen.
              get_elem? seen 1 >>= λ b. set_back (set seen 1 false) s.seen_fields)
          else some s.seen_fields)
        _ e
        λ seen_fields reset last.
          subst
            (λ (x : DecoderHandlers).
              (x.heap ≡ s.heap) × (x.warnings ≡ suc s.warnings) × (x.items ≡ null ∷ hv hash ∷ rest))
            (ap state_in (some-injective _ _ last)) (refl, refl, refl)
