-- ===== src/Mapper/Accessors/Wholes.antt =====
-- Whole lists, maps and entries of maps that class MapperField of src/mapper.cpp reads and writes.
use google_protobuf_dynamic.Common.{
  ℕ, ◌≡◌, refl, ◌==◌, false, some, List, [], ◌∷◌, if◌then◌else◌, arith, sym, subst, Option-cases,
  Bool-cases, not, ◌||◌, inl, inr, length,
}
use google_protobuf_dynamic.Pb.Descriptor.{find, assign}
use google_protobuf_dynamic.Pb.Descriptor.Maps.{find-assign}
use google_protobuf_dynamic.Dynamic.Options.{BoolStyle}
use google_protobuf_dynamic.Mapper.Scalars.{
  Sv, undef, array_ref, hash_ref, PerlScalars, Heap, with_hash, update_same, update_other, sv_ok,
  sv_rok,
}
use google_protobuf_dynamic.Mapper.Accessors.{
  MappedField, hash_address, write_hash, map_item_of, get_read_field, get_read_hash, get_write_hash,
  get_write_field, write_field, copied, write_copied, copy_value, value_or_new, returned, croaked,
  refer_to, value_of_not_reference, write_entry, get_map_item, set_map_item, set_list, get_list,
  list_size,
}
use google_protobuf_dynamic.Mapper.Accessors.Items.{Copied-cases, get_read_array-found}

module _ (field : MappedField) (self a : ℕ) (h : Heap)
    (found : find field.name (h.hashes self) ≡ some (hash_ref a)) where
  get_read_hash-found : get_read_hash field self h ≡ returned (some a) h
  unfolding get_read_field hash_address get_read_hash
  get_read_hash-found = rw (get_read_hash, found) refl

write_hash-refers :
    (field : MappedField) (self a : ℕ) (ref : Sv) (h h1 : Heap)
    → find field.name (h.hashes self) ≡ some ref
    → (self == h.next) ≡ false
    → write_hash field self ref h ≡ returned a h1
    → find field.name (h1.hashes self) ≡ some (hash_ref a)
unfolding write_hash write_field
write_hash-refers field self a undef h h1 found old e = ground (
  arith,
  e,
  old,
  found,
  find-assign field.name field.name (hash_ref h.next) (h.hashes self),
  find-assign field.name field.name (hash_ref h.next) [],
)
write_hash-refers field self a (hash_ref b) h h1 found old e = cc (found, e)
write_hash-refers field self a _ h h1 found old e = cc e

get_write_hash-refers :
    (field : MappedField) (self a : ℕ) (h h1 : Heap)
    → (self == h.next) ≡ false
    → get_write_hash field self h ≡ returned a h1
    → find field.name (h1.hashes self) ≡ some (hash_ref a)
unfolding get_write_hash get_write_field
get_write_hash-refers field self a h h1 old e =
    elim (Option-cases (find field.name (h.hashes self))) [
      | inl missing ↦
          write_hash-refers field self a undef
            (with_hash self (assign field.name undef (h.hashes self)) h) h1
            (ground (arith, find-assign field.name field.name undef (h.hashes self))) old
            (rw (missing, get_write_field) at e)
      | inr (ref, found) ↦
          write_hash-refers field self a ref h h1 found old (rw (found, get_write_field) at e)
    ]

module _ (perl : PerlScalars) (style : BoolStyle) (field : MappedField) where
  map_item_of-at :
      (entries : List (ℕ × Sv)) (key : ℕ) (v : Sv) (h : Heap)
      → find key entries ≡ some v
      → map_item_of perl style field entries key h ≡ returned v h
  unfolding map_item_of find
  map_item_of-at [] key v h e = cc e
  map_item_of-at (entry ∷ entries) key v h e = rw (map_item_of, e) refl

  write_entry-copied :
      (a key : ℕ) (value : Sv) (h h' : Heap)
      → write_entry perl style field a key value h ≡ returned tt h'
      → (new : Sv) × (copy_value perl style field (value_or_new (find key (h.hashes a))) value
          ≡ copied new)
        × (h' ≡ with_hash a (assign key new (h.hashes a)) h)
  unfolding write_entry write_copied
  write_entry-copied a key value h h' e =
      elim (Copied-cases
        (copy_value perl style field (value_or_new (find key (h.hashes a))) value)) [
          | inl (new, good) ↦ (new, good, ground (arith, rw good at e))
          | inr (r, bad) ↦ cc (rw bad at e)
        ]

  -- After a call of `set_map_item` that returns, the item with the key is what `copy_value` makes of
  -- the value, and every other key of the map has the value that it had. `get_write_hash` gives the
  -- map `a`, a new one if the field was not there; the message is another hash than the map, and does
  -- not stand at the address that is free.
  pub get_map_item-set_map_item :
      (self a key : ℕ) (value : Sv) (h h1 h' : Heap)
      → get_write_hash field self h ≡ returned a h1
      → (self == h.next) ≡ false
      → (a == self) ≡ false
      → set_map_item perl style field self key value h ≡ returned tt h'
      → (new : Sv) × (copy_value perl style field (value_or_new (find key (h1.hashes a))) value
          ≡ copied new)
        × (get_map_item perl style field self key h' ≡ returned new h')
        × ((other : ℕ)
            → (key == other) ≡ false
            → find other (h'.hashes a) ≡ find other (h1.hashes a))
  unfolding set_map_item get_map_item
  get_map_item-set_map_item self a key value h h1 h' got old apart e =
      let (new, good, same) = write_entry-copied a key value h1 h' (rw got at e) in
      let g : Heap = with_hash a (assign key new (h1.hashes a)) h1 in
      let there : find key (g.hashes a) ≡ some new =
        rw (update_same h1.hashes a (assign key new (h1.hashes a)))
          (ground (arith, find-assign key key new (h1.hashes a))) in
      let kept : find field.name (g.hashes self) ≡ some (hash_ref a) =
        rw (update_other h1.hashes a self (assign key new (h1.hashes a)) apart)
          (get_write_hash-refers field self a h h1 old got) in
      (
        new,
        good,
        subst (λ x. get_map_item perl style field self key x ≡ returned new x) (sym same)
            (rw (get_read_hash-found field self a g kept)
              (map_item_of-at (g.hashes a) key new g there)),
        λ other ne.
            subst (λ (x : Heap). find other (x.hashes a) ≡ find other (h1.hashes a)) (sym same)
              (rw (update_same h1.hashes a (assign key new (h1.hashes a)))
                (ground (arith, ne, find-assign other key new (h1.hashes a)))),
      )

set_reference :
    (field : MappedField) (self : ℕ) (ref target : Sv) (h h0 h' : Heap)
    → (if not (sv_ok target) || sv_rok target
        then returned tt (write_field field self ref h0)
        else croaked value_of_not_reference h0)
      ≡ returned tt h'
    → h0.arrays ≡ h.arrays
    → (find field.name (h'.hashes self) ≡ some ref) × (h'.arrays ≡ h.arrays)
unfolding write_field
set_reference field self ref target h h0 h' e same =
    elim (Bool-cases (not (sv_ok target) || sv_rok target)) [
      | inl good ↦
          ground (arith, rw good at e, same, find-assign field.name field.name ref (h0.hashes self))
      | inr bad ↦ cc (rw bad at e)
    ]

refer_to-refers :
    (field : MappedField) (self : ℕ) (ref : Sv) (h h' : Heap)
    → refer_to field self ref h ≡ returned tt h'
    → (find field.name (h'.hashes self) ≡ some ref) × (h'.arrays ≡ h.arrays)
unfolding refer_to get_write_field
refer_to-refers field self ref h h' e = elim (Option-cases (find field.name (h.hashes self))) [
  | inl missing ↦
      set_reference field self ref undef h
        (with_hash self (assign field.name undef (h.hashes self)) h) h'
        (rw (missing, get_write_field) at e) refl
  | inr (old, found) ↦
      set_reference field self ref old h h h' (rw (found, get_write_field) at e) refl
]

-- After a call of `set_list` that returns, `get_list` gives the reference that was passed, the list has
-- the size of the array that it refers to, and every array has the elements that it had.
pub get_list-set_list :
    (field : MappedField) (self a : ℕ) (h h' : Heap)
    → set_list field self (array_ref a) h ≡ returned tt h'
    → (get_list field self h' ≡ returned (array_ref a) h')
      × (list_size field self h' ≡ returned (length (h.arrays a)) h')
      × (h'.arrays ≡ h.arrays)
unfolding set_list get_list list_size
get_list-set_list field self a h h' e =
    let (found, same) = refer_to-refers field self (array_ref a) h h' e in
    (
      rw (get_read_array-found field self a h' found) refl,
      rw (get_read_array-found field self a h' found, same) refl,
      same,
    )
