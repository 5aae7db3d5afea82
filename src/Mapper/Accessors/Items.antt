-- ===== src/Mapper/Accessors/Items.antt =====
-- The items of lists and maps that class MapperField of src/mapper.cpp reads and writes.
use google_protobuf_dynamic.Common.{
  ℕ, zero, suc, ◌-◌, ◌<◌, ◌≤◌, ◌≡◌, ◌↔◌, ◌⊎◌, refl, ltb, false, Option, none, some, List, [], ◌∷◌,
  ◌++◌, length, get_elem?, replicate, if◌then◌else◌, arith, ap, sym, ◌∙◌, subst, Option-cases,
  Bool-cases, inl, inr, length-append, length-set, length-replicate, get_elem?-set_self,
  get_elem?-set_ne, get_elem?-bound, ltb→lt, lt→ltb, ◌≢◌,
}
use google_protobuf_dynamic.Pb.Descriptor.{find}
use google_protobuf_dynamic.Pb.Descriptor.Maps.{find-assign}
use google_protobuf_dynamic.Dynamic.Options.{BoolStyle}
use google_protobuf_dynamic.Mapper.Scalars.{
  Sv, undef, array_ref, PerlScalars, Heap, with_array, update_same,
}
use google_protobuf_dynamic.Mapper.Accessors.{
  MappedField, array_address, write_array, item_of, element_or_new, get_read_field, get_read_array,
  get_write_array, get_write_field, write_field, Copied, copied, refused, write_copied, copy_value,
  Outcome, Croak, returned, croaked, crashed, beyond_model, Index, from_start, from_end, place,
  av_fetch, av_store, write_element, get_list_item, set_list_item, add_item, list_size,
}

-- The index is one of an array of this size.
abbrev pub InRange : ℕ → Index → Type 0
InRange size (from_start i) = i < size
InRange size (from_end n) = n < size

abbrev pub IsReturned : {A : Type 0} → Outcome A → Type 0
IsReturned (returned a h) = Unit
IsReturned (croaked c h) = ⊥
IsReturned crashed = ⊥
IsReturned beyond_model = ⊥

-- A field that refers to an array gives it to reads and writes.
module _ (field : MappedField) (self a : ℕ) (h : Heap)
    (found : find field.name (h.hashes self) ≡ some (array_ref a)) where
  pub get_read_array-found : get_read_array field self h ≡ returned (some a) h
  unfolding get_read_field array_address get_read_array
  get_read_array-found = rw (get_read_array, found) refl

  get_write_array-found : get_write_array field self h ≡ returned a h
  unfolding get_write_array write_array get_write_field
  get_write_array-found = rw (get_write_field, found) refl

pub Copied-cases : (c : Copied) → ((v : Sv) × (c ≡ copied v)) ⊎ ((r : Croak) × (c ≡ refused r))
Copied-cases (copied v) = inl (v, refl)
Copied-cases (refused r) = inr (r, refl)

-- What `av_store` leaves in an array.
av_store-length :
    (xs : List (Option Sv)) (i : ℕ) (v : Sv)
    → length (av_store xs i v) ≡ (if ltb i (length xs) then length xs else suc i)
unfolding av_store
av_store-length xs i v = elim (Bool-cases (ltb i (length xs))) [
  | inl inside ↦ rw inside (length-set xs i (some v))
  | inr outside ↦ rw outside (
      length-set (xs ++ replicate (suc i - length xs) none) i (some v)
      ∙ ground (
        arith,
        outside,
        length-append xs (replicate (suc i - length xs) none),
        length-replicate {A = Option Sv} (suc i - length xs) none,
      ))
]

av_store_self :
    (xs : List (Option Sv)) (i : ℕ) (v : Sv) → get_elem? (av_store xs i v) i ≡ some (some v)
unfolding av_store
av_store_self xs i v = elim (Bool-cases (ltb i (length xs))) [
  | inl inside ↦ rw inside (get_elem?-set_self xs i (some v) (ltb→lt i (length xs) inside))
  | inr outside ↦ rw outside (
      get_elem?-set_self (xs ++ replicate (suc i - length xs) none) i (some v) (
        ground (
          arith,
          outside,
          length-append xs (replicate (suc i - length xs) none),
          length-replicate {A = Option Sv} (suc i - length xs) none,
        )))
]

get_elem?-length : {A : Type 0} (xs : List A) → get_elem? xs (length xs) ≡ none
get_elem?-length [] = refl
get_elem?-length (x ∷ xs) = get_elem?-length xs

element_or_new-length : (xs : List (Option Sv)) → element_or_new xs (length xs) ≡ undef
element_or_new-length xs = rw (element_or_new, get_elem?-length xs) refl

ltb_irrefl : (n : ℕ) → ltb n n ≡ false
ltb_irrefl n = ground arith

get_elem?-append :
    {A : Type 0} (xs ys : List A) (i : ℕ) → i < length xs → get_elem? (xs ++ ys) i ≡ get_elem? xs i
get_elem?-append [] ys i l = elim l [ ]
get_elem?-append (x ∷ xs) ys zero l = refl
get_elem?-append (x ∷ xs) ys (suc i) l = get_elem?-append xs ys i (omega (arith, l))

av_store_other :
    (xs : List (Option Sv)) (i j : ℕ) (v : Sv)
    → j < length xs
    → i ≢ j
    → get_elem? (av_store xs i v) j ≡ get_elem? xs j
unfolding av_store
av_store_other xs i j v l other = elim (Bool-cases (ltb i (length xs))) [
  | inl inside ↦ rw inside (get_elem?-set_ne xs (some v) other)
  | inr outside ↦ rw outside (
      get_elem?-set_ne (xs ++ replicate (suc i - length xs) none) (some v) other
      ∙ get_elem?-append xs (replicate (suc i - length xs) none) j l)
]

-- After `get_write_array` the field refers to the array.
write_array-refers :
    (field : MappedField) (self a : ℕ) (ref : Sv) (h h1 : Heap)
    → find field.name (h.hashes self) ≡ some ref
    → write_array field self ref h ≡ returned a h1
    → find field.name (h1.hashes self) ≡ some (array_ref a)
unfolding write_array write_field
write_array-refers field self a undef h h1 found e =
    ground (arith, e, find-assign field.name field.name (array_ref h.next) (h.hashes self))
write_array-refers field self a (array_ref b) h h1 found e = cc (found, e)
write_array-refers field self a _ h h1 found e = cc e

get_write_array-refers :
    (field : MappedField) (self a : ℕ) (h h1 : Heap)
    → get_write_array field self h ≡ returned a h1
    → find field.name (h1.hashes self) ≡ some (array_ref a)
unfolding get_write_array get_write_field
get_write_array-refers field self a h h1 e = elim (Option-cases (find field.name (h.hashes self))) [
  | inl missing ↦
      write_array-refers field self a undef _ h1
        (ground (arith, find-assign field.name field.name undef (h.hashes self)))
        (rw (missing, get_write_field) at e)
  | inr (ref, found) ↦
      write_array-refers field self a ref h h1 found (rw (found, get_write_field) at e)
]

module _ (perl : PerlScalars) (style : BoolStyle) (field : MappedField) where
  item_of-InRange :
      (array : List (Option Sv)) (index : Index) (target : Sv) (h : Heap)
      → IsReturned (item_of perl style field array index target h) ↔ InRange (length array) index
  unfolding item_of
  item_of-InRange [] (from_start i) target h = ground arith
  item_of-InRange [] (from_end n) target h = ground arith
  item_of-InRange (element ∷ array) (from_start i) target h = ground arith
  item_of-InRange (element ∷ array) (from_end n) target h = ground arith

  -- For a field that refers to an array, `get_list_item` returns exactly for the indices from -size
  -- on and below the size.
  pub get_list_item-InRange :
      (self a : ℕ) (index : Index) (target : Sv) (h : Heap)
      → find field.name (h.hashes self) ≡ some (array_ref a)
      → IsReturned (get_list_item perl style field self index target h)
        ↔ InRange (length (h.arrays a)) index
  unfolding get_list_item
  get_list_item-InRange self a index target h found =
      rw (get_read_array-found field self a h found) (item_of-InRange (h.arrays a) index target h)

  write_copied-safe :
      (c : Copied) (write : Sv → Heap) (unwritten : Heap)
      → write_copied perl style c write unwritten ≢ crashed
  unfolding write_copied
  write_copied-safe (copied value) write unwritten e = cc e
  write_copied-safe (refused r) write unwritten e = cc e

  write_element-safe :
      (array i : ℕ) (value : Sv) (h : Heap)
      → write_element perl style field array i value h ≢ crashed
  unfolding write_element
  write_element-safe array i value h = write_copied-safe _ _ _

  at_place-crashed :
      (size : ℕ) (index : Index) (array : ℕ) (value : Sv) (h : Heap)
      → ((elim (place size index) as (λ x. Outcome Unit) [
        | none ↦ crashed
        | some i ↦ write_element perl style field array i value h
      ])
          ≡ crashed)
        ↔ ((n : ℕ) × (index ≡ from_end n) × (size ≤ n))
  unfolding place
  at_place-crashed size (from_start i) array value h =
      (λ e. absurd (write_element-safe array i value h e), λ (n, e, l). cc e)
  at_place-crashed size (from_end n) array value h = elim (Bool-cases (ltb n size)) [
    | inl inside ↦ rw inside (
      λ e. absurd (write_element-safe array (size - suc n) value h e),
      λ (m, e, l). absurd (ground (arith, inside, e, l)),
    )
    | inr outside ↦ rw outside (λ e. (n, refl, ground (arith, outside)), λ (m, e, l). refl)
  ]

  -- For a field that refers to an array, `set_list_item` writes through a null pointer exactly for
  -- the indices below -size.
  pub set_list_item-crashed :
      (self a : ℕ) (index : Index) (value : Sv) (h : Heap)
      → find field.name (h.hashes self) ≡ some (array_ref a)
      → (set_list_item perl style field self index value h ≡ crashed)
        ↔ ((n : ℕ) × (index ≡ from_end n) × (length (h.arrays a) ≤ n))
  unfolding set_list_item
  set_list_item-crashed self a index value h found =
      rw (get_write_array-found field self a h found)
        (at_place-crashed (length (h.arrays a)) index a value h)

  -- A write to an element that is not refused.
  write_element-copied :
      (a i : ℕ) (value : Sv) (h h' : Heap)
      → write_element perl style field a i value h ≡ returned tt h'
      → (new : Sv) × (copy_value perl style field (element_or_new (h.arrays a) i) value
          ≡ copied new)
        × (h' ≡ with_array a (av_store (h.arrays a) i new) h)
  unfolding write_element write_copied
  write_element-copied a i value h h' e =
      elim (Copied-cases (copy_value perl style field (element_or_new (h.arrays a) i) value)) [
        | inl (new, good) ↦ (new, good, ground (arith, rw good at e))
        | inr (r, bad) ↦ cc (rw bad at e)
      ]

  -- What the reads of a list give after a write of an element to the array that the field refers to.
  abbrev pub ReadBack : (self a i : ℕ) (new target : Sv) (before after : Heap) → Type 0
  ReadBack self a i new target before after =
      (get_list_item perl style field self (from_start i) target after ≡ returned new after)
      × (list_size field self after
          ≡ returned (if ltb i (length (before.arrays a)) then length (before.arrays a) else suc i)
              after)
      × ((j : ℕ)
          → j < length (before.arrays a)
          → i ≢ j
          → get_elem? (after.arrays a) j ≡ get_elem? (before.arrays a) j)

  item_of-at :
      (array : List (Option Sv)) (i : ℕ) (v target : Sv) (h : Heap)
      → get_elem? array i ≡ some (some v)
      → item_of perl style field array (from_start i) target h ≡ returned v h
  unfolding item_of av_fetch place
  item_of-at [] i v target h e = cc e
  item_of-at (element ∷ array) i v target h e =
      rw (lt→ltb i _ (get_elem?-bound (element ∷ array) i (some v) e), e) refl

  write_element-ReadBack :
      (self a i : ℕ) (value target : Sv) (h h' : Heap)
      → find field.name (h.hashes self) ≡ some (array_ref a)
      → write_element perl style field a i value h ≡ returned tt h'
      → (new : Sv) × (copy_value perl style field (element_or_new (h.arrays a) i) value
          ≡ copied new)
        × ReadBack self a i new target h h'
  unfolding get_list_item list_size
  write_element-ReadBack self a i value target h h' found e =
      let (new, good, same) = write_element-copied a i value h h' e in
      (
        new,
        good,
        subst (ReadBack self a i new target h) (sym same) (
          rw
              (get_read_array-found field self a (with_array a (av_store (h.arrays a) i new) h)
                found)
              (rw (update_same h.arrays a (av_store (h.arrays a) i new))
                (item_of-at _ i new target _ (av_store_self (h.arrays a) i new))),
          rw
              (get_read_array-found field self a (with_array a (av_store (h.arrays a) i new) h)
                found)
              (ap (λ n. returned n (with_array a (av_store (h.arrays a) i new) h))
                (rw (update_same h.arrays a (av_store (h.arrays a) i new))
                  (av_store-length (h.arrays a) i new))),
          λ j l other.
              rw (update_same h.arrays a (av_store (h.arrays a) i new))
                (av_store_other (h.arrays a) i j new l other),
        ),
      )

  -- After a call of `add_item` that returns, the list is longer by one, its last element is what
  -- `copy_value` makes of the value, and the elements before it are unchanged. `get_write_array`
  -- gives the array `a`, which is a new one if the field was not there.
  pub get_list_item-add_item :
      (self a : ℕ) (value target : Sv) (h h1 h' : Heap)
      → get_write_array field self h ≡ returned a h1
      → add_item perl style field self value h ≡ returned tt h'
      → (new : Sv) × (copy_value perl style field undef value ≡ copied new)
        × (list_size field self h' ≡ returned (suc (length (h1.arrays a))) h')
        × (get_list_item perl style field self (from_start (length (h1.arrays a))) target h'
            ≡ returned new h')
        × ((j : ℕ)
            → j < length (h1.arrays a)
            → get_elem? (h'.arrays a) j ≡ get_elem? (h1.arrays a) j)
  unfolding add_item
  get_list_item-add_item self a value target h h1 h' got e =
      let (new, good, back) =
        write_element-ReadBack self a (length (h1.arrays a)) value target h1 h'
          (get_write_array-refers field self a h h1 got) (rw got at e) in
      (
        new,
        (rw (element_or_new-length (h1.arrays a)) at good),
        (rw (ltb_irrefl (length (h1.arrays a))) at back.1),
        back.0,
        λ j l. back.2 j l (λ same. omega (arith, l, same)),
      )

  -- After a call of `set_list_item` at an index from 0 on that returns, the item at that index is
  -- what `copy_value` makes of the value, the list has as many elements as before, or the index and
  -- one if that is more, and the other elements are unchanged.
  pub get_list_item-set_list_item :
      (self a i : ℕ) (value target : Sv) (h h1 h' : Heap)
      → get_write_array field self h ≡ returned a h1
      → set_list_item perl style field self (from_start i) value h ≡ returned tt h'
      → (new : Sv) × (copy_value perl style field (element_or_new (h1.arrays a) i) value
          ≡ copied new)
        × ReadBack self a i new target h1 h'
  unfolding set_list_item place
  get_list_item-set_list_item self a i value target h h1 h' got e =
      write_element-ReadBack self a i value target h1 h'
        (get_write_array-refers field self a h h1 got) (rw got at e)
