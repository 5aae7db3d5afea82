-- ===== src/Mapper/Accessors/Oneof.antt =====
-- `set_scalar` and `clear_oneof` of class MapperField, src/mapper.cpp.
use google_protobuf_dynamic.Common.{
  ℕ, ◌≡◌, refl, ◌==◌, Bool, true, false, not, ◌&&◌, ◌||◌, none, some, List, [], ◌∷◌, if◌then◌else◌,
  arith, ◌∙◌, Option-cases, inl, inr,
}
use google_protobuf_dynamic.Common.Sorting.{Distinct}
use google_protobuf_dynamic.Pb.Descriptor.{find, erase}
use google_protobuf_dynamic.Pb.Descriptor.Maps.{keys_of, find-assign, find-erase, erase-Distinct}
use google_protobuf_dynamic.Dynamic.Options.{BoolStyle}
use google_protobuf_dynamic.Mapper.Scalars.{Sv, undef, PerlScalars, Heap}
use google_protobuf_dynamic.Mapper.Accessors.{
  MappedField, has_field, same_oneof, clear_others, clear_oneof, prepare_oneof, set_scalar,
  get_write_field, write_field, Copied, copied, refused, write_copied, copy_value, heap_after,
}

-- Some other field of the list has this name and is in the same oneof as the field.
abbrev pub is_other : MappedField → ℕ → List MappedField → Bool
is_other field j [] = false
is_other field j (other ∷ fields) =
    (same_oneof other.oneof_index field.oneof_index
      && not (other.field_index == field.field_index)
      && other.name == j)
    || is_other field j fields

module _ (perl : PerlScalars) (style : BoolStyle) (field : MappedField) where
  find-clear_others :
      (j : ℕ) (fields : List MappedField) (entries : List (ℕ × Sv))
      → Distinct (keys_of entries)
      → find j (clear_others perl style field fields entries)
        ≡ (if is_other field j fields then none else find j entries)
  unfolding clear_others
  find-clear_others j [] entries d = refl
  find-clear_others j (other ∷ fields) entries d = ground (
    arith,
    find-clear_others j fields entries d,
    find-clear_others j fields (erase other.name entries) (erase-Distinct other.name entries d),
    find-erase j other.name entries d,
  )

  -- The others of the field's oneof, if it is in one.
  abbrev pub is_cleared : ℕ → List MappedField → Bool
  is_cleared j fields = elim field.oneof_index [ none ↦ false | some i ↦ is_other field j fields ]

  find-prepare_oneof :
      (j : ℕ) (fields : List MappedField) (self : ℕ) (h : Heap)
      → Distinct (keys_of (h.hashes self))
      → find j ((prepare_oneof perl style field fields self h).hashes self)
        ≡ (if is_cleared j fields then none else find j (h.hashes self))
  unfolding prepare_oneof clear_oneof
  find-prepare_oneof j fields self h d = elim (Option-cases field.oneof_index) [
    | inl free ↦ rw free refl
    | inr (i, grouped) ↦ rw grouped (ground (arith, find-clear_others j fields (h.hashes self) d))
  ]

  -- What a store has of the message when the field is there and no other entry has changed.
  abbrev pub Written : (self : ℕ) (before after : Heap) → Type 0
  Written self before after =
      (has_field field self after ≡ true)
      × ((j : ℕ)
          → (field.name == j) ≡ false
          → find j (after.hashes self) ≡ find j (before.hashes self))

  write_field-Written :
      (self : ℕ) (value : Sv) (h h' : Heap)
      → ((j : ℕ) → (field.name == j) ≡ false → find j (h'.hashes self) ≡ find j (h.hashes self))
      → Written self h (write_field field self value h')
  unfolding write_field has_field
  write_field-Written self value h h' same = (
    ground (arith, find-assign field.name field.name value (h'.hashes self)),
    λ j other. ground (arith, other, find-assign j field.name value (h'.hashes self), same j),
  )

  get_write_field-Written : (self : ℕ) (h : Heap) → Written self h (get_write_field field self h).1
  unfolding get_write_field has_field write_field
  get_write_field-Written self h = elim (Option-cases (find field.name (h.hashes self))) [
    | inl missing ↦
        rw (missing, get_write_field) (write_field-Written self undef h h λ j other. refl)
    | inr (value, found) ↦ rw (found, get_write_field) (rw (found, has_field) refl, λ j other. refl)
  ]

  write_copied-Written :
      (c : Copied) (self : ℕ) (h h1 : Heap)
      → Written self h h1
      → (h' : Heap) × (heap_after
            (write_copied perl style c (λ new. write_field field self new h1) h1)
          ≡ some h')
        × Written self h h'
  unfolding write_copied
  write_copied-Written (copied value) self h h1 w =
      (write_field field self value h1, refl, write_field-Written self value h h1 w.1)
  write_copied-Written (refused c) self h h1 w = (h1, refl, w)

  -- Whether `set_scalar` returns or croaks, the field has an entry then, the other fields of its
  -- oneof have none, and every other entry of the message is as before; the call does not crash.
  -- The keys of the message are distinct.
  pub set_scalar-oneof :
      (fields : List MappedField) (self : ℕ) (value : Sv) (h : Heap)
      → Distinct (keys_of (h.hashes self))
      → (h' : Heap) × (heap_after (set_scalar perl style field fields self value h) ≡ some h')
        × (has_field field self h' ≡ true)
        × ((j : ℕ)
            → (field.name == j) ≡ false
            → find j (h'.hashes self)
              ≡ (if is_cleared j fields then none else find j (h.hashes self)))
  unfolding set_scalar
  set_scalar-oneof fields self value h d =
      let h0 = prepare_oneof perl style field fields self h in
      let (target, h1) = get_write_field field self h0 in
      let (h', after, w) =
        write_copied-Written (copy_value perl style field target value) self h0 h1
          (get_write_field-Written self h0) in
      (h', after, w.0, λ j other. w.1 j other ∙ find-prepare_oneof j fields self h d)
