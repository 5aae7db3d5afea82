-- ===== src/Mapper/Handlers/Oneof.antt =====
-- The members of a oneof while a message is decoded, src/mapper.cpp.
use google_protobuf_dynamic.Common.{
  ℕ, ◌≡◌, ◌≢◌, refl, sym, ◌∙◌, ap, subst, ◌==◌, true, false, Option, none, some, List, [], ◌∷◌,
  get_elem?, set, arith, >>=-elim, Bool-cases, Option-cases, inl, inr, get_elem?-set,
  get_elem?-bound,
}
use mathlib.Core.Option.{some-injective}
use google_protobuf_dynamic.Common.Sorting.{Distinct}
use google_protobuf_dynamic.Pb.Descriptor.{find, erase}
use google_protobuf_dynamic.Pb.Descriptor.Maps.{keys_of, find-assign, find-erase}
use google_protobuf_dynamic.Mapper.Scalars.{Sv, undef, Heap, update_same}
use google_protobuf_dynamic.Mapper.Handlers.{
  HandlerField, HandlerMapper, target_hash_item, hv, Target, entry, DecoderHandlers, back, set_back,
  delete_other, note_oneof, target_of, get_target, ensure_entry,
}

-- Every member of a oneof that has an entry is the one that the vector has for the oneof, so that
-- one of them at most has an entry.
abbrev pub OneMember : List HandlerField → List (Option ℕ) → List (ℕ × Sv) → Type 0
OneMember fields row entries =
    (i k : ℕ) (field : HandlerField) (v : Sv)
    → get_elem? fields i ≡ some field
    → field.oneof_index ≡ some k
    → find field.name entries ≡ some v
    → get_elem? row k ≡ some (some i)

-- Two fields of one name are the same field.
abbrev pub NamesDiffer : List HandlerField → Type 0
NamesDiffer fields =
    (i j : ℕ) (a b : HandlerField)
    → get_elem? fields i ≡ some a
    → get_elem? fields j ≡ some b
    → a.name ≡ b.name
    → i ≡ j

find-ensure_entry :
    (j hash name : ℕ) (h : Heap)
    → (name == j) ≡ false
    → find j ((ensure_entry hash name h).hashes hash) ≡ find j (h.hashes hash)
find-ensure_entry j hash name h ne = elim (Option-cases (find name (h.hashes hash))) [
  | inl missing ↦
      rw (missing, ensure_entry) (ground (arith, ne, find-assign j name undef (h.hashes hash)))
  | inr (w, found) ↦ rw (found, ensure_entry) refl
]

==_eq : (a b : ℕ) → (a == b) ≡ true → a ≡ b
==_eq a b e = ground (arith, e)

other_name :
    (fields : List HandlerField) (seen i j : ℕ) (other a : HandlerField)
    → get_elem? fields seen ≡ some other
    → seen ≡ i
    → get_elem? fields i ≡ some a
    → a.name ≡ j
    → (other.name == j) ≡ false
    → ⊥
other_name fields seen i j other a there is at_i same kept =
    let one : other ≡ a = some-injective _ _ (sym there ∙ ap (get_elem? fields) is ∙ at_i) in
    let named : other.name ≡ j = ap (λ (f : HandlerField). f.name) one ∙ same in
    ground (arith, named, kept)

-- What is left of the entries when another member that was seen before is deleted: an entry that is
-- still there was there before, and is not that member's.
delete_other-kept :
    (fields : List HandlerField) (seen : Option ℕ) (index hash : ℕ) (h h' : Heap) (j : ℕ) (v : Sv)
    → Distinct (keys_of (h.hashes hash))
    → delete_other fields seen index hash h ≡ some h'
    → find j (h'.hashes hash) ≡ some v
    → (find j (h.hashes hash) ≡ some v)
      × ((i : ℕ) (a : HandlerField)
          → seen ≡ some i
          → (i == index) ≡ false
          → get_elem? fields i ≡ some a
          → a.name ≢ j)
unfolding delete_other
delete_other-kept fields none index hash h h' j v d e f = (
  ap (λ (x : Heap). find j (x.hashes hash)) (some-injective _ _ e) ∙ f,
  λ i a none_seen. cc none_seen,
)
delete_other-kept fields (some seen) index hash h h' j v d e f = elim (Bool-cases (seen == index)) [
  | inl same ↦ (
    ap (λ (x : Heap). find j (x.hashes hash)) (some-injective _ _ (rw same at e)) ∙ f,
    λ i a is other. ground (arith, is, other, same),
  )
  | inr differ ↦ >>=-elim (get_elem? fields seen) _ (rw differ at e) λ other there e1.
      let g : find j (erase other.name (h.hashes hash)) ≡ some v =
        rw (update_same h.hashes hash (erase other.name (h.hashes hash))) at
          (ap (λ (x : Heap). find j (x.hashes hash)) (some-injective _ _ e1) ∙ f) in
      let g' = sym (find-erase j other.name (h.hashes hash) d) ∙ g in
      elim (Bool-cases (other.name == j)) [
        | inl deleted ↦ cc (rw deleted at g')
        | inr kept ↦ (
          rw kept at g',
          λ i a is ne at_i same.
              other_name fields seen i j other a there (some-injective _ _ is) at_i same kept,
        )
      ]
]

-- The fields of a mapper, and one of them.
module _ (table : ℕ → HandlerMapper) (fields : List HandlerField) (differ : NamesDiffer fields)
    (index hash : ℕ) (field : HandlerField) (at_index : get_elem? fields index ≡ some field) where
  same_oneof_index :
      (i k k' : ℕ) (f : HandlerField)
      → index ≡ i
      → get_elem? fields i ≡ some f
      → field.oneof_index ≡ some k
      → f.oneof_index ≡ some k'
      → k ≡ k'
  same_oneof_index i k k' f is at_i grouped grouped' =
      let one : field ≡ f = some-injective _ _ (sym at_index ∙ ap (get_elem? fields) is ∙ at_i) in
      some-injective _ _ (sym grouped ∙ ap (λ (g : HandlerField). g.oneof_index) one ∙ grouped')

  not_index :
      (i : ℕ) (f : HandlerField)
      → get_elem? fields i ≡ some f
      → (field.name == f.name) ≡ false
      → (i == index) ≡ false
  not_index i f at_i other = elim (Bool-cases (i == index)) [
    | inr differs ↦ differs
    | inl same ↦
        let one : field ≡ f =
          some-injective _ _
            (sym at_index ∙ ap (get_elem? fields) (sym (==_eq i index same)) ∙ at_i) in
        let named : field.name ≡ f.name = ap (λ (g : HandlerField). g.name) one in
        absurd (ground (arith, named, other))
  ]

  seen_is :
      (row : List (Option ℕ)) (k k' i : ℕ) (seen : Option ℕ)
      → k ≡ k'
      → get_elem? row k ≡ some seen
      → get_elem? row k' ≡ some (some i)
      → seen ≡ some i
  seen_is row k k' i seen same at_k before =
      some-injective _ _ (sym at_k ∙ ap (get_elem? row) same ∙ before)

  after_note-OneMember :
      (k : ℕ) (row : List (Option ℕ)) (seen : Option ℕ) (h h1 : Heap)
      → field.oneof_index ≡ some k
      → Distinct (keys_of (h.hashes hash))
      → OneMember fields row (h.hashes hash)
      → get_elem? row k ≡ some seen
      → delete_other fields seen index hash h ≡ some h1
      → OneMember fields (set row k (some index)) ((ensure_entry hash field.name h1).hashes hash)
  after_note-OneMember k row seen h h1 grouped d one at_k deleted i k' f v at_i grouped' there =
      elim (Bool-cases (field.name == f.name)) [
        | inl same ↦
            let is : index ≡ i = differ index i field f at_index at_i (ground (arith, same)) in
            let is_k = same_oneof_index i k k' f is at_i grouped grouped' in
            ground (
              arith,
              is,
              is_k,
              get_elem?-set row k k' (some index) (get_elem?-bound row k seen at_k),
            )
        | inr other ↦
            let kept =
              delete_other-kept fields seen index hash h h1 f.name v d deleted
                (sym (find-ensure_entry f.name hash field.name h1 other) ∙ there) in
            let before = one i k' f v at_i grouped' kept.0 in
            elim (Bool-cases (k == k')) [
              | inl its_own ↦ absurd (
                  kept.1 i f (seen_is row k k' i seen (==_eq k k' its_own) at_k before)
                    (not_index i f at_i other) at_i refl)
              | inr elsewhere ↦ ground (
                arith,
                elsewhere,
                before,
                get_elem?-set row k k' (some index) (get_elem?-bound row k seen at_k),
              )
            ]
      ]

  back-set_back : {A : Type 0} (y : A) (xs ys : List A) → set_back y xs ≡ some ys → back ys ≡ some y
  back-set_back y [] ys e = cc e
  back-set_back y (x ∷ xs) ys e = ap back (sym (some-injective _ _ e))

  -- The target is the field's entry, the vector has the field for its oneof, and every member of a
  -- oneof with an entry is the one of the vector.
  abbrev pub Noted : ℕ → List (Option ℕ) → Target × DecoderHandlers → Type 0
  Noted k row r =
      (r.0 ≡ entry hash field.name)
      × (back r.1.seen_oneof ≡ some (set row k (some index)))
      × OneMember fields (set row k (some index)) (r.1.heap.hashes hash)

  -- `get_target` keeps it so: a field with an entry in the hash gets its entry, and if every member
  -- of a oneof with an entry was the one seen, that is so again, with this field for its own oneof;
  -- so one member at most has an entry. The names of the fields differ, and so do the hash's keys.
  pub get_target-OneMember :
      (k m : ℕ) (row : List (Option ℕ)) (s : DecoderHandlers) (r : Target × DecoderHandlers)
      → back s.mappers ≡ some m
      → (table m).fields ≡ fields
      → field.field_target ≡ target_hash_item
      → field.oneof_index ≡ some k
      → back s.items ≡ some (hv hash)
      → back s.seen_oneof ≡ some row
      → Distinct (keys_of (s.heap.hashes hash))
      → OneMember fields row (s.heap.hashes hash)
      → get_target table index s ≡ some r
      → Noted k row r
  unfolding get_target target_of note_oneof
  get_target-OneMember k m row s r mapper its_fields target grouped items seen_row d one e =
      let noted = rw (mapper, its_fields, at_index, target, grouped, items) at e in
      >>=-elim (note_oneof fields (some k) index hash s) _ noted λ s1 steps last.
        >>=-elim (get_elem? row k) _ (rw seen_row at steps) λ seen at_k e1.
          >>=-elim (delete_other fields seen index hash s.heap) _ e1 λ h1 deleted e2.
            >>=-elim (set_back (set row k (some index)) s.seen_oneof) _ e2 λ rows put e3.
              subst (Noted k row) (some-injective _ _ last) (
                subst
                  (λ (x : DecoderHandlers). Noted k row (
                    entry hash field.name,
                    record x { heap = ensure_entry hash field.name x.heap },
                  ))
                  (some-injective _ _ e3)
                  (
                    refl,
                    back-set_back (set row k (some index)) s.seen_oneof rows put,
                    after_note-OneMember k row seen s.heap h1 grouped d one at_k deleted,
                  ))
