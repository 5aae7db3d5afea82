-- ===== src/Dynamic/Packages/Termination.antt =====
-- That the walk of `map_message_prefix`, src/dynamic.cpp, ends.
use google_protobuf_dynamic.Common.{
  ℕ, zero, suc, ◌≤◌, ◌<◌, ◌≡◌, refl, ap, if◌then◌else◌, Bool, true, false, Option, none, some, List,
  [], ◌∷◌, ◌>>=◌, length, arith, Bool-cases, inl, inr,
}
use google_protobuf_dynamic.Common.Sorting.{contains}
use google_protobuf_dynamic.Dynamic.Options.{MappingOptions}
use google_protobuf_dynamic.Dynamic.Packages.Names.{pbname_to_package-colons_for_dots}
use google_protobuf_dynamic.Dynamic.Packages.{
  pbname_to_package, FieldKind, field_message, field_enum, field_other, DescriptorPool, Registry,
  Walk, went, croaked, Walked, map_message, map_enum, enter_enum, visit_fields, map_after_fields,
  map_message_prefix_recursive, map_message_prefix, with_registry, and_then,
}

-- How many of the messages were not entered yet.
abbrev pub unvisited : List ℕ → (names : List ℕ) → ℕ
unvisited [] names = 0
unvisited (m ∷ messages) names =
    if contains m names then unvisited messages names else suc (unvisited messages names)

abbrev pub Within : List ℕ → List ℕ → Type 0
Within a b = (x : ℕ) → contains x a ≡ true → contains x b ≡ true

-- The messages that fields refer to are in the list.
abbrev pub AllKnown : List ℕ → List FieldKind → Type 0
AllKnown messages [] = Unit
AllKnown messages (field_message name ∷ fields) =
    (contains name messages ≡ true) × AllKnown messages fields
AllKnown messages (field_enum name ∷ fields) = AllKnown messages fields
AllKnown messages (field_other ∷ fields) = AllKnown messages fields

unvisited-Within :
    (messages a b : List ℕ) → Within a b → unvisited messages b ≤ unvisited messages a
unvisited-Within [] a b w = omega arith
unvisited-Within (m ∷ messages) a b w = ground (arith, w m, unvisited-Within messages a b w)

unvisited-enter :
    (messages names : List ℕ) (d : ℕ)
    → contains d messages ≡ true
    → contains d names ≡ false
    → unvisited messages (d ∷ names) < unvisited messages names
unvisited-enter [] names d known new = cc known
unvisited-enter (m ∷ messages) names d known new = ground (
  arith,
  known,
  new,
  unvisited-enter messages names d,
  unvisited-Within messages names (d ∷ names) (λ x h. ground (arith, h)),
)

module _ (pool : DescriptorPool) (prefix : List ℕ) (options : MappingOptions)
    (messages : List ℕ) where
  -- A result is there, and where it is a state it has at least the names of the state before.
  abbrev pub Ends : Option (Walk Walked) → List ℕ → Type 0
  Ends none names = ⊥
  Ends (some (went s)) names = Within names s.recursed_names
  Ends (some (croaked c)) names = Unit

  Ends-and_then :
      (r : Option (Walk Walked)) (next : Walked → Option (Walk Walked)) (names : List ℕ)
      → Ends r names
      → ((s : Walked) → Within names s.recursed_names → Ends (next s) names)
      → Ends (r >>= λ w. and_then w next) names
  Ends-and_then none next names e k = e
  Ends-and_then (some (went s)) next names e k = k s e
  Ends-and_then (some (croaked c)) next names e k = tt

  result :
      (o : Option (Walk Walked)) (names : List ℕ) → Ends o names → (w : Walk Walked) × (o ≡ some w)
  result none names e = absurd e
  result (some w) names e = (w, refl)

  registry-Ends : (w : Walk Registry) (names : List ℕ) → Ends (with_registry names w) names
  registry-Ends (went r) names = λ x h. h
  registry-Ends (croaked c) names = tt

  skipped-Ends :
      (skipped : Bool) (s : Walked) (name : List ℕ) (step : List ℕ → Registry → Walk Registry)
      → Ends
          (if skipped
            then some (went s)
            else (pbname_to_package name prefix >>= λ perl_package.
                with_registry s.recursed_names (step perl_package s.registry)))
          s.recursed_names
  skipped-Ends true s name step = λ x h. h
  skipped-Ends false s name step =
      rw (pbname_to_package-colons_for_dots name prefix)
        (registry-Ends (step _ s.registry) s.recursed_names)

  enum-Ends :
      (name : ℕ) (s : Walked) → Ends (enter_enum pool prefix options name s) s.recursed_names
  unfolding enter_enum
  enum-Ends name s =
      skipped-Ends (contains name s.registry.mapped_enums) s (pool.enum_name name)
        (map_enum options name)

  leave-Ends :
      (d : ℕ) (s : Walked) → Ends (map_after_fields pool prefix options d s) s.recursed_names
  unfolding map_after_fields
  leave-Ends d s =
      skipped-Ends (contains d s.registry.descriptor_map) s (pool.message_name d)
        (map_message options d)

  -- More names before ask for more names after.
  Ends-weaken : (r : Option (Walk Walked)) (a b : List ℕ) → Within a b → Ends r b → Ends r a
  Ends-weaken none a b w e = e
  Ends-weaken (some (went s)) a b w e = λ x h. e x (w x h)
  Ends-weaken (some (croaked c)) a b w e = tt

  visit_fields-Ends :
      (visit : ℕ → Walked → Option (Walk Walked)) (fuel : ℕ) (fields : List FieldKind) (s : Walked)
      → ((d : ℕ) (t : Walked)
          → contains d messages ≡ true
          → unvisited messages t.recursed_names < fuel
          → Ends (visit d t) t.recursed_names)
      → AllKnown messages fields
      → unvisited messages s.recursed_names < fuel
      → Ends (visit_fields pool prefix options visit fields s) s.recursed_names
  unfolding visit_fields
  visit_fields-Ends visit fuel [] s v known l = λ x h. h
  visit_fields-Ends visit fuel (field_message name ∷ fields) s v known l =
      Ends-and_then (visit name s) _ s.recursed_names (v name s known.0 l) λ t w.
        Ends-weaken _ s.recursed_names t.recursed_names w (
          visit_fields-Ends visit fuel fields t v known.1
            (omega (arith, l, unvisited-Within messages s.recursed_names t.recursed_names w)))
  visit_fields-Ends visit fuel (field_enum name ∷ fields) s v known l =
      Ends-and_then (enter_enum pool prefix options name s) _ s.recursed_names (enum-Ends name s)
        λ t w. Ends-weaken _ s.recursed_names t.recursed_names w (
          visit_fields-Ends visit fuel fields t v known
            (omega (arith, l, unvisited-Within messages s.recursed_names t.recursed_names w)))
  visit_fields-Ends visit fuel (field_other ∷ fields) s v known l =
      visit_fields-Ends visit fuel fields s v known l

  map_message_prefix_recursive-Ends :
      (closed : (d : ℕ) → contains d messages ≡ true → AllKnown messages (pool.fields d))
      (fuel d : ℕ) (s : Walked)
      → contains d messages ≡ true
      → unvisited messages s.recursed_names < fuel
      → Ends (map_message_prefix_recursive pool prefix options fuel d s) s.recursed_names
  unfolding map_message_prefix_recursive
  map_message_prefix_recursive-Ends closed zero d s known l = absurd (omega (arith, l))
  map_message_prefix_recursive-Ends closed (suc fuel) d s known l =
      elim (Bool-cases (contains d s.recursed_names)) [
        | inl before ↦ rw before (λ x h. h)
        | inr new ↦
            let entered : Walked = record s { recursed_names = d ∷ s.recursed_names } in
            rw new (
              Ends-weaken _ s.recursed_names (d ∷ s.recursed_names) (λ x h. ground (arith, h))
                (Ends-and_then
                  (visit_fields pool prefix options
                    (map_message_prefix_recursive pool prefix options fuel) (pool.fields d) entered)
                  (map_after_fields pool prefix options d) (d ∷ s.recursed_names)
                  (visit_fields-Ends (map_message_prefix_recursive pool prefix options fuel) fuel
                    (pool.fields d) entered
                    (λ m t. map_message_prefix_recursive-Ends closed fuel m t) (closed d known)
                    (omega (arith, l, unvisited-enter messages s.recursed_names d known new)))
                  (λ t w.
                    Ends-weaken _ (d ∷ s.recursed_names) t.recursed_names w (leave-Ends d t))))
      ]

  unvisited-length : (l : List ℕ) → unvisited l [] ≡ length l
  unvisited-length [] = refl
  unvisited-length (m ∷ l) = ap suc (unvisited-length l)

  -- The walk over the messages that a message refers to ends, however they refer to each other: a
  -- depth of the number of messages and one is enough for a result, which is a state or a refusal.
  -- The list has the message, and every message that a field of one of its messages refers to.
  pub map_message_prefix-ends :
      (fuel message : ℕ) (r : Registry)
      → ((d : ℕ) → contains d messages ≡ true → AllKnown messages (pool.fields d))
      → contains message messages ≡ true
      → length messages < fuel
      → (w : Walk Walked) × (map_message_prefix pool prefix options fuel message r ≡ some w)
  unfolding map_message_prefix
  map_message_prefix-ends fuel message r closed known l = result _ [] (
      map_message_prefix_recursive-Ends closed fuel message
        (record { recursed_names = []; registry = r }) known
        (omega (arith, l, unvisited-length messages)))
