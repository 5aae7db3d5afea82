-- ===== src/Dynamic/Packages/Reach.antt =====
-- What `map_message_prefix` of src/dynamic.cpp maps.
use google_protobuf_dynamic.Common.{
  ℕ, zero, suc, ◌≡◌, refl, sym, ap, subst, ◌==◌, if◌then◌else◌, Bool, true, false, ◌||◌, Option,
  none, some, List, [], ◌∷◌, ◌>>=◌, arith, >>=-elim, Bool-cases, inl, inr,
}
use mathlib.Core.Option.{some-injective}
use google_protobuf_dynamic.Common.Sorting.{contains}
use google_protobuf_dynamic.Dynamic.Options.{MappingOptions}
use google_protobuf_dynamic.Dynamic.Packages.{
  FieldKind, field_message, field_enum, field_other, DescriptorPool, Registry, Walk, went, croaked,
  Walked, map_message, map_enum, enter_enum, visit_fields, map_after_fields,
  map_message_prefix_recursive, map_message_prefix, with_registry, and_then, is_remapped,
  pbname_to_package,
}

-- A field of the list refers to the message.
abbrev pub refers : ℕ → List FieldKind → Bool
refers m [] = false
refers m (field_message name ∷ fields) = m == name || refers m fields
refers m (field_enum name ∷ fields) = refers m fields
refers m (field_other ∷ fields) = refers m fields

module _ (pool : DescriptorPool) (prefix : List ℕ) (options : MappingOptions) where
  -- The messages that a message refers to, in any number of steps.
  pub data Reachable : ℕ → ℕ → Type 0 where
    itself : {a : ℕ} → Reachable a a
    step : {a b c : ℕ} → Reachable a b → refers c (pool.fields b) ≡ true → Reachable a c

  -- What a part of the walk does: no name and no mapped message is lost; a message that was entered
  -- on the way is mapped, and so is entered every message that it refers to.
  abbrev Walks : Walked → Walked → Type 0
  Walks s t =
      ((x : ℕ) → contains x s.recursed_names ≡ true → contains x t.recursed_names ≡ true)
      × ((x : ℕ)
          → contains x s.registry.descriptor_map ≡ true
          → contains x t.registry.descriptor_map ≡ true)
      × ((x : ℕ)
          → contains x s.recursed_names ≡ false
          → contains x t.recursed_names ≡ true
          → (contains x t.registry.descriptor_map ≡ true)
            × ((y : ℕ) → refers y (pool.fields x) ≡ true → contains y t.recursed_names ≡ true))

  Walks-refl : (s : Walked) → Walks s s
  Walks-refl s = (λ x h. h, λ x h. h, λ x old new. cc (old, new))

  Walks-trans : (s t u : Walked) → Walks s t → Walks t u → Walks s u
  Walks-trans s t u a b = (
    λ x h. b.0 x (a.0 x h),
    λ x h. b.1 x (a.1 x h),
    λ x old new. elim (Bool-cases (contains x t.recursed_names)) [
      | inl early ↦
          let (mapped, entered) = a.2 x old early in (b.1 x mapped, λ y r. b.0 y (entered y r))
      | inr late ↦ b.2 x late new
    ],
  )

  went-elim :
      {C : Type 0} (r : Option (Walk Walked)) (next : Walked → Option (Walk Walked)) (u : Walked)
      → (r >>= λ w. and_then w next) ≡ some (went u)
      → ((t : Walked) → r ≡ some (went t) → next t ≡ some (went u) → C)
      → C
  went-elim none next u e k = cc e
  went-elim (some (went t)) next u e k = k t refl e
  went-elim (some (croaked c)) next u e k = cc e

  went_state : Walk Walked → Walked → Walked
  went_state (went t) s = t
  went_state (croaked c) s = s

  same_state : (s t : Walked) → some (went s) ≡ some (went t) → s ≡ t
  unfolding went_state
  same_state s t e = ap (λ w. went_state w s) (some-injective _ _ e)

  -- A walk that is skipped, or not.
  skip-elim :
      {C : Type 0} (skipped : Bool) (s t : Walked) (o : Option (Walk Walked))
      → (if skipped then some (went s) else o) ≡ some (went t)
      → (skipped ≡ true → s ≡ t → C)
      → (skipped ≡ false → o ≡ some (went t) → C)
      → C
  skip-elim true s t o e j k = j refl (same_state s t e)
  skip-elim false s t o e j k = k refl e

  is_name : (name y : ℕ) → (y == name) ≡ true → name ≡ y
  is_name name y e = ground (arith, e)

  -- A walk that changes neither the names nor the mapped messages.
  still-Walks :
      (s t : Walked)
      → t.recursed_names ≡ s.recursed_names
      → t.registry.descriptor_map ≡ s.registry.descriptor_map
      → Walks s t
  still-Walks s t names mapped =
      (λ x h. rw names h, λ x h. rw mapped h, λ x old new. cc (old, rw names at new))

  map_enum-still :
      (name : ℕ) (perl_package : List ℕ) (names : List ℕ) (r : Registry) (t : Walked)
      → with_registry names (map_enum options name perl_package r) ≡ some (went t)
      → (t.recursed_names ≡ names) × (t.registry.descriptor_map ≡ r.descriptor_map)
  unfolding map_enum
  map_enum-still name perl_package names r t e =
      elim (Bool-cases (is_remapped options perl_package r)) [
        | inl remapped ↦ cc (rw remapped at e)
        | inr fine ↦ elim (Bool-cases (contains name r.mapped_enums)) [
          | inl before ↦ cc (rw (fine, before) at e)
          | inr new ↦
              let same = same_state _ t (rw (fine, new) at e) in
              (
                ap (λ (w : Walked). w.recursed_names) (sym same),
                ap (λ (w : Walked). w.registry.descriptor_map) (sym same),
              )
        ]
      ]

  enter_enum-Walks :
      (name : ℕ) (s t : Walked) → enter_enum pool prefix options name s ≡ some (went t) → Walks s t
  unfolding enter_enum
  enter_enum-Walks name s t e =
      skip-elim (contains name s.registry.mapped_enums) s t _ e
        (λ before same. subst (Walks s) same (Walks-refl s))
        λ new more.
          >>=-elim (pbname_to_package (pool.enum_name name) prefix) _ more λ perl_package _ rest.
            let (names, map) =
              map_enum-still name perl_package s.recursed_names s.registry t rest in
            still-Walks s t names map

  map_message-maps :
      (d : ℕ) (perl_package : List ℕ) (names : List ℕ) (r : Registry) (t : Walked)
      → with_registry names (map_message options d perl_package r) ≡ some (went t)
      → (t.recursed_names ≡ names) × (t.registry.descriptor_map ≡ d ∷ r.descriptor_map)
  unfolding map_message
  map_message-maps d perl_package names r t e =
      elim (Bool-cases (is_remapped options perl_package r)) [
        | inl remapped ↦ cc (rw remapped at e)
        | inr fine ↦ elim (Bool-cases (contains d r.descriptor_map)) [
          | inl before ↦ cc (rw (fine, before) at e)
          | inr new ↦
              let same = same_state _ t (rw (fine, new) at e) in
              (
                ap (λ (w : Walked). w.recursed_names) (sym same),
                ap (λ (w : Walked). w.registry.descriptor_map) (sym same),
              )
        ]
      ]

  -- At its end a message is mapped, and the others stay mapped.
  map_after_fields-maps :
      (d : ℕ) (s t : Walked)
      → map_after_fields pool prefix options d s ≡ some (went t)
      → (t.recursed_names ≡ s.recursed_names)
        × (contains d t.registry.descriptor_map ≡ true)
        × ((x : ℕ)
            → contains x s.registry.descriptor_map ≡ true
            → contains x t.registry.descriptor_map ≡ true)
  unfolding map_after_fields
  map_after_fields-maps d s t e =
      skip-elim (contains d s.registry.descriptor_map) s t _ e
        (λ before same. (
          ap (λ (w : Walked). w.recursed_names) (sym same),
          subst (λ (w : Walked). contains d w.registry.descriptor_map ≡ true) same before,
          λ x h. subst (λ (w : Walked). contains x w.registry.descriptor_map ≡ true) same h,
        ))
        λ new more.
          >>=-elim (pbname_to_package (pool.message_name d) prefix) _ more λ perl_package _ rest.
            let (names, map) = map_message-maps d perl_package s.recursed_names s.registry t rest in
            (names, rw map (ground arith), λ x h. rw map (ground (arith, h)))

  visit_fields-Walks :
      (visit : ℕ → Walked → Option (Walk Walked)) (fields : List FieldKind) (s t : Walked)
      → ((d : ℕ) (a b : Walked)
          → visit d a ≡ some (went b)
          → Walks a b × (contains d b.recursed_names ≡ true))
      → visit_fields pool prefix options visit fields s ≡ some (went t)
      → Walks s t × ((y : ℕ) → refers y fields ≡ true → contains y t.recursed_names ≡ true)
  unfolding visit_fields
  visit_fields-Walks visit [] s t v e =
      (subst (Walks s) (same_state s t e) (Walks-refl s), λ y r. cc r)
  visit_fields-Walks visit (field_message name ∷ fields) s t v e =
      went-elim (visit name s) (visit_fields pool prefix options visit fields) t e λ a entered rest.
        let (first, there) = v name s a entered in
        let (walks, all) = visit_fields-Walks visit fields a t v rest in
        (
          Walks-trans s a t first walks,
          λ y r. elim (Bool-cases (y == name)) [
            | inl same ↦
                subst (λ z. contains z t.recursed_names ≡ true) (is_name name y same)
                  (walks.0 name there)
            | inr other ↦ all y (rw other at r)
          ],
        )
  visit_fields-Walks visit (field_enum name ∷ fields) s t v e =
      went-elim (enter_enum pool prefix options name s)
        (visit_fields pool prefix options visit fields) t e
        λ a entered rest.
          let (walks, all) = visit_fields-Walks visit fields a t v rest in
          (Walks-trans s a t (enter_enum-Walks name s a entered) walks, all)
  visit_fields-Walks visit (field_other ∷ fields) s t v e = visit_fields-Walks visit fields s t v e

  map_message_prefix_recursive-Walks :
      (fuel d : ℕ) (s t : Walked)
      → map_message_prefix_recursive pool prefix options fuel d s ≡ some (went t)
      → Walks s t × (contains d t.recursed_names ≡ true)
  unfolding map_message_prefix_recursive
  map_message_prefix_recursive-Walks zero d s t e = cc e
  map_message_prefix_recursive-Walks (suc fuel) d s u e =
      elim (Bool-cases (contains d s.recursed_names)) [
        | inl before ↦
            subst (λ (w : Walked). Walks s w × (contains d w.recursed_names ≡ true))
              (same_state s u (rw before at e)) (Walks-refl s, before)
        | inr new ↦
            went-elim _ (map_after_fields pool prefix options d) u (rw new at e) λ t walked left.
              let entered : Walked = record s { recursed_names = d ∷ s.recursed_names } in
              let (walks, all) =
                visit_fields-Walks (map_message_prefix_recursive pool prefix options fuel)
                  (pool.fields d) entered t (map_message_prefix_recursive-Walks fuel) walked in
              let (names, mapped, kept) = map_after_fields-maps d t u left in
              (
                (
                  λ x h. rw names (walks.0 x (ground (arith, h))),
                  λ x h. kept x (walks.1 x h),
                  λ x old late. elim (Bool-cases (x == d)) [
                    | inl same ↦ (
                      subst (λ z. contains z u.registry.descriptor_map ≡ true) (is_name d x same)
                          mapped,
                      λ y r. rw names (
                          all y (
                            subst (λ z. refers y (pool.fields z) ≡ true) (sym (is_name d x same))
                              r)),
                    )
                    | inr other ↦
                        let (map, next) =
                          walks.2 x (ground (arith, old, other)) (rw names at late) in
                        (kept x map, λ y r. rw names (next y r))
                  ],
                ),
                rw names (walks.0 d (ground arith)),
              )
      ]

  reached :
      (message : ℕ) (t : Walked)
      → contains message t.recursed_names ≡ true
      → ((x : ℕ)
          → contains x t.recursed_names ≡ true
          → (y : ℕ) → refers y (pool.fields x) ≡ true
          → contains y t.recursed_names ≡ true)
      → {x : ℕ} → Reachable message x
      → contains x t.recursed_names ≡ true
  reached message t there next itself = there
  reached message t there next (step {b = b} {c = c} path r) =
      next b (reached message t there next path) c r

  -- When the walk comes to its end without a refusal, every message that can be reached from the
  -- message through fields is mapped, and so is what was mapped before.
  pub map_message_prefix-Reachable :
      (fuel message : ℕ) (r : Registry) (t : Walked)
      → map_message_prefix pool prefix options fuel message r ≡ some (went t)
      → ((x : ℕ) → Reachable message x → contains x t.registry.descriptor_map ≡ true)
        × ((x : ℕ)
            → contains x r.descriptor_map ≡ true
            → contains x t.registry.descriptor_map ≡ true)
  unfolding map_message_prefix
  map_message_prefix-Reachable fuel message r t e =
      let (walks, there) =
        map_message_prefix_recursive-Walks fuel message
          (record { recursed_names = []; registry = r }) t e in
      (
        λ x path. (walks.2 x refl (reached message t there (λ z h. (walks.2 z refl h).1) path)).0,
        walks.1,
      )
