-- ===== src/Dynamic/Packages/Names.antt =====
-- The names of Perl packages that src/dynamic.cpp makes of protobuf names.
use google_protobuf_dynamic.Common.{
  ℕ, zero, suc, ◌<◌, ◌≡◌, ◌⊎◌, ◌↔◌, refl, sym, ◌∙◌, ap, subst, ◌==◌, ltb, true, false, Option, none,
  some, List, [], ◌∷◌, ◌++◌, ◌>>=◌, length, arith, >>=-elim, Bool-cases, inl, inr, length-append,
  ltb→lt, lt→ltb,
}
use mathlib.Core.Option.{some-injective}
use mathlib.Core.List.{append_assoc}
use google_protobuf_dynamic.Mapper.FieldMap.{same_text}
use google_protobuf_dynamic.Mapper.FieldMap.Added.{same_text_refl, same_text_eq}
use google_protobuf_dynamic.Dynamic.Packages.{
  next_dot, join_parts, pbname_to_package, colons_for_dots, after_prefix, package_for,
}

-- What the parts around the next '.' make together.
abbrev rejoined : List ℕ × Option (List ℕ) → List ℕ
rejoined (part, none) = part
rejoined (part, some rest) = part ++ (58 ∷ 58 ∷ colons_for_dots rest)

abbrev Shorter : Option (List ℕ) → ℕ → Type 0
Shorter none n = Unit
Shorter (some rest) n = length rest < n

keep : (c : ℕ) (r : List ℕ × Option (List ℕ)) → rejoined (c ∷ r.0, r.1) ≡ c ∷ rejoined r
keep c (part, none) = refl
keep c (part, some rest) = refl

colons_for_dots-next_dot : (name : List ℕ) → rejoined (next_dot name) ≡ colons_for_dots name
unfolding next_dot colons_for_dots
colons_for_dots-next_dot [] = refl
colons_for_dots-next_dot (c ∷ name) = elim (Bool-cases (c == 46)) [
  | inl dot ↦ rw dot refl
  | inr other ↦
      rw other (keep c (next_dot name) ∙ ap (λ (l : List ℕ). c ∷ l) (colons_for_dots-next_dot name))
]

Shorter-suc : (o : Option (List ℕ)) (n : ℕ) → Shorter o n → Shorter o (suc n)
Shorter-suc none n l = tt
Shorter-suc (some rest) n l = omega (arith, l)

next_dot-Shorter : (name : List ℕ) → Shorter (next_dot name).1 (length name)
unfolding next_dot
next_dot-Shorter [] = tt
next_dot-Shorter (c ∷ name) = elim (Bool-cases (c == 46)) [
  | inl dot ↦ rw dot (omega arith)
  | inr other ↦ rw other (Shorter-suc _ (length name) (next_dot-Shorter name))
]

joined_at :
    (fuel : ℕ) (part : List ℕ) (o : Option (List ℕ))
    → ((rest : List ℕ) → o ≡ some rest → join_parts fuel rest ≡ some (colons_for_dots rest))
    → (elim o as (λ x. Option (List ℕ)) [
      | none ↦ some part
      | some after ↦ join_parts fuel after >>= λ joined. some (part ++ (58 ∷ 58 ∷ joined))
    ])
      ≡ some (rejoined (part, o))
joined_at fuel part none h = refl
joined_at fuel part (some rest) h = rw (h rest refl) refl

join_parts-colons_for_dots :
    (fuel : ℕ) (name : List ℕ)
    → length name < fuel
    → join_parts fuel name ≡ some (colons_for_dots name)
unfolding join_parts
join_parts-colons_for_dots zero name l = absurd (omega (arith, l))
join_parts-colons_for_dots (suc fuel) name l =
    joined_at fuel (next_dot name).0 (next_dot name).1 (λ rest e.
      join_parts-colons_for_dots fuel rest
        (omega (arith, l, subst (λ o. Shorter o (length name)) e (next_dot-Shorter name))))
    ∙ ap some (colons_for_dots-next_dot name)

-- The parts that `pbname_to_package` finds and joins make, for every name, the prefix, "::" and the
-- name with "::" for each '.', as `map_package_or_prefix` writes it one character at a time.
pub pbname_to_package-colons_for_dots :
    (pb_name perl_package_prefix : List ℕ)
    → pbname_to_package pb_name perl_package_prefix
      ≡ some (perl_package_prefix ++ (58 ∷ 58 ∷ colons_for_dots pb_name))
unfolding pbname_to_package
pbname_to_package-colons_for_dots pb_name perl_package_prefix =
    rw (join_parts-colons_for_dots (suc (length pb_name)) pb_name (omega arith)) refl

after_prefix-append : (prefix rest : List ℕ) → after_prefix prefix (prefix ++ rest) ≡ some rest
unfolding after_prefix
after_prefix-append [] rest = refl
after_prefix-append (p ∷ prefix) rest = ground (arith, after_prefix-append prefix rest)

after_prefix-is_append :
    (prefix name rest : List ℕ) → after_prefix prefix name ≡ some rest → name ≡ prefix ++ rest
unfolding after_prefix
after_prefix-is_append [] name rest e = some-injective _ _ e
after_prefix-is_append (p ∷ prefix) [] rest e = cc e
after_prefix-is_append (p ∷ prefix) (c ∷ name) rest e =
    ground (arith, e, after_prefix-is_append prefix name rest)

same_text-longer : (l : List ℕ) (c : ℕ) (rest : List ℕ) → same_text l (l ++ (c ∷ rest)) ≡ false
unfolding same_text
same_text-longer [] c rest = refl
same_text-longer (x ∷ l) c rest = ground (arith, same_text-longer l c rest)

-- The file's package is the given one, or goes on after it and a '.'.
abbrev pub Exact : (given file_package perl_prefix result : List ℕ) → Type 0
Exact given file_package perl_prefix result = (file_package ≡ given) × (result ≡ perl_prefix)

abbrev pub Below : (given file_package perl_prefix result : List ℕ) → Type 0
Below given file_package perl_prefix result =
    (c : ℕ) × (rest : List ℕ) × (file_package ≡ given ++ (46 ∷ c ∷ rest))
    × (result ≡ perl_prefix ++ (58 ∷ 58 ∷ colons_for_dots (c ∷ rest)))

lower_package :
    (given file_package rest perl_prefix result : List ℕ)
    → suc (length given) < length file_package
    → file_package ≡ (given ++ (46 ∷ [])) ++ rest
    → some (perl_prefix ++ (58 ∷ 58 ∷ colons_for_dots rest)) ≡ some result
    → Below given file_package perl_prefix result
lower_package given file_package [] perl_prefix result l e r = absurd (
    omega
      (arith, l, ap length e, length-append (given ++ (46 ∷ [])) [], length-append given (46 ∷ [])))
lower_package given file_package (c ∷ rest) perl_prefix result l e r =
    (c, rest, e ∙ append_assoc given (46 ∷ []) (c ∷ rest), sym (some-injective _ _ r))

package_for-cases :
    (given file_package perl_prefix result : List ℕ)
    → package_for given true file_package perl_prefix ≡ some result
    → Exact given file_package perl_prefix result ⊎ Below given file_package perl_prefix result
unfolding package_for
package_for-cases given file_package perl_prefix result e =
    elim (Bool-cases (same_text given file_package)) [
      | inl same ↦
          inl (sym (same_text_eq given file_package same), sym (some-injective _ _ (rw same at e)))
      | inr other ↦ elim (Bool-cases (ltb (suc (length given)) (length file_package))) [
        | inl longer ↦
            >>=-elim (after_prefix (given ++ (46 ∷ [])) file_package) _ (rw (other, longer) at e)
              λ rest found last. inr (
                lower_package given file_package rest perl_prefix result (ltb→lt _ _ longer)
                  (after_prefix-is_append (given ++ (46 ∷ [])) file_package rest found) last)
        | inr short ↦ cc (rw (other, short) at e)
      ]
    ]

package_for-below :
    (given : List ℕ) (c : ℕ) (rest perl_prefix : List ℕ)
    → package_for given true (given ++ (46 ∷ c ∷ rest)) perl_prefix
      ≡ some (perl_prefix ++ (58 ∷ 58 ∷ colons_for_dots (c ∷ rest)))
unfolding package_for
package_for-below given c rest perl_prefix =
    rw
      (
        same_text-longer given 46 (c ∷ rest),
        lt→ltb (suc (length given)) (length (given ++ (46 ∷ c ∷ rest)))
            (omega (arith, length-append given (46 ∷ c ∷ rest))),
        sym (append_assoc given (46 ∷ []) (c ∷ rest)),
        after_prefix-append (given ++ (46 ∷ [])) (c ∷ rest),
      )
      refl

package_for-given :
    (given perl_prefix : List ℕ) → package_for given true given perl_prefix ≡ some perl_prefix
unfolding package_for
package_for-given given perl_prefix = rw (same_text_refl given) refl

package_for-found :
    (given file_package perl_prefix result : List ℕ)
    → Exact given file_package perl_prefix result ⊎ Below given file_package perl_prefix result
    → package_for given true file_package perl_prefix ≡ some result
package_for-found given file_package perl_prefix result (inl (e, r)) =
    ap (λ f. package_for given true f perl_prefix) e
    ∙ package_for-given given perl_prefix
    ∙ ap some (sym r)
package_for-found given file_package perl_prefix result (inr (c, rest, e, r)) =
    ap (λ f. package_for given true f perl_prefix) e
    ∙ package_for-below given c rest perl_prefix
    ∙ ap some (sym r)

-- `map_package_prefix` takes a file exactly if its package is the given one, which is mapped to the
-- Perl prefix, or begins with it and a '.' and goes on, which is mapped to the prefix, "::" and the
-- rest with "::" for each '.'.
pub package_for_iff :
    (given file_package perl_prefix result : List ℕ)
    → (package_for given true file_package perl_prefix ≡ some result)
      ↔ (Exact given file_package perl_prefix result ⊎ Below given file_package perl_prefix result)
package_for_iff given file_package perl_prefix result = (
  package_for-cases given file_package perl_prefix result,
  package_for-found given file_package perl_prefix result,
)
