-- ===== src/Dynamic/Packages.antt =====
-- class Dynamic of src/dynamic.h and dynamic.cpp: `map_message`, `map_enum` and the walk of
-- `map_message_prefix` over the messages that a message refers to. A text is a list of characters; a
-- message or enumeration is the number of its full name. The constructor of Mapper is taken to
-- return.
pub mod Names
pub mod Termination
pub mod Reach
use google_protobuf_dynamic.Common.{
  ℕ, zero, suc, ◌==◌, if◌then◌else◌, Bool, true, false, not, ◌&&◌, ◌||◌, Option, none, some, List,
  [], ◌∷◌, ◌++◌, ◌>>=◌, length, ltb,
}
use google_protobuf_dynamic.Common.Sorting.{contains}
use google_protobuf_dynamic.Mapper.FieldMap.{same_text}
use google_protobuf_dynamic.Dynamic.Options.{MappingOptions}

pub data FieldKind : Type 0 where
  field_message field_enum : (name : ℕ) → FieldKind
  field_other : FieldKind

-- What the walk uses of the descriptors.
pub record DescriptorPool : Type 0 where
  pub message_name : ℕ → List ℕ
  pub enum_name : ℕ → List ℕ
  pub fields : ℕ → List FieldKind

-- The members of Dynamic, and Perl's packages: those that exist, those with a variable
-- `mapped_from`, and those with the methods of a message or enumeration.
pub record Registry : Type 0 where
  pub descriptor_map : List ℕ
  pub mapped_enums : List ℕ
  pub pending : List ℕ
  pub stashes : List (List ℕ)
  pub mapped_from : List (List ℕ)
  pub bound : List (List ℕ)

pub data Refusal : Type 0 where
  package_remapped : List ℕ → Refusal
  message_already_mapped enum_already_mapped : ℕ → Refusal

-- A function goes on with a new state, or croaks.
pub data Walk (S : Type 0) : Type 0 where
  went : S → Walk S
  croaked : Refusal → Walk S

unfoldable pub contains_text : List ℕ → List (List ℕ) → Bool
unfolding same_text
contains_text text [] = false
contains_text text (t ∷ texts) = same_text text t || contains_text text texts

abbrev starts_colon : List ℕ → Bool
starts_colon [] = false
starts_colon (c ∷ rest) = c == 58

-- The packages around a package: what stands before each "::" of the name, of which `seen` is done.
unfoldable pub outer_packages : (seen rest : List ℕ) → List (List ℕ)
outer_packages seen [] = []
outer_packages seen (c ∷ rest) =
    if c == 58 && starts_colon rest
    then seen ∷ outer_packages (seen ++ (c ∷ [])) rest
    else outer_packages (seen ++ (c ∷ [])) rest

-- `gv_stashpvn` with GV_ADD, which also makes the packages around a new one.
unfoldable pub add_stashes : (perl_package : List ℕ) → List (List ℕ) → List (List ℕ)
unfolding outer_packages
add_stashes perl_package stashes = perl_package ∷ (outer_packages [] perl_package ++ stashes)

unfoldable pub define_perl_names : MappingOptions → (perl_package : List ℕ) → Registry → Bool
unfolding contains_text
define_perl_names options perl_package r =
    not options.no_redefine_perl_names || not (contains_text perl_package r.stashes)

-- `check_package` croaks.
unfoldable pub is_remapped : MappingOptions → (perl_package : List ℕ) → Registry → Bool
unfolding define_perl_names contains_text
is_remapped options perl_package r =
    define_perl_names options perl_package r && contains_text perl_package r.mapped_from

unfoldable pub map_message :
    MappingOptions → (descriptor : ℕ) (perl_package : List ℕ) → Registry → Walk Registry
unfolding is_remapped define_perl_names add_stashes
map_message options descriptor perl_package r =
    if is_remapped options perl_package r
    then croaked (package_remapped perl_package)
    else (if contains descriptor r.descriptor_map
        then croaked (message_already_mapped descriptor)
        else went (record r {
          descriptor_map = descriptor ∷ r.descriptor_map;
          pending = descriptor ∷ r.pending;
          stashes = add_stashes perl_package r.stashes;
          mapped_from = perl_package ∷ r.mapped_from;
          bound =
              if define_perl_names options perl_package r then perl_package ∷ r.bound else r.bound;
        }))

unfoldable pub map_enum :
    MappingOptions → (descriptor : ℕ) (perl_package : List ℕ) → Registry → Walk Registry
unfolding is_remapped define_perl_names add_stashes
map_enum options descriptor perl_package r =
    if is_remapped options perl_package r
    then croaked (package_remapped perl_package)
    else (if contains descriptor r.mapped_enums
        then croaked (enum_already_mapped descriptor)
        else went (record r {
          mapped_enums = descriptor ∷ r.mapped_enums;
          stashes = add_stashes perl_package r.stashes;
          mapped_from = perl_package ∷ r.mapped_from;
          bound =
              if define_perl_names options perl_package r then perl_package ∷ r.bound else r.bound;
        }))

-- `find('.', last)`: what stands before the next '.', and what stands after it, if there is one.
unfoldable pub next_dot : (pb_name : List ℕ) → List ℕ × Option (List ℕ)
next_dot [] = ([], none)
next_dot (c ∷ pb_name) =
    if c == 46
    then ([], some pb_name)
    else (let (part, rest) = next_dot pb_name in (c ∷ part, rest))

-- The loop of `pbname_to_package`, for `fuel` rounds at most.
unfoldable pub join_parts : (fuel : ℕ) (pb_name : List ℕ) → Option (List ℕ)
unfolding next_dot
join_parts zero pb_name = none
join_parts (suc fuel) pb_name =
    let (part, rest) = next_dot pb_name in
    elim rest [
      | none ↦ some part
      | some after ↦ join_parts fuel after >>= λ joined. some (part ++ (58 ∷ 58 ∷ joined))
    ]

-- A round for each character, and one, are enough.
unfoldable pub pbname_to_package : (pb_name perl_package_prefix : List ℕ) → Option (List ℕ)
unfolding join_parts
pbname_to_package pb_name perl_package_prefix =
    join_parts (suc (length pb_name)) pb_name >>= λ joined.
    some (perl_package_prefix ++ (58 ∷ 58 ∷ joined))

-- The loop of `map_package_or_prefix` over the rest of a package's name.
unfoldable pub colons_for_dots : List ℕ → List ℕ
colons_for_dots [] = []
colons_for_dots (c ∷ rest) =
    if c == 46 then 58 ∷ 58 ∷ colons_for_dots rest else c ∷ colons_for_dots rest

-- `strncmp` with the length of the prefix, and what the name has after it; names have no NUL.
unfoldable pub after_prefix : (prefix name : List ℕ) → Option (List ℕ)
after_prefix [] name = some name
after_prefix (p ∷ prefix) [] = none
after_prefix (p ∷ prefix) (c ∷ name) = if p == c then after_prefix prefix name else none

-- The Perl package for a file, or none for a file that is passed over.
unfoldable pub package_for :
    (pb_package_or_prefix : List ℕ) (is_prefix : Bool) (file_package perl_package_prefix : List ℕ)
    → Option (List ℕ)
unfolding same_text after_prefix colons_for_dots
package_for pb_package_or_prefix is_prefix file_package perl_package_prefix =
    if same_text pb_package_or_prefix file_package
    then some perl_package_prefix
    else (if is_prefix && ltb (suc (length pb_package_or_prefix)) (length file_package)
        then (after_prefix (pb_package_or_prefix ++ (46 ∷ [])) file_package >>= λ rest.
            some (perl_package_prefix ++ (58 ∷ 58 ∷ colons_for_dots rest)))
        else none)

-- The state of the walk: `recursed_names` and the members.
pub record Walked : Type 0 where
  pub recursed_names : List ℕ
  pub registry : Registry

abbrev pub and_then : {S T : Type 0} → Walk S → (S → Option (Walk T)) → Option (Walk T)
and_then (went s) next = next s
and_then (croaked c) next = some (croaked c)

abbrev pub with_registry : List ℕ → Walk Registry → Option (Walk Walked)
with_registry names (went r) = some (went (record { recursed_names = names; registry = r }))
with_registry names (croaked c) = some (croaked c)

module _ (pool : DescriptorPool) (perl_package_prefix : List ℕ) (options : MappingOptions) where
  unfoldable pub enter_enum : (name : ℕ) → Walked → Option (Walk Walked)
  unfolding map_enum
  enter_enum name s =
      if contains name s.registry.mapped_enums
      then some (went s)
      else (pbname_to_package (pool.enum_name name) perl_package_prefix >>= λ perl_package.
          with_registry s.recursed_names (map_enum options name perl_package s.registry))

  -- The loop over the fields; `visit` is the recursive call.
  unfoldable pub visit_fields :
      (visit : ℕ → Walked → Option (Walk Walked)) → List FieldKind → Walked → Option (Walk Walked)
  unfolding enter_enum
  visit_fields visit [] s = some (went s)
  visit_fields visit (field_message name ∷ fields) s =
      visit name s >>= λ r. and_then r (visit_fields visit fields)
  visit_fields visit (field_enum name ∷ fields) s =
      enter_enum name s >>= λ r. and_then r (visit_fields visit fields)
  visit_fields visit (field_other ∷ fields) s = visit_fields visit fields s

  unfoldable pub map_after_fields : (descriptor : ℕ) → Walked → Option (Walk Walked)
  unfolding map_message
  map_after_fields descriptor s =
      if contains descriptor s.registry.descriptor_map
      then some (went s)
      else (pbname_to_package (pool.message_name descriptor) perl_package_prefix >>= λ perl_package.
          with_registry s.recursed_names (map_message options descriptor perl_package s.registry))

  -- `fuel` bounds the depth of the recursion; the result is none when it is used up.
  unfoldable pub map_message_prefix_recursive :
      (fuel descriptor : ℕ) → Walked → Option (Walk Walked)
  unfolding visit_fields map_after_fields
  map_message_prefix_recursive zero descriptor s = none
  map_message_prefix_recursive (suc fuel) descriptor s =
      if contains descriptor s.recursed_names
      then some (went s)
      else (visit_fields (map_message_prefix_recursive fuel) (pool.fields descriptor)
            (record s { recursed_names = descriptor ∷ s.recursed_names })
          >>= λ r. and_then r (map_after_fields descriptor))

  -- `map_message_prefix` for a message that the pool has.
  unfoldable pub map_message_prefix : (fuel message : ℕ) → Registry → Option (Walk Walked)
  unfolding map_message_prefix_recursive
  map_message_prefix fuel message r =
      map_message_prefix_recursive fuel message (record { recursed_names = []; registry = r })
