-- ===== src/Examples/Packages.antt =====
-- Two messages that refer to each other, mapped by src/dynamic.cpp.
use google_protobuf_dynamic.Common.{
  ℕ, ◌≡◌, ◌↔◌, ◌⊎◌, refl, ◌==◌, if◌then◌else◌, true, false, some, List, [], ◌∷◌, arith,
}
use google_protobuf_dynamic.Common.Sorting.{contains}
use google_protobuf_dynamic.Dynamic.Options.{default_options}
use google_protobuf_dynamic.Dynamic.Packages.{
  field_message, field_enum, field_other, DescriptorPool, Registry, Walk, Walked,
  map_message_prefix, map_message_prefix_recursive, visit_fields, enter_enum, map_after_fields,
  map_enum, map_message, is_remapped, define_perl_names, contains_text, add_stashes, outer_packages,
  pbname_to_package, join_parts, next_dot, colons_for_dots, package_for,
}
use google_protobuf_dynamic.Dynamic.Packages.Names.{
  pbname_to_package-colons_for_dots, package_for_iff, Exact, Below,
}
use google_protobuf_dynamic.Dynamic.Packages.Termination.{AllKnown, map_message_prefix-ends}
use google_protobuf_dynamic.Dynamic.Packages.Reach.{Reachable, map_message_prefix-Reachable}
use google_protobuf_dynamic.Mapper.FieldMap.{same_text}

-- The messages "a.b" and "c" have fields of each other's type, and the first one an enumeration "e".
abbrev two_messages : DescriptorPool
two_messages = record {
  message_name = λ m. if m == 0 then 97 ∷ 46 ∷ 98 ∷ [] else 99 ∷ [];
  enum_name = λ e. 101 ∷ [];
  fields = λ m.
      if m == 0 then field_message 1 ∷ field_enum 5 ∷ [] else field_message 0 ∷ field_other ∷ [];
}

abbrev empty_registry : Registry
empty_registry = record {
  descriptor_map = [];
  mapped_enums = [];
  pending = [];
  stashes = [];
  mapped_from = [];
  bound = [];
}

both_known :
    (d : ℕ) → contains d (0 ∷ 1 ∷ []) ≡ true → AllKnown (0 ∷ 1 ∷ []) (two_messages.fields d)
both_known d known = ground arith

map_message_prefix-ends_example :
    (w : Walk Walked) × (map_message_prefix two_messages
        (80 ∷ [])
        (default_options false)
        3
        0
        empty_registry
      ≡ some w)
map_message_prefix-ends_example =
    map_message_prefix-ends two_messages (80 ∷ []) (default_options false) (0 ∷ 1 ∷ []) 3 0
      empty_registry both_known refl (omega arith)

-- The packages P::c, P::e and P::a::b.
abbrev package_c : List ℕ
package_c = 80 ∷ 58 ∷ 58 ∷ 99 ∷ []

abbrev package_e : List ℕ
package_e = 80 ∷ 58 ∷ 58 ∷ 101 ∷ []

abbrev package_a_b : List ℕ
package_a_b = 80 ∷ 58 ∷ 58 ∷ 97 ∷ 58 ∷ 58 ∷ 98 ∷ []

abbrev all_packages : List (List ℕ)
all_packages = package_a_b ∷ package_e ∷ package_c ∷ []

-- With the packages P and P::a around them.
abbrev all_stashes : List (List ℕ)
all_stashes =
    package_a_b
    ∷ (80 ∷ [])
    ∷ (80 ∷ 58 ∷ 58 ∷ 97 ∷ [])
    ∷ package_e
    ∷ (80 ∷ [])
    ∷ package_c
    ∷ (80 ∷ [])
    ∷ []

abbrev both_mapped : Walked
both_mapped = record {
  recursed_names = 1 ∷ 0 ∷ [];
  registry = record {
    descriptor_map = 0 ∷ 1 ∷ [];
    mapped_enums = 5 ∷ [];
    pending = 0 ∷ 1 ∷ [];
    stashes = all_stashes;
    mapped_from = all_packages;
    bound = all_packages;
  };
}

map_message_prefix-Reachable_example :
    ((x : ℕ)
      → Reachable two_messages (80 ∷ []) (default_options false) 0 x
      → contains x (0 ∷ 1 ∷ []) ≡ true)
    × ((x : ℕ) → contains x [] ≡ true → contains x (0 ∷ 1 ∷ []) ≡ true)
unfolding map_message_prefix map_message_prefix_recursive visit_fields enter_enum map_after_fields
    map_enum map_message is_remapped define_perl_names contains_text pbname_to_package join_parts
    next_dot same_text add_stashes outer_packages
map_message_prefix-Reachable_example =
    map_message_prefix-Reachable two_messages (80 ∷ []) (default_options false) 3 0 empty_registry
      both_mapped refl

pbname_to_package-colons_for_dots_example :
    pbname_to_package (97 ∷ 46 ∷ 98 ∷ []) (80 ∷ [])
    ≡ some (80 ∷ 58 ∷ 58 ∷ colons_for_dots (97 ∷ 46 ∷ 98 ∷ []))
pbname_to_package-colons_for_dots_example =
    pbname_to_package-colons_for_dots (97 ∷ 46 ∷ 98 ∷ []) (80 ∷ [])

package_for_iff_example :
    (package_for (97 ∷ []) true (97 ∷ 46 ∷ 98 ∷ []) (80 ∷ []) ≡ some package_a_b) ↔ (
      Exact (97 ∷ []) (97 ∷ 46 ∷ 98 ∷ []) (80 ∷ []) package_a_b
      ⊎ Below (97 ∷ []) (97 ∷ 46 ∷ 98 ∷ []) (80 ∷ []) package_a_b)
package_for_iff_example = package_for_iff (97 ∷ []) (97 ∷ 46 ∷ 98 ∷ []) (80 ∷ []) package_a_b
