-- ===== src/Examples/Structures.antt =====
-- Runs of src/fieldmap.cpp, transform.cpp and dynamic.cpp.
use google_protobuf_dynamic.Common.{
  ℕ, ◌≡◌, refl, ◌==◌, true, false, Option, none, some, List, [], ◌∷◌, arith, if◌then◌else◌, ltb,
}
use google_protobuf_dynamic.Mapper.FieldMap.{
  PerlString, assign_string, FieldMapImpl, empty_map, add, find_by_number,
}
use google_protobuf_dynamic.Mapper.FieldMap.Added.{FoundByName, find_by_name-add}
use google_protobuf_dynamic.Mapper.TransformQueue.{DecoderTransformQueue, apply_transforms}
use google_protobuf_dynamic.Mapper.TransformQueue.Once.{
  waiting, times_applied, apply_transforms-waiting,
}
use google_protobuf_dynamic.Dynamic.Options.{
  OptionsRef, Made, mapping_options, read_booleans, read_strings, boolean_option, string_option,
  string_value, OptionValue,
}
use Prim.Native.String.{String}
use text.Mathlib.Text.{◌==◌ as str_eq}

abbrev key : PerlString
key = record { buffer = 100; text = 0x69 ∷ 0x64 ∷ [] }

abbrev no_fields : FieldMapImpl ℕ
no_fields = empty_map

-- "id" again at another address, beside a field "no".
abbrev key_again : PerlString
key_again = record { buffer = 200; text = 0x69 ∷ 0x64 ∷ [] }

abbrev other_key : PerlString
other_key = record { buffer = 300; text = 0x6e ∷ 0x6f ∷ [] }

abbrev texts : ℕ → List ℕ
texts address = if address == 300 then 0x6e ∷ 0x6f ∷ [] else 0x69 ∷ 0x64 ∷ []

find_by_name-add_example :
    FoundByName texts key 7 key_again
      (add other_key 4 6 no_fields)
      (add key 5 7 (add other_key 4 6 no_fields))
    × (find_by_number (add key 5 7 (add other_key 4 6 no_fields)) 4
        ≡ find_by_number (add other_key 4 6 no_fields) 4)
unfolding add assign_string
find_by_name-add_example =
    find_by_name-add texts key key_again 5 4 7 (add other_key 4 6 no_fields) refl refl (refl, tt)
      refl (omega arith)

-- The scalar 40 waits twice and has three references.
abbrev queue : DecoderTransformQueue
queue = record {
  pending_transforms =
      (record { transform = 1; target = 40; table = none })
      ∷ (record { transform = 1; target = 40; table = none })
      ∷ [];
  fieldtable = [];
  referenced = 40 ∷ 40 ∷ [];
}

abbrev counts : (round sv : ℕ) → ℕ
counts round sv = if sv == 40 then 3 else round

apply_transforms-waiting_example : times_applied 40 (apply_transforms counts queue) ≡ (
    if true
    then (if ltb 0 (waiting 40 queue.pending_transforms) then 1 else 0)
    else waiting 40 queue.pending_transforms)
apply_transforms-waiting_example = apply_transforms-waiting counts queue 40 true (λ round. refl)

abbrev bad_decoder : String → Option OptionValue
bad_decoder name =
    if str_eq name "default_decoder" then some (record { sv_true = true; text = "xpb" }) else none

bad_decoder_croaks :
    mapping_options false (OptionsRef.hash bad_decoder) ≡ Made.invalid_value "default_decoder"
unfolding mapping_options read_booleans read_strings boolean_option string_option string_value
bad_decoder_croaks = refl
