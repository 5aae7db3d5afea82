-- ===== src/Dynamic/Options.antt =====
-- struct MappingOptions of src/dynamic.h and its constructor in dynamic.cpp. The stack trace that it
-- also keeps is left out.
use google_protobuf_dynamic.Common.{
  Bool, true, false, if◌then◌else◌, Option, none, some, List, [], ◌∷◌,
}
use Prim.Native.String.{String}
use text.Mathlib.Text.{◌==◌ as str_eq}

pub data BoolStyle : Type 0 where
  perl numeric json : BoolStyle

pub data AccessorStyle : Type 0 where
  get_and_set plain_and_set single_accessor plain : AccessorStyle

pub data ClientService : Type 0 where
  disable noop grpc_xs : ClientService

pub data DefaultDecoder : Type 0 where
  upb bbpb : DefaultDecoder

pub record MappingOptions : Type 0 where
  pub use_bigints : Bool
  pub check_required_fields : Bool
  pub explicit_defaults : Bool
  pub encode_defaults : Bool
  pub encode_defaults_proto3 : Bool
  pub check_enum_values : Bool
  pub generic_extension_methods : Bool
  pub implicit_maps : Bool
  pub decode_blessed : Bool
  pub fail_ref_coercion : Bool
  pub no_redefine_perl_names : Bool
  pub ignore_undef_fields : Bool
  pub boolean_style : BoolStyle
  pub accessor_style : AccessorStyle
  pub client_services : ClientService
  pub default_decoder : DefaultDecoder

-- A value of the hash: whether it is true, and its text.
pub record OptionValue : Type 0 where
  pub sv_true : Bool
  pub text : String

-- The argument: undefined or NULL, no hash reference, or a hash, as its `hv_fetchs`.
pub data OptionsRef : Type 0 where
  undefined not_a_hash : OptionsRef
  hash : (String → Option OptionValue) → OptionsRef

-- The constructor gives the options or croaks, for one option or for the argument.
pub data Made (A : Type 0) : Type 0 where
  made : A → Made A
  invalid_value : (name : String) → Made A
  no_hash_reference : Made A

abbrev pub and_then : {A B : Type 0} → Made A → (A → Made B) → Made B
and_then (made a) next = next a
and_then (invalid_value name) next = invalid_value name
and_then no_hash_reference next = no_hash_reference

-- BOOLEAN_OPTION
unfoldable pub boolean_option : Option OptionValue → (field : Bool) → Bool
boolean_option none field = field
boolean_option (some value) field = value.sv_true

-- The chain of STRING_VALUE: the first text that is equal.
unfoldable pub string_value : {A : Type 0} → List (String × A) → String → Option A
string_value [] buf = none
string_value ((text, value) ∷ values) buf =
    if str_eq buf text then some value else string_value values buf

-- From START_STRING_VALUE to END_STRING_VALUE.
unfoldable pub string_option :
    {A : Type 0} → (name : String) → Option OptionValue → List (String × A) → (field : A) → Made A
unfolding string_value
string_option name none values field = made field
string_option name (some value) values field = elim (string_value values value.text) [
  | none ↦ invalid_value name
  | some a ↦ made a
]

abbrev pub decoders : List (String × DefaultDecoder)
decoders = ("upb", upb) ∷ ("bbpb", bbpb) ∷ []

abbrev pub accessors : List (String × AccessorStyle)
accessors =
    ("get_and_set", get_and_set)
    ∷ ("plain_and_set", plain_and_set)
    ∷ ("single_accessor", single_accessor)
    ∷ ("plain", plain)
    ∷ []

abbrev pub services : List (String × ClientService)
services = ("disable", disable) ∷ ("noop", noop) ∷ ("grpc_xs", grpc_xs) ∷ []

abbrev pub booleans : List (String × BoolStyle)
booleans = ("perl", perl) ∷ ("numeric", numeric) ∷ ("json", json) ∷ []

-- The initializers; `narrow_iv` is `sizeof(IV) < sizeof(int64_t)`.
abbrev pub default_options : (narrow_iv : Bool) → MappingOptions
default_options narrow_iv = record {
  use_bigints = narrow_iv;
  check_required_fields = true;
  explicit_defaults = false;
  encode_defaults = false;
  encode_defaults_proto3 = false;
  check_enum_values = true;
  generic_extension_methods = true;
  implicit_maps = false;
  decode_blessed = true;
  fail_ref_coercion = false;
  no_redefine_perl_names = false;
  ignore_undef_fields = false;
  boolean_style = perl;
  accessor_style = get_and_set;
  client_services = disable;
  default_decoder = upb;
}

-- The eleven BOOLEAN_OPTION lines.
unfoldable pub read_booleans : (String → Option OptionValue) → MappingOptions → MappingOptions
read_booleans h o = record o {
  use_bigints = boolean_option (h "use_bigints") o.use_bigints;
  check_required_fields = boolean_option (h "check_required_fields") o.check_required_fields;
  explicit_defaults = boolean_option (h "explicit_defaults") o.explicit_defaults;
  encode_defaults = boolean_option (h "encode_defaults") o.encode_defaults;
  encode_defaults_proto3 = boolean_option (h "encode_defaults_proto3") o.encode_defaults_proto3;
  check_enum_values = boolean_option (h "check_enum_values") o.check_enum_values;
  generic_extension_methods =
      boolean_option (h "generic_extension_methods") o.generic_extension_methods;
  implicit_maps = boolean_option (h "implicit_maps") o.implicit_maps;
  decode_blessed = boolean_option (h "decode_blessed") o.decode_blessed;
  fail_ref_coercion = boolean_option (h "fail_ref_coercion") o.fail_ref_coercion;
  ignore_undef_fields = boolean_option (h "ignore_undef_fields") o.ignore_undef_fields;
}

-- The four string options, in the order of the code.
unfoldable pub read_strings : (String → Option OptionValue) → MappingOptions → Made MappingOptions
read_strings h o =
    and_then (string_option "default_decoder" (h "default_decoder") decoders o.default_decoder)
      λ decoder.
        and_then (string_option "accessor_style" (h "accessor_style") accessors o.accessor_style)
          λ accessor.
            and_then
              (string_option "client_services" (h "client_services") services o.client_services)
              λ service.
                and_then
                  (string_option "boolean_values" (h "boolean_values") booleans o.boolean_style)
                  λ style. made (record o {
                    default_decoder = decoder;
                    accessor_style = accessor;
                    client_services = service;
                    boolean_style = style;
                  })

unfoldable pub mapping_options : (narrow_iv : Bool) → OptionsRef → Made MappingOptions
unfolding read_booleans read_strings boolean_option string_option
mapping_options narrow_iv undefined = made (default_options narrow_iv)
mapping_options narrow_iv not_a_hash = no_hash_reference
mapping_options narrow_iv (hash h) = read_strings h (read_booleans h (default_options narrow_iv))
