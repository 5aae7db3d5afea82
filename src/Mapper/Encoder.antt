-- ===== src/Mapper/Encoder.antt =====
-- The loops of src/mapper.cpp that encode the fields of a message: the values of a hash in the
-- order of the fields, a hash in its own order, or a table made by a transformation.
pub mod Choice
pub mod Path
pub mod Required
pub mod Scalars
pub mod Keys
use google_protobuf_dynamic.Common.{
  ℕ, ◌==◌, if◌then◌else◌, Bool, true, false, not, ◌&&◌, ◌||◌, Option, none, some, List, [], ◌∷◌,
  ◌>>=◌, get_elem?, set, replicate, length,
}
use google_protobuf_dynamic.Pb.Descriptor.{find}
use google_protobuf_dynamic.Mapper.Context.{
  Kind, Key, MapperContext, push_hash_level, set_hash_key, pop_level,
}

-- What the loops use of a mapper's field; the `oneof_index` -1 is `none`. A name is a number.
pub record Field : Type 0 where
  pub name : ℕ
  pub number : ℕ
  pub field_index : ℕ
  pub oneof_index : Option ℕ
  pub required : Bool

-- The messages of the status: "Missing required field '%s'", "Reference used when a scalar value is
-- expected for field '%s'", "Invalid enumeration value %d for field '%s'".
pub data Failure : Type 0 where
  missing_required_field reference_used : (name : ℕ) → Failure
  invalid_enumeration_value : (value name : ℕ) → Failure

-- An EncoderState: the sink `K`, the path, and the status.
pub record EncoderState (K : Type 0) : Type 0 where
  pub sink : K
  pub mapper_context : MapperContext
  pub status : Option Failure

-- An encoding function returns a Boolean, or ends in Perl's `croak`.
pub data Ended (K : Type 0) : Type 0 where
  returned : Bool → EncoderState K → Ended K
  croaked : EncoderState K → Ended K

-- What the loops use of Perl: whether a scalar is defined, and the hash that it refers to, if any,
-- with an address, and the key as `set_hash_key(HE *)` keeps it. Hashes have no magic.
pub record PerlApi (V : Type 0) : Type 0 where
  pub sv_ok : V → Bool
  pub hash_of : V → Option (ℕ × List (ℕ × V))
  pub entry_key : ℕ → Key

-- What they use of the sink.
pub record SinkApi (K : Type 0) : Type 0 where
  pub sink_start_message : K → Bool × K
  pub sink_end_message : K → Bool × K

-- class TrackOneof: the vector `seen_oneof`. An index outside it is undefined.
unfoldable pub mark_and_maybe_skip : Option ℕ → List Bool → Option (Bool × List Bool)
mark_and_maybe_skip none seen_oneof = some (false, seen_oneof)
mark_and_maybe_skip (some i) seen_oneof = get_elem? seen_oneof i >>= λ seen.
    if seen then some (true, seen_oneof) else some (false, set seen_oneof i true)

-- class TrackSeen: `check`, and the vector `seen_fields`.
unfoldable pub new_track_seen : (check : Bool) → List Field → List Bool
new_track_seen check fields = if check then replicate (length fields) false else []

unfoldable pub mark : (check : Bool) → (index : ℕ) → List Bool → Option (List Bool)
mark false index seen_fields = some seen_fields
mark true index seen_fields =
    get_elem? seen_fields index >>= λ seen. some (set seen_fields index true)

-- A mapper as the loops use it.
pub record Mapper : Type 0 where
  pub fields : List Field
  pub oneof_count : ℕ
  pub check_required_fields : Bool
  pub ignore_undef_fields : Bool
  pub field_by_name : ℕ → Option Field
  pub field_by_number : ℕ → Option Field

-- A call that ends the function when its result is false or it croaks.
abbrev pub then_continue :
    {K : Type 0} → Ended K → (EncoderState K → Option (Ended K)) → Option (Ended K)
then_continue (returned true s) next = next s
then_continue (returned false s) next = some (returned false s)
then_continue (croaked s) next = some (croaked s)

abbrev pub then_continue_with :
    {K : Type 0}
    → Ended K
    → (seen_fields : List Bool) → (EncoderState K → Option (Ended K × List Bool))
    → Option (Ended K × List Bool)
then_continue_with (returned true s) seen_fields next = next s
then_continue_with (returned false s) seen_fields next = some (returned false s, seen_fields)
then_continue_with (croaked s) seen_fields next = some (croaked s, seen_fields)

module _ {K : Type 0} where
  abbrev pub with_context : MapperContext → EncoderState K → EncoderState K
  with_context c s = record s { mapper_context = c }

  -- `fail_if_required(status, field)` is true: the status has the message.
  abbrev pub fail_required : Field → EncoderState K → EncoderState K
  fail_required field s = record s { status = some (missing_required_field field.name) }

  -- `perform_check`, over the fields from index 0 on and what was seen of them.
  unfoldable pub perform_check : List Field → List Bool → EncoderState K → Option (Ended K)
  perform_check [] seen_fields s = some (returned true s)
  perform_check (field ∷ fields) [] s = none
  perform_check (field ∷ fields) (seen ∷ seen_fields) s =
      if not seen && field.required
      then some (returned false (fail_required field s))
      else perform_check fields seen_fields s

  unfoldable pub required_fields_present :
      (check : Bool) → List Field → List Bool → EncoderState K → Option (Ended K)
  required_fields_present false fields seen_fields s = some (returned true s)
  required_fields_present true fields seen_fields s = perform_check fields seen_fields s

-- What `encode_field` does is a parameter of the loops: the call for one field.
module _ {K V : Type 0} (perl : PerlApi V) (sink : SinkApi K) (mapper : Mapper)
    (encode_field : Field → V → EncoderState K → Option (Ended K)) where
  -- The value that the loop encodes: there is none where the hash has no entry, or one that
  -- `ignore_undef_fields` leaves out.
  unfoldable pub field_value : Field → List (ℕ × V) → Option V
  field_value field hash = find field.name hash >>= λ value.
      if mapper.ignore_undef_fields && not (perl.sv_ok value) then none else some value

  -- The loop of `encode_simple_message_iterate_fields`, and one round of it.
  unfoldable pub encode_fields :
      List Field → List (ℕ × V) → (seen_oneof : List Bool) → EncoderState K → Option (Ended K)
  encode_fields [] hash seen_oneof s = some (returned true s)
  encode_fields (field ∷ fields) hash seen_oneof s =
      set_hash_key (Key.svkey field.name) s.mapper_context >>= λ c. elim (field_value field hash) [
        | none ↦
            if field.required
            then some (returned false (fail_required field (with_context c s)))
            else encode_fields fields hash seen_oneof (with_context c s)
        | some value ↦ mark_and_maybe_skip field.oneof_index seen_oneof >>= λ marked.
            if marked.0
            then encode_fields fields hash marked.1 (with_context c s)
            else (encode_field field value (with_context c s) >>= λ r.
                then_continue r (encode_fields fields hash marked.1))
      ]

  -- The loop of `encode_simple_message_iterate_hash`; `unknown_field` is the callback for a key
  -- with no field.
  module _ (unknown_field : V → EncoderState K → EncoderState K) where
    unfoldable pub encode_entries :
        List (ℕ × V)
        → (seen_oneof seen_fields : List Bool) → EncoderState K
        → Option (Ended K × List Bool)
    encode_entries [] seen_oneof seen_fields s = some (returned true s, seen_fields)
    encode_entries ((name, value) ∷ entries) seen_oneof seen_fields s =
        set_hash_key (perl.entry_key name) s.mapper_context >>= λ c.
        elim (mapper.field_by_name name) [
          | none ↦
              encode_entries entries seen_oneof seen_fields (unknown_field value (with_context c s))
          | some field ↦
              if mapper.ignore_undef_fields && not (perl.sv_ok value)
              then encode_entries entries seen_oneof seen_fields (with_context c s)
              else (mark_and_maybe_skip field.oneof_index seen_oneof >>= λ marked.
                  if marked.0
                  then encode_entries entries marked.1 seen_fields (with_context c s)
                  else (mark mapper.check_required_fields field.field_index seen_fields >>= λ seen.
                      encode_field field value (with_context c s) >>= λ r.
                      then_continue_with r seen (encode_entries entries marked.1 seen)))
        ]

  -- The loop of `encode_transformed_fieldtable_message`.
  unfoldable pub encode_table :
      List (ℕ × V)
      → (seen_oneof seen_fields : List Bool) → EncoderState K
      → Option (Ended K × List Bool)
  encode_table [] seen_oneof seen_fields s = some (returned true s, seen_fields)
  encode_table ((number, value) ∷ entries) seen_oneof seen_fields s =
      elim (mapper.field_by_number number) [
        | none ↦ encode_table entries seen_oneof seen_fields s
        | some field ↦ set_hash_key (Key.svkey field.name) s.mapper_context >>= λ c.
            mark_and_maybe_skip field.oneof_index seen_oneof >>= λ marked.
            if marked.0
            then encode_table entries marked.1 seen_fields (with_context c s)
            else (mark mapper.check_required_fields field.field_index seen_fields >>= λ seen.
                encode_field field value (with_context c s) >>= λ r.
                then_continue_with r seen (encode_table entries marked.1 seen))
      ]

  -- `sink->EndMessage(state.status)`
  abbrev pub end_sink : EncoderState K → Option (Ended K)
  end_sink s =
      let (ok, k) = sink.sink_end_message s.sink in some (returned ok (record s { sink = k }))

  -- `pop_level()`
  abbrev pub leave_level : EncoderState K → Option (EncoderState K)
  leave_level s = pop_level s.mapper_context >>= λ c. some (with_context c s)

  -- `StartMessage()` and `push_level`, and then the rest.
  abbrev pub in_level :
      Option ℕ → EncoderState K → (EncoderState K → Option (Ended K)) → Option (Ended K)
  in_level hv s rest =
      let (ok, k) = sink.sink_start_message s.sink in
      if ok
      then rest
          (record s { sink = k; mapper_context = push_hash_level hv Kind.message s.mapper_context })
      else some (returned false (record s { sink = k }))

  abbrev pub no_oneofs : List Bool
  no_oneofs = replicate mapper.oneof_count false

  unfoldable pub encode_simple_message_iterate_fields : V → EncoderState K → Option (Ended K)
  unfolding encode_fields
  encode_simple_message_iterate_fields ref s = elim (perl.hash_of ref) [
    | none ↦ some (croaked s)
    | some (hv, hash) ↦ in_level (some hv) s λ s'.
        encode_fields mapper.fields hash no_oneofs s' >>= λ r.
        then_continue r λ s''. leave_level s'' >>= end_sink
  ]

  -- The required fields are checked before the level is dropped.
  unfoldable pub encode_simple_message_iterate_hash :
      (unknown_field : V → EncoderState K → EncoderState K) → V → EncoderState K → Option (Ended K)
  unfolding encode_entries
  encode_simple_message_iterate_hash unknown_field ref s = elim (perl.hash_of ref) [
    | none ↦ some (croaked s)
    | some (hv, hash) ↦ in_level (some hv) s λ s'.
        encode_entries unknown_field hash no_oneofs
          (new_track_seen mapper.check_required_fields mapper.fields) s'
        >>= λ ended. then_continue ended.0 λ s''.
          required_fields_present mapper.check_required_fields mapper.fields ended.1 s'' >>= λ r.
          then_continue r λ s3. leave_level s3 >>= end_sink
  ]

  -- The transformation gives a table, or none, for which the function croaks. The required fields
  -- are checked after the level is dropped.
  unfoldable pub encode_transformed_fieldtable_message :
      (transform_fieldtable : V → Option (List (ℕ × V))) → V → EncoderState K → Option (Ended K)
  unfolding encode_table
  encode_transformed_fieldtable_message transform_fieldtable ref s = in_level none s λ s'.
      elim (transform_fieldtable ref) [
        | none ↦ some (croaked s')
        | some table ↦
            encode_table table no_oneofs (new_track_seen mapper.check_required_fields mapper.fields)
              s'
            >>= λ ended. then_continue ended.0 λ s''. leave_level s'' >>= λ s3.
                required_fields_present mapper.check_required_fields mapper.fields ended.1 s3
                >>= λ r. then_continue r end_sink
      ]

  unfoldable pub encode_transformed_message :
      (transform : V → V) (unknown_field : V → EncoderState K → EncoderState K)
      → V
      → EncoderState K
      → Option (Ended K)
  encode_transformed_message transform unknown_field ref s =
      encode_simple_message_iterate_hash unknown_field (transform ref) s
