-- ===== src/Mapper/Encoder/Scalars/Calls.antt =====
-- The calls of the sink that `encode_from_array` of src/mapper.cpp makes.
use google_protobuf_dynamic.Common.{
  ℕ, ◌^◌, ◌%◌, ◌≡◌, refl, if◌then◌else◌, Bool, true, false, not, ◌&&◌, ◌||◌, some, List, [], ◌∷◌,
  ◌++◌, length, Bool-cases, inl, inr,
}
use google_protobuf_dynamic.Common.Sorting.{contains}
use google_protobuf_dynamic.Mapper.Scalars.{Sv, PerlScalars}
use google_protobuf_dynamic.Mapper.Encoder.{EncoderState}
use google_protobuf_dynamic.Mapper.Encoder.Scalars.{
  ValueAction, action_put_float, action_put_double, action_put_bool, action_put_string,
  action_put_bytes, action_put_enum, action_put_int32, action_put_uint32, action_put_int64,
  action_put_uint64, SinkCall, put_float, put_double, put_int32, put_uint32, put_int64, put_uint64,
  put_bool, start_string, put_string_buffer, end_string, start_sequence, end_sequence, ScalarField,
  EncoderApi, CheckOptions, emit, put_string, is_coerced_ref, enum_emitter, item_setter,
}

pub data IsScalar : ValueAction → Type 0 where
  is_float : IsScalar action_put_float
  is_double : IsScalar action_put_double
  is_bool : IsScalar action_put_bool
  is_string : IsScalar action_put_string
  is_bytes : IsScalar action_put_bytes
  is_enum : IsScalar action_put_enum
  is_int32 : IsScalar action_put_int32
  is_uint32 : IsScalar action_put_uint32
  is_int64 : IsScalar action_put_int64
  is_uint64 : IsScalar action_put_uint64

-- A call whose result is not used.
abbrev pub is_unchecked : SinkCall → Bool
is_unchecked (put_string_buffer selector text) = true
is_unchecked _ = false

module _ {K : Type 0} (perl : PerlScalars) (api : EncoderApi K) (options : CheckOptions) where
  abbrev pub string_calls : ScalarField → List ℕ → List SinkCall
  string_calls fd str =
      start_string fd.str_start (length str)
      ∷ put_string_buffer fd.str_cont str
      ∷ end_string fd.str_end
      ∷ []

  -- The calls for a value.
  abbrev pub value_calls : ValueAction → ScalarField → Sv → List SinkCall
  value_calls action_put_float fd v = put_float fd.primitive (api.to_float (perl.sv_nv v)) ∷ []
  value_calls action_put_double fd v = put_double fd.primitive (perl.sv_nv v) ∷ []
  value_calls action_put_bool fd v = put_bool fd.primitive (perl.sv_true v) ∷ []
  value_calls action_put_string fd v = string_calls fd (perl.sv_pvutf8 v)
  value_calls action_put_bytes fd v = string_calls fd (perl.sv_pv v)
  value_calls action_put_enum fd v = put_int32 fd.primitive (perl.sv_iv v % 2 ^ 32) ∷ []
  value_calls action_put_int32 fd v = put_int32 fd.primitive (perl.sv_iv v % 2 ^ 32) ∷ []
  value_calls action_put_uint32 fd v = put_uint32 fd.primitive (perl.sv_uv v % 2 ^ 32) ∷ []
  value_calls action_put_int64 fd v = put_int64 fd.primitive (perl.sv_iv v) ∷ []
  value_calls action_put_uint64 fd v = put_uint64 fd.primitive (perl.sv_uv v) ∷ []
  value_calls _ fd v = []

  abbrev pub items_calls : ScalarField → List Sv → List SinkCall
  items_calls fd [] = []
  items_calls fd (v ∷ items) = value_calls fd.value_action fd v ++ items_calls fd items

  abbrev pub array_calls : ScalarField → List Sv → List SinkCall
  array_calls fd [] = []
  array_calls fd (v ∷ items) =
      start_sequence fd.seq_start ∷ (items_calls fd (v ∷ items) ++ (end_sequence fd.seq_end ∷ []))

  -- A sequence of calls, up to the first one that is checked and returns false.
  abbrev pub send : List SinkCall → K → Bool × K
  send [] k = (true, k)
  send (c ∷ calls) k =
      let (ok, k') = api.call c k in if ok || is_unchecked c then send calls k' else (false, k')

  -- A reference that `fail_ref_coercion` refuses.
  abbrev pub is_refused : Sv → Bool
  is_refused v = options.fail_ref_coercion && is_coerced_ref perl api options v

  -- A number that is none of the enumeration's, where that is checked.
  abbrev pub is_unknown : ValueAction → ScalarField → Sv → Bool
  is_unknown action_put_enum fd v =
      options.check_enum_values && not (contains (perl.sv_iv v % 2 ^ 32) fd.enum_values)
  is_unknown _ fd v = false

  -- The value can be encoded.
  abbrev pub IsValue : ScalarField → Sv → Type 0
  IsValue fd v = (is_refused v ≡ false) × (is_unknown fd.value_action fd v ≡ false)

  abbrev pub AreValues : ScalarField → List Sv → Type 0
  AreValues fd [] = Unit
  AreValues fd (v ∷ items) = IsValue fd v × AreValues fd items

  -- `send` on a state of the encoder.
  abbrev pub sent : List SinkCall → EncoderState K → Bool × EncoderState K
  sent calls s = let (ok, k) = send calls s.sink in (ok, record s { sink = k })

  pub emit-sent :
      (c : SinkCall) (s : EncoderState K)
      → is_unchecked c ≡ false
      → emit perl api options c s ≡ sent (c ∷ []) s
  emit-sent c s e = elim (Bool-cases (api.call c s.sink).0) [
    | inl ok ↦ rw ok refl
    | inr failed ↦ rw (failed, e) refl
  ]

  pub put_string-sent :
      (fd : ScalarField) (str : List ℕ) (s : EncoderState K)
      → put_string perl api options fd str s ≡ sent (string_calls fd str) s
  unfolding put_string
  put_string-sent fd str s =
      let k1 = (api.call (start_string fd.str_start (length str)) s.sink).1 in
      let k2 = (api.call (put_string_buffer fd.str_cont str) k1).1 in
      elim (Bool-cases (api.call (start_string fd.str_start (length str)) s.sink).0) [
        | inl started ↦ elim (Bool-cases (api.call (put_string_buffer fd.str_cont str) k1).0) [
          | inl put ↦ elim (Bool-cases (api.call (end_string fd.str_end) k2).0) [
            | inl ok ↦ rw (started, put, ok) refl
            | inr failed ↦ rw (started, put, failed) refl
          ]
          | inr not_put ↦ elim (Bool-cases (api.call (end_string fd.str_end) k2).0) [
            | inl ok ↦ rw (started, not_put, ok) refl
            | inr failed ↦ rw (started, not_put, failed) refl
          ]
        ]
        | inr failed ↦ rw failed refl
      ]

  abbrev pub Setter : Type 0
  Setter = ScalarField → Sv → EncoderState K → Bool × EncoderState K

  -- The setter makes the calls for a value.
  abbrev pub Sets : Setter → ValueAction → Type 0
  Sets setter action =
      (fd : ScalarField) (v : Sv) (s : EncoderState K)
      → is_unknown action fd v ≡ false
      → setter fd v s ≡ sent (value_calls action fd v) s

  enum_setter-sent :
      (fd : ScalarField) (v : Sv) (s : EncoderState K)
      → is_unknown action_put_enum fd v ≡ false
      → (if options.check_enum_values
          then enum_emitter perl api options fd (perl.sv_iv v % 2 ^ 32) s
          else emit perl api options (put_int32 fd.primitive (perl.sv_iv v % 2 ^ 32)) s)
        ≡ sent (value_calls action_put_enum fd v) s
  unfolding enum_emitter
  enum_setter-sent fd v s known_value = elim (Bool-cases options.check_enum_values) [
    | inl checked ↦ elim (Bool-cases (contains (perl.sv_iv v % 2 ^ 32) fd.enum_values)) [
      | inl known ↦
          rw (checked, known) (emit-sent (put_int32 fd.primitive (perl.sv_iv v % 2 ^ 32)) s refl)
      | inr unknown ↦ cc (rw (checked, unknown) at known_value)
    ]
    | inr unchecked ↦
        rw unchecked (emit-sent (put_int32 fd.primitive (perl.sv_iv v % 2 ^ 32)) s refl)
  ]

  pub item_setter-Sets :
      (action : ValueAction)
      → IsScalar action
      → (setter : Setter) × (item_setter perl api options action ≡ some setter) × Sets setter action
  unfolding item_setter
  item_setter-Sets action is_float = (_, refl, λ fd v s h. emit-sent _ s refl)
  item_setter-Sets action is_double = (_, refl, λ fd v s h. emit-sent _ s refl)
  item_setter-Sets action is_bool = (_, refl, λ fd v s h. emit-sent _ s refl)
  item_setter-Sets action is_string = (_, refl, λ fd v s h. put_string-sent fd _ s)
  item_setter-Sets action is_bytes = (_, refl, λ fd v s h. put_string-sent fd _ s)
  item_setter-Sets action is_enum = (_, refl, enum_setter-sent)
  item_setter-Sets action is_int32 = (_, refl, λ fd v s h. emit-sent _ s refl)
  item_setter-Sets action is_uint32 = (_, refl, λ fd v s h. emit-sent _ s refl)
  item_setter-Sets action is_int64 = (_, refl, λ fd v s h. emit-sent _ s refl)
  item_setter-Sets action is_uint64 = (_, refl, λ fd v s h. emit-sent _ s refl)

  -- `send` goes on with more calls.
  abbrev pub resumed : Bool × K → List SinkCall → Bool × K
  resumed (true, k) more = send more k
  resumed (false, k) more = (false, k)

  pub resumed-send :
      (calls more : List SinkCall) (k : K) → send (calls ++ more) k ≡ resumed (send calls k) more
  resumed-send [] more k = refl
  resumed-send (c ∷ calls) more k = elim (Bool-cases ((api.call c k).0 || is_unchecked c)) [
    | inl on ↦ rw on (resumed-send calls more (api.call c k).1)
    | inr stop ↦ rw stop refl
  ]
