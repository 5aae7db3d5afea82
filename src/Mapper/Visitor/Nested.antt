-- ===== src/Mapper/Visitor/Nested.antt =====
-- The decoder's stack of messages and the stack of mappers of src/mapper.cpp stay in step.
use google_protobuf_dynamic.Common.{
  ℕ, ◌+◌, ◌≤◌, ◌≡◌, refl, List, [], ◌∷◌, length, some, arith, >>=-elim, ap, ◌∙◌, Bool, true, false,
}
use google_protobuf_dynamic.Pb.Types.{PbToken}
use google_protobuf_dynamic.Pb.Decoder.{Decoder, Context}
use google_protobuf_dynamic.Pb.Tokens.{next_token, set_buffer, start_message, end_message, unwind}
use google_protobuf_dynamic.Pb.Tokens.Frames.{SameFrame, next_token-SameFrame}
use google_protobuf_dynamic.Mapper.Visitor.{
  FieldData, Handlers, Mappers, Loop, go_on, enter_message, store_action, resume, leave_message,
  finish_message, handle_token, end_call, end_field, round, start_run, entry_data, Action,
}

module _ {H : Type 0} (handlers : Handlers H) (table : Mappers) where
  -- One context for the outermost message and one for each mapper that waits.
  abbrev pub InStep : Loop H → Type 0
  InStep l = length l.pb_decoder.state ≡ length l.mappers + 1

  store_action-InStep :
      (action : Action) (i : ℕ) (l l' : Loop H)
      → InStep l
      → store_action handlers table action i l ≡ some (go_on l')
      → InStep l'
  unfolding store_action enter_message start_message
  store_action-InStep Action.store_message i l l' s e =
      >>=-elim (table.field_mapper l.mapper i) _ e λ m _ rest. ground (arith, s, rest)
  store_action-InStep Action.store_map_message i l l' s e =
      >>=-elim (table.field_mapper l.mapper i) _ e λ m _ rest. ground (arith, s, rest)
  store_action-InStep Action.store_string_map_message i l l' s e =
      >>=-elim (table.field_mapper l.mapper i) _ e λ m _ rest. ground (arith, s, rest)
  store_action-InStep action i l l' s e = ground (arith, s, e)

  end_message-length :
      (d d' : Decoder FieldData) → end_message d ≡ some d' → length d.state ≡ length d'.state + 1
  unfolding end_message unwind
  end_message-length d d' e = ground arith

  leave_message-InStep :
      (outer : ℕ) (rest : List ℕ) (l l' : Loop H)
      → InStep l
      → l.mappers ≡ outer ∷ rest
      → leave_message handlers table outer rest l ≡ some (go_on l')
      → InStep l'
  unfolding leave_message
  leave_message-InStep outer rest l l' s m e =
      >>=-elim (end_message l.pb_decoder) _ e λ d ended more.
        let l1 = record l { pb_decoder = d; mapper = outer; mappers = rest } in
        >>=-elim (entry_data handlers table l1) (end_field handlers table l1) more λ entry _ named.
          >>=-elim (end_call entry.action entry.index) _ named
            λ c _ last. ground (arith, s, m, last, end_message-length l.pb_decoder d ended)

  resume-InStep :
      (ms : List ℕ) (l l' : Loop H)
      → InStep l
      → l.mappers ≡ ms
      → resume handlers table ms l ≡ some (go_on l')
      → InStep l'
  unfolding resume
  resume-InStep [] l l' s m e = cc e
  resume-InStep (outer ∷ rest) l l' s m e = leave_message-InStep outer rest l l' s m e

  finish_message-InStep :
      (ok : Bool) (h : H) (l l' : Loop H)
      → InStep l
      → finish_message handlers table (ok, h) l ≡ some (go_on l')
      → InStep l'
  unfolding finish_message
  finish_message-InStep false h l l' s e = cc e
  finish_message-InStep true h l l' s e = resume-InStep l.mappers _ l' s refl e

  handle_token-InStep :
      (t : PbToken) (l l' : Loop H)
      → InStep l
      → handle_token handlers table t l ≡ some (go_on l')
      → InStep l'
  unfolding handle_token
  handle_token-InStep PbToken.field l l' s e =
      >>=-elim (entry_data handlers table l) _ e
        λ entry _ rest. store_action-InStep entry.action entry.index l l' s rest
  handle_token-InStep PbToken.start_sequence l l' s e =
      >>=-elim (entry_data handlers table l) _ e λ entry _ rest. ground (arith, s, rest)
  handle_token-InStep PbToken.end_sequence l l' s e =
      >>=-elim (entry_data handlers table l) _ e λ entry _ rest. ground (arith, s, rest)
  handle_token-InStep PbToken.end_message l l' s e = finish_message-InStep _ _ l l' s e
  handle_token-InStep PbToken.error l l' s e = ground (arith, e)
  handle_token-InStep PbToken.unknown_field l l' s e = ground (arith, s, e)

  same_state : (d d' : Decoder FieldData) → SameFrame d d' → d'.state ≡ d.state
  unfolding SameFrame
  same_state d d' f = f.0

  round-InStep : (l l' : Loop H) → InStep l → round handlers table l ≡ some (go_on l') → InStep l'
  unfolding round
  round-InStep l l' s e = >>=-elim (next_token l.pb_decoder) _ e λ (t, d) found rest.
      handle_token-InStep t (record l { pb_decoder = d }) l'
        (ap length (same_state l.pb_decoder d (next_token-SameFrame l.pb_decoder d t found)) ∙ s)
        rest

  -- The rounds of the loop.
  pub data Rounds : Loop H → Loop H → Type 0 where
    none_yet : {l : Loop H} → Rounds l l
    another : {l m n : Loop H} → round handlers table l ≡ some (go_on m) → Rounds m n → Rounds l n

  Rounds-InStep : (l n : Loop H) → InStep l → Rounds l n → InStep n
  Rounds-InStep l _ s none_yet = s
  Rounds-InStep l n s (another {m = m} e more) = Rounds-InStep m n (round-InStep l m s e) more

  start_run-InStep :
      (root buffer : ℕ) (bytes : List ℕ) (h : H) (d : Decoder FieldData)
      → InStep (start_run handlers table root buffer bytes h d)
  unfolding start_run start_message set_buffer
  start_run-InStep root buffer bytes h d = refl

  unwind-defined :
      (stack : List (Context FieldData)) (d : Decoder FieldData)
      → 2 ≤ length stack
      → (d' : Decoder FieldData) × (unwind stack d ≡ some d')
  unfolding unwind
  unwind-defined [] d h = absurd (omega arith)
  unwind-defined (context ∷ []) d h = absurd (omega arith)
  unwind-defined (context ∷ outer ∷ rest) d h = (_, refl)

  -- Whenever the loop calls `end_message`, which it does for a token that comes while a mapper
  -- waits on its stack, the decoder has an outer message to go back to: the call never reads the
  -- back of an empty vector, on any input and after any number of rounds.
  pub end_message-run_bbpb_decoder :
      (root buffer : ℕ) (bytes : List ℕ) (h : H) (d0 : Decoder FieldData)
      → (l : Loop H) (outer : ℕ) (rest : List ℕ) (t : PbToken) (d : Decoder FieldData)
      → Rounds (start_run handlers table root buffer bytes h d0) l
      → l.mappers ≡ outer ∷ rest
      → next_token l.pb_decoder ≡ some (t, d)
      → (d' : Decoder FieldData) × (end_message d ≡ some d')
  unfolding end_message
  end_message-run_bbpb_decoder root buffer bytes h d0 l outer rest t d rounds waits found =
      let s = Rounds-InStep _ l (start_run-InStep root buffer bytes h d0) rounds in
      let same = same_state l.pb_decoder d (next_token-SameFrame l.pb_decoder d t found) in
      unwind-defined d.state d (ground (arith, s, same, waits))
