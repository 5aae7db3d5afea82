-- ===== src/Pb/Tokens/Nesting.antt =====
-- Messages within messages: `start_message`, the tokens and `end_message` of
-- src/pb/decoder.cpp, nested the way `run_bbpb_decoder` of src/mapper.cpp nests them.
use google_protobuf_dynamic.Common.{◌≡◌, refl, ◌∙◌, subst, sym, some, List, ◌∷◌, arith}
use mathlib.Core.Option.{some-injective}
use google_protobuf_dynamic.Pb.Types.{PbToken}
use google_protobuf_dynamic.Pb.Decoder.{Context, Decoder}
use google_protobuf_dynamic.Pb.FieldLookup.{Lookup}
use google_protobuf_dynamic.Pb.Tokens.{next_token, start_message, end_message}
use google_protobuf_dynamic.Pb.Tokens.Frames.{
  SameFrame, SameFrame-refl, SameFrame-trans, next_token-SameFrame,
}

-- The calls of a visitor that ends the messages it starts.
pub data Run {T : Type 0} : Decoder T → Decoder T → Type 0 where
  stop : {d : Decoder T} → Run d d
  token : {d d' e : Decoder T} {t : PbToken} → next_token d ≡ some (t, d') → Run d' e → Run d e
  nested :
      (l : Lookup T) (m : Decoder T) {d d' e : Decoder T}
      → Run (start_message l d) m
      → end_message m ≡ some d'
      → Run d' e
      → Run d e

module _ {T : Type 0} where
  -- The innermost context of the stack has the end of the message that is decoded.
  unfoldable pub IsFramed : Decoder T → Type 0
  IsFramed d =
      (outer : Context T) × (rest : List (Context T)) × (d.state ≡ outer ∷ rest)
      × (outer.message_end ≡ d.message_end)

  pub start_message-IsFramed : (l : Lookup T) (d : Decoder T) → IsFramed (start_message l d)
  unfolding start_message IsFramed
  start_message-IsFramed l d = (_, _, refl, refl)

  SameFrame-IsFramed : (d e : Decoder T) → SameFrame d e → IsFramed d → IsFramed e
  unfolding SameFrame IsFramed
  SameFrame-IsFramed d e (s, m, _, _, _, _) (outer, rest, p, q) = (outer, rest, s ∙ p, q ∙ sym m)

  -- What `end_message` does to a decoder `m` with the frame of `start_message l d`.
  abbrev pub restored : Decoder T → Decoder T → Decoder T
  restored d m = record m {
    state = d.state;
    message_end = d.message_end;
    current = d.current;
    field_entry = d.field_entry;
    current_state = d.current_state;
  }

  end_message-restored :
      (l : Lookup T) (d m : Decoder T)
      → IsFramed d
      → SameFrame (start_message l d) m
      → end_message m ≡ some (restored d m)
  unfolding start_message end_message SameFrame IsFramed
  end_message-restored l d m (outer, rest, p, q) (s, _, _, _, _, _) = ground (arith, p, q, s)

  restored-SameFrame :
      (l : Lookup T) (d m : Decoder T)
      → SameFrame (start_message l d) m
      → SameFrame d (restored d m)
  unfolding start_message SameFrame
  restored-SameFrame l d m (_, _, a, b, c, e) = (refl, refl, a, b, c, e)

  moved :
      (d m d' : Decoder T)
      → SameFrame d (restored d m)
      → some (restored d m) ≡ some d'
      → SameFrame d d'
  moved d m d' kept e = subst (SameFrame d) (some-injective _ _ e) kept

  -- A run keeps the buffer, the stack and the end of the message, however deep it goes.
  pub Run-SameFrame : (d e : Decoder T) → IsFramed d → Run d e → SameFrame d e
  Run-SameFrame d _ f Run.stop = SameFrame-refl d
  Run-SameFrame d e f (Run.token {d' = d'} {t = t} step run) =
      let kept = next_token-SameFrame d d' t step in
      SameFrame-trans d d' e kept (Run-SameFrame d' e (SameFrame-IsFramed d d' kept f) run)
  Run-SameFrame d e f (Run.nested l m {d' = d'} inside ended run) =
      let within = Run-SameFrame (start_message l d) m (start_message-IsFramed l d) inside in
      let kept = restored-SameFrame l d m within in
      SameFrame-trans d d' e (moved d m d' kept (sym (end_message-restored l d m f within) ∙ ended))
        (Run-SameFrame d' e
          (SameFrame-IsFramed d d'
            (moved d m d' kept (sym (end_message-restored l d m f within) ∙ ended)) f)
          run)

  -- A message that is started inside another, whose end the innermost context has, and any complete run of its tokens, can always be
  -- ended, and this restores exactly the place, the end, the field and the state of the outer one.
  pub end_message-start_message :
      (l : Lookup T) (d m : Decoder T)
      → IsFramed d
      → Run (start_message l d) m
      → end_message m ≡ some (restored d m)
  end_message-start_message l d m f inside =
      end_message-restored l d m f
        (Run-SameFrame (start_message l d) m (start_message-IsFramed l d) inside)
