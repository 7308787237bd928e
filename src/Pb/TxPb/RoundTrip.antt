-- ===== src/Pb/TxPb/RoundTrip.antt =====
-- The messages of Msg: Unmarshal of what Marshal wrote, Size, and the end of Unmarshal.
use wordle.Prelude.{ℕ, ◌≡◌, ◌≢◌, ◌<◌, ◌^◌, refl, ap, arith, some, Bytes, [], length, ◌==◌}
use wordle.Types.{IsGoString, Params, params}
use wordle.Types.Messages.{MsgSubmitWordle, MsgSubmitGuess, MsgSubmitGuessResponse, MsgUpdateParams}
use wordle.Pb.Varint.{ok, stuck}
use wordle.Pb.Field.{skip_field, unmarshal, put_len, put_nonempty, read_fields}
use wordle.Pb.Varint.RoundTrip.{sov-le}
use wordle.Pb.Field.Sizes.{length-put_nonempty, length-put_len, size_len-le}
use wordle.Pb.Field.Parses.{Parses, Parses-end, nonempty-Parses, delimited-Parses}
use wordle.Pb.Field.Nested.{message_field-put, message_field-Leaves, two_texts}
use wordle.Pb.Field.Ends.{not_stuck, FieldsEnd, case-SomeLeaves, len_field-Leaves, unmarshal-Ends}
use wordle.Pb.ParamsPb.{marshal_params, params_fields, params_fields-End}
use wordle.Pb.TxPb.{
  marshal_submit_wordle, submit_wordle_fields, unmarshal_submit_wordle, marshal_submit_guess,
  size_submit_guess, submit_guess_fields, unmarshal_submit_guess, marshal_guess_response,
  guess_response_fields, unmarshal_guess_response, marshal_update_params, update_params_fields,
  unmarshal_update_params,
}

pub unmarshal-marshal_submit_wordle :
    (m : MsgSubmitWordle)
    → IsGoString m.creator
    → IsGoString m.word
    → unmarshal_submit_wordle (marshal_submit_wordle m) ≡ ok m
unfolding unmarshal_submit_wordle marshal_submit_wordle submit_wordle_fields
unmarshal-marshal_submit_wordle m hc hw =
    two_texts submit_wordle_fields (λ a b. record { creator = a; word = b }) (λ l rest. refl)
      (λ l a rest. refl) m.creator m.word hc.0 hw.0

pub unmarshal-marshal_submit_guess :
    (m : MsgSubmitGuess)
    → IsGoString m.creator
    → IsGoString m.word
    → unmarshal_submit_guess (marshal_submit_guess m) ≡ ok m
unfolding unmarshal_submit_guess marshal_submit_guess submit_guess_fields
unmarshal-marshal_submit_guess m hc hw =
    two_texts submit_guess_fields (λ a b. record { creator = a; word = b }) (λ l rest. refl)
      (λ l a rest. refl) m.creator m.word hc.0 hw.0

pub unmarshal-marshal_guess_response :
    (m : MsgSubmitGuessResponse)
    → IsGoString m.title
    → IsGoString m.body
    → unmarshal_guess_response (marshal_guess_response m) ≡ ok m
unfolding unmarshal_guess_response marshal_guess_response guess_response_fields
unmarshal-marshal_guess_response m ht hb =
    two_texts guess_response_fields (λ a b. record { title = a; body = b }) (λ l rest. refl)
      (λ l a rest. refl) m.title m.body ht.0 hb.0

params_only : (p : Params) → params ≡ p
params_only params = refl

-- Unmarshal reads back the MsgUpdateParams that Marshal wrote.
pub unmarshal-marshal_update_params :
    (m : MsgUpdateParams)
    → IsGoString m.authority
    → unmarshal_update_params (marshal_update_params m) ≡ ok m
unfolding unmarshal_update_params unmarshal marshal_update_params update_params_fields
    marshal_params params_fields
unmarshal-marshal_update_params m h =
    parses (length (marshal_update_params m)) (omega arith) (omega arith)
  where
    l : ℕ
    l = length (marshal_update_params m)

    long : l < 2 ^ 63
    long = omega (
      arith,
      length-put_nonempty 0xa m.authority (put_len 0x12 [] []) h.0,
      length-put_len 0x12 [] [] (omega arith),
      sov-le 0 (omega arith),
      size_len-le m.authority h.0,
    )

    empty : MsgUpdateParams
    empty = record { authority = []; new_params = params }

    named : MsgUpdateParams
    named = record { authority = m.authority; new_params = params }

    parses : Parses update_params_fields skip_field l (marshal_update_params m) empty m
    parses =
        nonempty-Parses update_params_fields skip_field l 0xa (omega arith) (omega arith) long
          (λ s. record empty { authority = s }) m.authority _ empty m refl (λ rest. refl) refl h.0
          (delimited-Parses update_params_fields skip_field l 0x12 (omega arith) (omega arith) long
            [] [] named (record named { new_params = params }) m refl
            (λ inside. ap some (
              message_field-put l (unmarshal params_fields params)
                (λ p. record named { new_params = p }) [] [] params long (omega arith) inside
                (unfold unmarshal read_fields in refl)))
            (rw (ap (λ p. record m { new_params = p }) (params_only m.new_params))
              (Parses-end _ _ _ m)))

-- Size is the length of what Marshal writes.
pub length-marshal_submit_guess :
    (m : MsgSubmitGuess)
    → IsGoString m.creator
    → IsGoString m.word
    → length (marshal_submit_guess m) ≡ size_submit_guess m
unfolding marshal_submit_guess size_submit_guess
length-marshal_submit_guess m hc hw = omega (
  arith,
  length-put_nonempty 0xa m.creator (put_nonempty 0x12 m.word []) hc.0,
  length-put_nonempty 0x12 m.word [] hw.0,
)

submit_wordle_fields-End : FieldsEnd submit_wordle_fields
unfolding submit_wordle_fields
submit_wordle_fields-End l number wire_type rest m =
    case-SomeLeaves rest (number == 1) _ _ (len_field-Leaves l wire_type rest _)
      (case-SomeLeaves rest (number == 2) _ _ (len_field-Leaves l wire_type rest _) tt)

submit_guess_fields-End : FieldsEnd submit_guess_fields
unfolding submit_guess_fields
submit_guess_fields-End l number wire_type rest m =
    case-SomeLeaves rest (number == 1) _ _ (len_field-Leaves l wire_type rest _)
      (case-SomeLeaves rest (number == 2) _ _ (len_field-Leaves l wire_type rest _) tt)

update_params_fields-End : FieldsEnd update_params_fields
unfolding update_params_fields
update_params_fields-End l number wire_type rest m =
    case-SomeLeaves rest (number == 1) _ _ (len_field-Leaves l wire_type rest _) (
      case-SomeLeaves rest (number == 2) _ _
        (message_field-Leaves l wire_type rest _ _
          (unmarshal-Ends params_fields params_fields-End m.new_params))
        tt)

-- On every sequence of bytes, Unmarshal of a message of Msg comes to an end.
pub unmarshal_messages_end :
    (buffer : Bytes)
    → (unmarshal_submit_wordle buffer ≢ stuck)
      × (unmarshal_submit_guess buffer ≢ stuck)
      × (unmarshal_update_params buffer ≢ stuck)
unfolding unmarshal_submit_wordle unmarshal_submit_guess unmarshal_update_params
unmarshal_messages_end buffer = (
  not_stuck _ _ (unmarshal-Ends submit_wordle_fields submit_wordle_fields-End _ buffer),
  not_stuck _ _ (unmarshal-Ends submit_guess_fields submit_guess_fields-End _ buffer),
  not_stuck _ _ (unmarshal-Ends update_params_fields update_params_fields-End _ buffer),
)
