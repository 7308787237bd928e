-- ===== src/Pb/Termination.antt =====
-- The end of Unmarshal of each stored message, of the messages of Msg and of the genesis state.
use wordle.Prelude.{◌≢◌, Bytes, ◌==◌}
use wordle.Pb.Varint.{stuck}
use wordle.Pb.Field.Ends.{
  not_stuck, FieldsEnd, case-SomeLeaves, len_field-Leaves, int_field-Leaves, unmarshal-Ends,
}
use wordle.Pb.GuessPb.{empty_guess, guess_fields, unmarshal_guess}
use wordle.Pb.WordlePb.{empty_wordle, wordle_fields, unmarshal_wordle}
use wordle.Pb.InfoPb.{info_fields, unmarshal_info}
use wordle.Pb.ChangePb.{change_fields, unmarshal_change}
use wordle.Pb.ParamsPb.{params_fields, params_fields-End}
use wordle.Pb.GenesisPb.{genesis_fields, unmarshal_genesis}
use wordle.Pb.TxPb.{unmarshal_submit_wordle, unmarshal_submit_guess, unmarshal_update_params}
use wordle.Pb.TxPb.RoundTrip.{unmarshal_messages_end}
use wordle.Pb.Field.Nested.{message_field-Leaves}
use wordle.Pb.StatePb.{state_fields, unmarshal_state}
use wordle.Pb.StatePb.Ends.{change_fields-End, state_fields-End}

guess_fields-End : FieldsEnd guess_fields
unfolding guess_fields
guess_fields-End l number wire_type rest m =
    case-SomeLeaves rest (number == 1) _ _ (len_field-Leaves l wire_type rest _) (
      case-SomeLeaves rest (number == 2) _ _ (len_field-Leaves l wire_type rest _) (
        case-SomeLeaves rest (number == 3) _ _ (len_field-Leaves l wire_type rest _)
          (case-SomeLeaves rest (number == 4) _ _ (len_field-Leaves l wire_type rest _) tt)))

wordle_fields-End : FieldsEnd wordle_fields
unfolding wordle_fields
wordle_fields-End l number wire_type rest m =
    case-SomeLeaves rest (number == 1) _ _ (len_field-Leaves l wire_type rest _) (
      case-SomeLeaves rest (number == 2) _ _ (len_field-Leaves l wire_type rest _)
        (case-SomeLeaves rest (number == 3) _ _ (len_field-Leaves l wire_type rest _) tt))

info_fields-End : FieldsEnd info_fields
unfolding info_fields
info_fields-End l number wire_type rest m =
    case-SomeLeaves rest (number == 1) _ _ (int_field-Leaves wire_type rest _) (
      case-SomeLeaves rest (number == 2) _ _ (int_field-Leaves wire_type rest _)
        (case-SomeLeaves rest (number == 3) _ _ (int_field-Leaves wire_type rest _) tt))

genesis_fields-End : FieldsEnd genesis_fields
unfolding genesis_fields unmarshal_wordle unmarshal_guess
genesis_fields-End l number wire_type rest m =
    case-SomeLeaves rest (number == 1) _ _
      (message_field-Leaves l wire_type rest _ _
        (unmarshal-Ends params_fields params_fields-End m.state_params))
      (case-SomeLeaves rest (number == 2) _ _
        (message_field-Leaves l wire_type rest _ _
          (unmarshal-Ends wordle_fields wordle_fields-End empty_wordle))
        (case-SomeLeaves rest (number == 3) _ _
          (message_field-Leaves l wire_type rest _ _
            (unmarshal-Ends guess_fields guess_fields-End empty_guess))
          tt))

-- On every sequence of bytes, Unmarshal of a guess, a wordle, the consensus information, a state change, a
-- block state, the genesis state and the three messages of Msg comes to an end, with a message or an
-- error: no round of a loop leaves the buffer as it found it.
pub unmarshal_ends :
    (buffer : Bytes)
    → (unmarshal_guess buffer ≢ stuck)
      × (unmarshal_wordle buffer ≢ stuck)
      × (unmarshal_info buffer ≢ stuck)
      × (unmarshal_change buffer ≢ stuck)
      × (unmarshal_state buffer ≢ stuck)
      × (unmarshal_genesis buffer ≢ stuck)
      × (unmarshal_submit_wordle buffer ≢ stuck)
      × (unmarshal_submit_guess buffer ≢ stuck)
      × (unmarshal_update_params buffer ≢ stuck)
unfolding unmarshal_guess unmarshal_wordle unmarshal_info unmarshal_change unmarshal_state
    unmarshal_genesis
unmarshal_ends buffer = (
  not_stuck _ _ (unmarshal-Ends guess_fields guess_fields-End _ buffer),
  not_stuck _ _ (unmarshal-Ends wordle_fields wordle_fields-End _ buffer),
  not_stuck _ _ (unmarshal-Ends info_fields info_fields-End _ buffer),
  not_stuck _ _ (unmarshal-Ends change_fields change_fields-End _ buffer),
  not_stuck _ _ (unmarshal-Ends state_fields state_fields-End _ buffer),
  not_stuck _ _ (unmarshal-Ends genesis_fields genesis_fields-End _ buffer),
  (unmarshal_messages_end buffer).0,
  (unmarshal_messages_end buffer).1,
  (unmarshal_messages_end buffer).2,
)
