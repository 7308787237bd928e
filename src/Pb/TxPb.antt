-- ===== src/Pb/TxPb.antt =====
-- x/wordle/types/tx.pb.go: the messages of the Msg service on the wire. The two empty responses have no
-- fields, and their code is that of the parameters.
pub mod RoundTrip
use wordle.Prelude.{
  ℕ, ◌+◌, ◌≡◌, ◌≢◌, ◌<◌, ◌^◌, refl, ap, arith, some, none, Bytes, [], length, ◌==◌, if◌then◌else◌,
}
use wordle.Types.{IsGoString, Params, params}
use wordle.Types.Messages.{MsgSubmitWordle, MsgSubmitGuess, MsgSubmitGuessResponse, MsgUpdateParams}
use wordle.Pb.Varint.{Decoded, ok, stuck, sov}
use wordle.Pb.Field.{skip_field, len_field, Fields, unmarshal, put_len, put_nonempty, read_fields}
use wordle.Pb.Field.Sizes.{size_len, length-put_nonempty, length-put_len, size_len-le}
use wordle.Pb.Field.Parses.{Parses, Parses-end, nonempty-Parses, delimited-Parses}
use wordle.Pb.Field.Nested.{message_field, message_field-put, message_field-Leaves, two_texts}
use wordle.Pb.Field.Ends.{FieldsEnd, case-SomeLeaves, len_field-Leaves, unmarshal-Ends}
use wordle.Pb.ParamsPb.{
  marshal_params, size_params, params_fields, unmarshal_params, params_fields-End,
}

unfoldable pub marshal_submit_wordle : MsgSubmitWordle → Bytes
marshal_submit_wordle m = put_nonempty 0xa m.creator (put_nonempty 0x12 m.word [])

unfoldable pub size_submit_wordle : MsgSubmitWordle → ℕ
size_submit_wordle m = size_len m.creator + size_len m.word

unfoldable pub submit_wordle_fields : Fields MsgSubmitWordle
submit_wordle_fields l number wire_type rest m =
    if number == 1
    then some (len_field l wire_type rest (λ s. record m { creator = s }))
    else if number == 2
    then some (len_field l wire_type rest (λ s. record m { word = s }))
    else none

unfoldable pub unmarshal_submit_wordle : Bytes → Decoded MsgSubmitWordle
unmarshal_submit_wordle = unmarshal submit_wordle_fields (record { creator = []; word = [] })

unfoldable pub marshal_submit_guess : MsgSubmitGuess → Bytes
marshal_submit_guess m = put_nonempty 0xa m.creator (put_nonempty 0x12 m.word [])

unfoldable pub size_submit_guess : MsgSubmitGuess → ℕ
size_submit_guess m = size_len m.creator + size_len m.word

unfoldable pub submit_guess_fields : Fields MsgSubmitGuess
submit_guess_fields l number wire_type rest m =
    if number == 1
    then some (len_field l wire_type rest (λ s. record m { creator = s }))
    else if number == 2
    then some (len_field l wire_type rest (λ s. record m { word = s }))
    else none

unfoldable pub unmarshal_submit_guess : Bytes → Decoded MsgSubmitGuess
unmarshal_submit_guess = unmarshal submit_guess_fields (record { creator = []; word = [] })

unfoldable pub marshal_guess_response : MsgSubmitGuessResponse → Bytes
marshal_guess_response m = put_nonempty 0xa m.title (put_nonempty 0x12 m.body [])

unfoldable pub size_guess_response : MsgSubmitGuessResponse → ℕ
size_guess_response m = size_len m.title + size_len m.body

unfoldable pub guess_response_fields : Fields MsgSubmitGuessResponse
guess_response_fields l number wire_type rest m =
    if number == 1
    then some (len_field l wire_type rest (λ s. record m { title = s }))
    else if number == 2
    then some (len_field l wire_type rest (λ s. record m { body = s }))
    else none

unfoldable pub unmarshal_guess_response : Bytes → Decoded MsgSubmitGuessResponse
unmarshal_guess_response = unmarshal guess_response_fields (record { title = []; body = [] })

-- The parameters stand there even when they are empty, and are read into those that the message has.
unfoldable pub marshal_update_params : MsgUpdateParams → Bytes
marshal_update_params m =
    put_nonempty 0xa m.authority (put_len 0x12 (marshal_params m.new_params) [])

unfoldable pub size_update_params : MsgUpdateParams → ℕ
size_update_params m =
    size_len m.authority + (1 + size_params m.new_params + sov (size_params m.new_params))

unfoldable pub update_params_fields : Fields MsgUpdateParams
update_params_fields l number wire_type rest m =
    if number == 1
    then some (len_field l wire_type rest (λ s. record m { authority = s }))
    else if number == 2
    then some (
        message_field l wire_type rest (unmarshal params_fields m.new_params)
          (λ p. record m { new_params = p }))
    else none

unfoldable pub unmarshal_update_params : Bytes → Decoded MsgUpdateParams
unmarshal_update_params =
    unmarshal update_params_fields (record { authority = []; new_params = params })
