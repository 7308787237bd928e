-- ===== src/Api/Tx/Wire.antt =====
-- A client writes a message with the code of pulsar, and the module reads it with that of gogoproto.
use wordle.Prelude.{◌≡◌, refl, ap, ◌∙◌, some, Bytes, [], ◌++◌}
use wordle.Types.{IsGoString}
use wordle.Types.Messages.{MsgSubmitWordle, MsgSubmitGuess}
use wordle.Pb.Varint.{ok}
use wordle.Pb.TxPb.{
  marshal_submit_wordle, unmarshal_submit_wordle, marshal_submit_guess, unmarshal_submit_guess,
}
use wordle.Pb.TxPb.RoundTrip.{unmarshal-marshal_submit_wordle, unmarshal-marshal_submit_guess}
use wordle.Api
use wordle.Api.{Runtime, Message, put_fields}
use wordle.Api.RoundTrip.{put_text-put_nonempty}
use wordle.Api.Tx.SubmitWordleApi.{submit_wordle_table, submit_wordle_marshal}
use wordle.Api.Tx.SubmitGuessApi.{submit_guess_table, submit_guess_marshal}

submit_wordle_marshal-marshal :
    (runtime : Runtime) (buf : Bytes) (m : MsgSubmitWordle)
    → IsGoString m.creator
    → IsGoString m.word
    → submit_wordle_marshal runtime buf (some (record { known = m; unknown_fields = [] }))
      ≡ buf ++ marshal_submit_wordle m
unfolding submit_wordle_marshal Api.marshal put_fields submit_wordle_table marshal_submit_wordle
submit_wordle_marshal-marshal runtime buf m hc hw =
    rw
      (
        put_text-put_nonempty runtime 18 m.word [] hw.0,
        put_text-put_nonempty runtime 10 m.creator _ hc.0,
      )
      refl

submit_guess_marshal-marshal :
    (runtime : Runtime) (buf : Bytes) (m : MsgSubmitGuess)
    → IsGoString m.creator
    → IsGoString m.word
    → submit_guess_marshal runtime buf (some (record { known = m; unknown_fields = [] }))
      ≡ buf ++ marshal_submit_guess m
unfolding submit_guess_marshal Api.marshal put_fields submit_guess_table marshal_submit_guess
submit_guess_marshal-marshal runtime buf m hc hw =
    rw
      (
        put_text-put_nonempty runtime 18 m.word [] hw.0,
        put_text-put_nonempty runtime 10 m.creator _ hc.0,
      )
      refl

-- The module reads a MsgSubmitGuess as the client that uses the generated API types wrote it, with texts of
-- fewer than 2 ^ 32 bytes and no unknown fields.
pub unmarshal-submit_guess_marshal :
    (runtime : Runtime) (m : MsgSubmitGuess)
    → IsGoString m.creator
    → IsGoString m.word
    → unmarshal_submit_guess
        (submit_guess_marshal runtime [] (some (record { known = m; unknown_fields = [] })))
      ≡ ok m
unmarshal-submit_guess_marshal runtime m hc hw =
    ap unmarshal_submit_guess (submit_guess_marshal-marshal runtime [] m hc hw)
    ∙ unmarshal-marshal_submit_guess m hc hw

-- The same of a MsgSubmitWordle.
pub unmarshal-submit_wordle_marshal :
    (runtime : Runtime) (m : MsgSubmitWordle)
    → IsGoString m.creator
    → IsGoString m.word
    → unmarshal_submit_wordle
        (submit_wordle_marshal runtime [] (some (record { known = m; unknown_fields = [] })))
      ≡ ok m
unmarshal-submit_wordle_marshal runtime m hc hw =
    ap unmarshal_submit_wordle (submit_wordle_marshal-marshal runtime [] m hc hw)
    ∙ unmarshal-marshal_submit_wordle m hc hw
