-- ===== src/Examples/Api.antt =====
-- Messages of the generated API types, over a runtime that works as the code of x/wordle/types.
use wordle.Prelude.{arith, ◌≡◌, refl, some, codes, Bytes, [], ◌++◌}
use wordle.Prelude.Int.{ℤ, pos}
use wordle.Types.{Guess}
use wordle.Pb.Varint
use wordle.Pb.Varint.{Decoded, ◌>>=◌, sov, encode_varint}
use wordle.Pb.Field.{skip}
use wordle.Pb.GuessPb.{marshal_guess}
use wordle.Api.{Runtime, Message}
use wordle.Api.GuessApi.{guess_marshal}
use wordle.Pb.TxPb.{unmarshal_submit_guess}
use wordle.Api.Tx.SubmitGuessApi.{submit_guess_marshal}
use wordle.Api.Tx.Wire.{unmarshal-submit_guess_marshal}
use wordle.Examples.Inputs.{guess_melon}
use wordle.Api.Tables.{guess_marshal-marshal_guess}
use wordle.Examples.Pb.{a_guess, a_guess-IsWire}

abbrev skip_bytes : Bytes → Decoded ℤ
skip_bytes buffer = do n ← skip buffer; Varint.ok (pos n)

abbrev runtime : Runtime
runtime = record {
  sov = sov;
  encode_varint = encode_varint;
  skip = skip_bytes;
  sov_lem = λ v h. refl;
  encode_varint_lem = λ v tail h. refl;
}

abbrev message : Message Guess
message = record { known = a_guess; unknown_fields = [] }

guess_marshal-marshal_guess_example :
    guess_marshal runtime (codes "b") (some message) ≡ codes "b" ++ marshal_guess a_guess
guess_marshal-marshal_guess_example =
    guess_marshal-marshal_guess runtime (codes "b") a_guess a_guess-IsWire

unmarshal-submit_guess_marshal_example :
    unmarshal_submit_guess
      (submit_guess_marshal runtime [] (some (record { known = guess_melon; unknown_fields = [] })))
    ≡ Varint.ok guess_melon
unmarshal-submit_guess_marshal_example =
    unmarshal-submit_guess_marshal runtime guess_melon (ground arith) (ground arith)
