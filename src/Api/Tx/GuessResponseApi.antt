-- ===== src/Api/Tx/GuessResponseApi.antt =====
-- MsgSubmitGuessResponse of api/wordle/wordle/tx.pulsar.go
use wordle.Prelude.{ℕ, Bool, Option, List, Bytes, codes, [], ◌∷◌}
use wordle.Exec.{Reply}
use wordle.Types.Messages.{MsgSubmitGuessResponse}
use wordle.Pb.Varint.{Decoded}
use wordle.Api
use wordle.Api.{Runtime, TextField, Message, Value}

unfoldable pub guess_response_table : List (TextField MsgSubmitGuessResponse)
guess_response_table =
    record {
      name = codes "wordle.wordle.MsgSubmitGuessResponse.title";
      number = 1;
      read = λ g. g.title;
      write = λ s g. record g { title = s };
    }
    ∷ record {
      name = codes "wordle.wordle.MsgSubmitGuessResponse.body";
      number = 2;
      read = λ g. g.body;
      write = λ s g. record g { body = s };
    }
    ∷ []

unfoldable pub guess_response_range :
    {S : Type 0} → Message MsgSubmitGuessResponse → (Bytes → Value → S → Bool × S) → S → S
unfolding guess_response_table
guess_response_range = Api.range guess_response_table

unfoldable pub guess_response_has : Message MsgSubmitGuessResponse → Bytes → Reply Bool
unfolding guess_response_table
guess_response_has = Api.has guess_response_table

unfoldable pub guess_response_clear :
    Message MsgSubmitGuessResponse → Bytes → Reply (Message MsgSubmitGuessResponse)
unfolding guess_response_table
guess_response_clear = Api.clear guess_response_table

unfoldable pub guess_response_get : Message MsgSubmitGuessResponse → Bytes → Reply Value
unfolding guess_response_table
guess_response_get = Api.get guess_response_table

unfoldable pub guess_response_set :
    Message MsgSubmitGuessResponse → Bytes → Value → Reply (Message MsgSubmitGuessResponse)
unfolding guess_response_table
guess_response_set = Api.set guess_response_table

unfoldable pub guess_response_mutable : Bytes → Reply Value
unfolding guess_response_table
guess_response_mutable = Api.mutable guess_response_table

unfoldable pub guess_response_new_field : Bytes → Reply Value
unfolding guess_response_table
guess_response_new_field = Api.new_field guess_response_table

unfoldable pub guess_response_size : Runtime → Option (Message MsgSubmitGuessResponse) → ℕ
unfolding guess_response_table
guess_response_size runtime = Api.size runtime guess_response_table

unfoldable pub guess_response_marshal :
    Runtime → Bytes → Option (Message MsgSubmitGuessResponse) → Bytes
unfolding guess_response_table
guess_response_marshal runtime = Api.marshal runtime guess_response_table

unfoldable pub guess_response_unmarshal :
    Runtime
    → Bool
    → Bytes
    → Option (Message MsgSubmitGuessResponse)
    → Decoded (Option (Message MsgSubmitGuessResponse))
unfolding guess_response_table
guess_response_unmarshal runtime = Api.unmarshal runtime guess_response_table
