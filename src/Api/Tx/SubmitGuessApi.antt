-- ===== src/Api/Tx/SubmitGuessApi.antt =====
-- MsgSubmitGuess of api/wordle/wordle/tx.pulsar.go
use wordle.Prelude.{ℕ, Bool, Option, List, Bytes, codes, [], ◌∷◌}
use wordle.Exec.{Reply}
use wordle.Types.Messages.{MsgSubmitGuess}
use wordle.Pb.Varint.{Decoded}
use wordle.Api
use wordle.Api.{Runtime, TextField, Message, Value}

unfoldable pub submit_guess_table : List (TextField MsgSubmitGuess)
submit_guess_table =
    record {
      name = codes "wordle.wordle.MsgSubmitGuess.creator";
      number = 1;
      read = λ g. g.creator;
      write = λ s g. record g { creator = s };
    }
    ∷ record {
      name = codes "wordle.wordle.MsgSubmitGuess.word";
      number = 2;
      read = λ g. g.word;
      write = λ s g. record g { word = s };
    }
    ∷ []

unfoldable pub submit_guess_range :
    {S : Type 0} → Message MsgSubmitGuess → (Bytes → Value → S → Bool × S) → S → S
unfolding submit_guess_table
submit_guess_range = Api.range submit_guess_table

unfoldable pub submit_guess_has : Message MsgSubmitGuess → Bytes → Reply Bool
unfolding submit_guess_table
submit_guess_has = Api.has submit_guess_table

unfoldable pub submit_guess_clear : Message MsgSubmitGuess → Bytes → Reply (Message MsgSubmitGuess)
unfolding submit_guess_table
submit_guess_clear = Api.clear submit_guess_table

unfoldable pub submit_guess_get : Message MsgSubmitGuess → Bytes → Reply Value
unfolding submit_guess_table
submit_guess_get = Api.get submit_guess_table

unfoldable pub submit_guess_set :
    Message MsgSubmitGuess → Bytes → Value → Reply (Message MsgSubmitGuess)
unfolding submit_guess_table
submit_guess_set = Api.set submit_guess_table

unfoldable pub submit_guess_mutable : Bytes → Reply Value
unfolding submit_guess_table
submit_guess_mutable = Api.mutable submit_guess_table

unfoldable pub submit_guess_new_field : Bytes → Reply Value
unfolding submit_guess_table
submit_guess_new_field = Api.new_field submit_guess_table

unfoldable pub submit_guess_size : Runtime → Option (Message MsgSubmitGuess) → ℕ
unfolding submit_guess_table
submit_guess_size runtime = Api.size runtime submit_guess_table

unfoldable pub submit_guess_marshal : Runtime → Bytes → Option (Message MsgSubmitGuess) → Bytes
unfolding submit_guess_table
submit_guess_marshal runtime = Api.marshal runtime submit_guess_table

unfoldable pub submit_guess_unmarshal :
    Runtime
    → Bool
    → Bytes
    → Option (Message MsgSubmitGuess)
    → Decoded (Option (Message MsgSubmitGuess))
unfolding submit_guess_table
submit_guess_unmarshal runtime = Api.unmarshal runtime submit_guess_table
