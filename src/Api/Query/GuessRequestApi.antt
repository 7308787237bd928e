-- ===== src/Api/Query/GuessRequestApi.antt =====
-- QueryGetGuessRequest of api/wordle/wordle/query.pulsar.go
use wordle.Prelude.{ℕ, Bool, Option, List, Bytes, codes, [], ◌∷◌}
use wordle.Exec.{Reply}
use wordle.Api.Query.{QueryGetGuessRequest}
use wordle.Pb.Varint.{Decoded}
use wordle.Api
use wordle.Api.{Runtime, TextField, Message, Value}

unfoldable pub guess_request_table : List (TextField QueryGetGuessRequest)
guess_request_table =
    record {
      name = codes "wordle.wordle.QueryGetGuessRequest.index";
      number = 1;
      read = λ g. g.index;
      write = λ s g. record g { index = s };
    }
    ∷ []

unfoldable pub guess_request_range :
    {S : Type 0} → Message QueryGetGuessRequest → (Bytes → Value → S → Bool × S) → S → S
unfolding guess_request_table
guess_request_range = Api.range guess_request_table

unfoldable pub guess_request_has : Message QueryGetGuessRequest → Bytes → Reply Bool
unfolding guess_request_table
guess_request_has = Api.has guess_request_table

unfoldable pub guess_request_clear :
    Message QueryGetGuessRequest → Bytes → Reply (Message QueryGetGuessRequest)
unfolding guess_request_table
guess_request_clear = Api.clear guess_request_table

unfoldable pub guess_request_get : Message QueryGetGuessRequest → Bytes → Reply Value
unfolding guess_request_table
guess_request_get = Api.get guess_request_table

unfoldable pub guess_request_set :
    Message QueryGetGuessRequest → Bytes → Value → Reply (Message QueryGetGuessRequest)
unfolding guess_request_table
guess_request_set = Api.set guess_request_table

unfoldable pub guess_request_mutable : Bytes → Reply Value
unfolding guess_request_table
guess_request_mutable = Api.mutable guess_request_table

unfoldable pub guess_request_new_field : Bytes → Reply Value
unfolding guess_request_table
guess_request_new_field = Api.new_field guess_request_table

unfoldable pub guess_request_size : Runtime → Option (Message QueryGetGuessRequest) → ℕ
unfolding guess_request_table
guess_request_size runtime = Api.size runtime guess_request_table

unfoldable pub guess_request_marshal :
    Runtime → Bytes → Option (Message QueryGetGuessRequest) → Bytes
unfolding guess_request_table
guess_request_marshal runtime = Api.marshal runtime guess_request_table

unfoldable pub guess_request_unmarshal :
    Runtime
    → Bool
    → Bytes
    → Option (Message QueryGetGuessRequest)
    → Decoded (Option (Message QueryGetGuessRequest))
unfolding guess_request_table
guess_request_unmarshal runtime = Api.unmarshal runtime guess_request_table
