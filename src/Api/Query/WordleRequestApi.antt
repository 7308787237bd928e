-- ===== src/Api/Query/WordleRequestApi.antt =====
-- QueryGetWordleRequest of api/wordle/wordle/query.pulsar.go
use wordle.Prelude.{ℕ, Bool, Option, List, Bytes, codes, [], ◌∷◌}
use wordle.Exec.{Reply}
use wordle.Api.Query.{QueryGetWordleRequest}
use wordle.Pb.Varint.{Decoded}
use wordle.Api
use wordle.Api.{Runtime, TextField, Message, Value}

unfoldable pub wordle_request_table : List (TextField QueryGetWordleRequest)
wordle_request_table =
    record {
      name = codes "wordle.wordle.QueryGetWordleRequest.index";
      number = 1;
      read = λ g. g.index;
      write = λ s g. record g { index = s };
    }
    ∷ []

unfoldable pub wordle_request_range :
    {S : Type 0} → Message QueryGetWordleRequest → (Bytes → Value → S → Bool × S) → S → S
unfolding wordle_request_table
wordle_request_range = Api.range wordle_request_table

unfoldable pub wordle_request_has : Message QueryGetWordleRequest → Bytes → Reply Bool
unfolding wordle_request_table
wordle_request_has = Api.has wordle_request_table

unfoldable pub wordle_request_clear :
    Message QueryGetWordleRequest → Bytes → Reply (Message QueryGetWordleRequest)
unfolding wordle_request_table
wordle_request_clear = Api.clear wordle_request_table

unfoldable pub wordle_request_get : Message QueryGetWordleRequest → Bytes → Reply Value
unfolding wordle_request_table
wordle_request_get = Api.get wordle_request_table

unfoldable pub wordle_request_set :
    Message QueryGetWordleRequest → Bytes → Value → Reply (Message QueryGetWordleRequest)
unfolding wordle_request_table
wordle_request_set = Api.set wordle_request_table

unfoldable pub wordle_request_mutable : Bytes → Reply Value
unfolding wordle_request_table
wordle_request_mutable = Api.mutable wordle_request_table

unfoldable pub wordle_request_new_field : Bytes → Reply Value
unfolding wordle_request_table
wordle_request_new_field = Api.new_field wordle_request_table

unfoldable pub wordle_request_size : Runtime → Option (Message QueryGetWordleRequest) → ℕ
unfolding wordle_request_table
wordle_request_size runtime = Api.size runtime wordle_request_table

unfoldable pub wordle_request_marshal :
    Runtime → Bytes → Option (Message QueryGetWordleRequest) → Bytes
unfolding wordle_request_table
wordle_request_marshal runtime = Api.marshal runtime wordle_request_table

unfoldable pub wordle_request_unmarshal :
    Runtime
    → Bool
    → Bytes
    → Option (Message QueryGetWordleRequest)
    → Decoded (Option (Message QueryGetWordleRequest))
unfolding wordle_request_table
wordle_request_unmarshal runtime = Api.unmarshal runtime wordle_request_table
