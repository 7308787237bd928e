-- ===== src/Api/Query/ParamsRequestApi.antt =====
-- QueryParamsRequest of api/wordle/wordle/query.pulsar.go
use wordle.Prelude.{ℕ, Bool, Option, List, Bytes, []}
use wordle.Exec.{Reply}
use wordle.Api.Query.{QueryParamsRequest}
use wordle.Pb.Varint.{Decoded}
use wordle.Api
use wordle.Api.{Runtime, TextField, Message, Value}

unfoldable pub params_request_table : List (TextField QueryParamsRequest)
params_request_table = []

unfoldable pub params_request_range :
    {S : Type 0} → Message QueryParamsRequest → (Bytes → Value → S → Bool × S) → S → S
unfolding params_request_table
params_request_range = Api.range params_request_table

unfoldable pub params_request_has : Message QueryParamsRequest → Bytes → Reply Bool
unfolding params_request_table
params_request_has = Api.has params_request_table

unfoldable pub params_request_clear :
    Message QueryParamsRequest → Bytes → Reply (Message QueryParamsRequest)
unfolding params_request_table
params_request_clear = Api.clear params_request_table

unfoldable pub params_request_get : Message QueryParamsRequest → Bytes → Reply Value
unfolding params_request_table
params_request_get = Api.get params_request_table

unfoldable pub params_request_set :
    Message QueryParamsRequest → Bytes → Value → Reply (Message QueryParamsRequest)
unfolding params_request_table
params_request_set = Api.set params_request_table

unfoldable pub params_request_mutable : Bytes → Reply Value
unfolding params_request_table
params_request_mutable = Api.mutable params_request_table

unfoldable pub params_request_new_field : Bytes → Reply Value
unfolding params_request_table
params_request_new_field = Api.new_field params_request_table

unfoldable pub params_request_size : Runtime → Option (Message QueryParamsRequest) → ℕ
unfolding params_request_table
params_request_size runtime = Api.size runtime params_request_table

unfoldable pub params_request_marshal :
    Runtime → Bytes → Option (Message QueryParamsRequest) → Bytes
unfolding params_request_table
params_request_marshal runtime = Api.marshal runtime params_request_table

unfoldable pub params_request_unmarshal :
    Runtime
    → Bool
    → Bytes
    → Option (Message QueryParamsRequest)
    → Decoded (Option (Message QueryParamsRequest))
unfolding params_request_table
params_request_unmarshal runtime = Api.unmarshal runtime params_request_table
