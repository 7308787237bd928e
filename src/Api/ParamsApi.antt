-- ===== src/Api/ParamsApi.antt =====
-- Params of api/wordle/wordle/params.pulsar.go
use wordle.Prelude.{ℕ, Bool, Option, List, Bytes, []}
use wordle.Exec.{Reply}
use wordle.Types.{Params}
use wordle.Pb.Varint.{Decoded}
use wordle.Api
use wordle.Api.{Runtime, TextField, Message, Value}

unfoldable pub params_table : List (TextField Params)
params_table = []

unfoldable pub params_range : {S : Type 0} → Message Params → (Bytes → Value → S → Bool × S) → S → S
unfolding params_table
params_range = Api.range params_table

unfoldable pub params_has : Message Params → Bytes → Reply Bool
unfolding params_table
params_has = Api.has params_table

unfoldable pub params_clear : Message Params → Bytes → Reply (Message Params)
unfolding params_table
params_clear = Api.clear params_table

unfoldable pub params_get : Message Params → Bytes → Reply Value
unfolding params_table
params_get = Api.get params_table

unfoldable pub params_set : Message Params → Bytes → Value → Reply (Message Params)
unfolding params_table
params_set = Api.set params_table

unfoldable pub params_mutable : Bytes → Reply Value
unfolding params_table
params_mutable = Api.mutable params_table

unfoldable pub params_new_field : Bytes → Reply Value
unfolding params_table
params_new_field = Api.new_field params_table

unfoldable pub params_size : Runtime → Option (Message Params) → ℕ
unfolding params_table
params_size runtime = Api.size runtime params_table

unfoldable pub params_marshal : Runtime → Bytes → Option (Message Params) → Bytes
unfolding params_table
params_marshal runtime = Api.marshal runtime params_table

unfoldable pub params_unmarshal :
    Runtime → Bool → Bytes → Option (Message Params) → Decoded (Option (Message Params))
unfolding params_table
params_unmarshal runtime = Api.unmarshal runtime params_table
