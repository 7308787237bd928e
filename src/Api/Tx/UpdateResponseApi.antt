-- ===== src/Api/Tx/UpdateResponseApi.antt =====
-- MsgUpdateParamsResponse of api/wordle/wordle/tx.pulsar.go
use wordle.Prelude.{ℕ, Bool, Option, List, Bytes, []}
use wordle.Exec.{Reply}
use wordle.Api.Tx.{MsgUpdateParamsResponse}
use wordle.Pb.Varint.{Decoded}
use wordle.Api
use wordle.Api.{Runtime, TextField, Message, Value}

unfoldable pub update_response_table : List (TextField MsgUpdateParamsResponse)
update_response_table = []

unfoldable pub update_response_range :
    {S : Type 0} → Message MsgUpdateParamsResponse → (Bytes → Value → S → Bool × S) → S → S
unfolding update_response_table
update_response_range = Api.range update_response_table

unfoldable pub update_response_has : Message MsgUpdateParamsResponse → Bytes → Reply Bool
unfolding update_response_table
update_response_has = Api.has update_response_table

unfoldable pub update_response_clear :
    Message MsgUpdateParamsResponse → Bytes → Reply (Message MsgUpdateParamsResponse)
unfolding update_response_table
update_response_clear = Api.clear update_response_table

unfoldable pub update_response_get : Message MsgUpdateParamsResponse → Bytes → Reply Value
unfolding update_response_table
update_response_get = Api.get update_response_table

unfoldable pub update_response_set :
    Message MsgUpdateParamsResponse → Bytes → Value → Reply (Message MsgUpdateParamsResponse)
unfolding update_response_table
update_response_set = Api.set update_response_table

unfoldable pub update_response_mutable : Bytes → Reply Value
unfolding update_response_table
update_response_mutable = Api.mutable update_response_table

unfoldable pub update_response_new_field : Bytes → Reply Value
unfolding update_response_table
update_response_new_field = Api.new_field update_response_table

unfoldable pub update_response_size : Runtime → Option (Message MsgUpdateParamsResponse) → ℕ
unfolding update_response_table
update_response_size runtime = Api.size runtime update_response_table

unfoldable pub update_response_marshal :
    Runtime → Bytes → Option (Message MsgUpdateParamsResponse) → Bytes
unfolding update_response_table
update_response_marshal runtime = Api.marshal runtime update_response_table

unfoldable pub update_response_unmarshal :
    Runtime
    → Bool
    → Bytes
    → Option (Message MsgUpdateParamsResponse)
    → Decoded (Option (Message MsgUpdateParamsResponse))
unfolding update_response_table
update_response_unmarshal runtime = Api.unmarshal runtime update_response_table
