-- ===== src/Api/Tx/WordleResponseApi.antt =====
-- MsgSubmitWordleResponse of api/wordle/wordle/tx.pulsar.go
use wordle.Prelude.{ℕ, Bool, Option, List, Bytes, []}
use wordle.Exec.{Reply}
use wordle.Api.Tx.{MsgSubmitWordleResponse}
use wordle.Pb.Varint.{Decoded}
use wordle.Api
use wordle.Api.{Runtime, TextField, Message, Value}

unfoldable pub wordle_response_table : List (TextField MsgSubmitWordleResponse)
wordle_response_table = []

unfoldable pub wordle_response_range :
    {S : Type 0} → Message MsgSubmitWordleResponse → (Bytes → Value → S → Bool × S) → S → S
unfolding wordle_response_table
wordle_response_range = Api.range wordle_response_table

unfoldable pub wordle_response_has : Message MsgSubmitWordleResponse → Bytes → Reply Bool
unfolding wordle_response_table
wordle_response_has = Api.has wordle_response_table

unfoldable pub wordle_response_clear :
    Message MsgSubmitWordleResponse → Bytes → Reply (Message MsgSubmitWordleResponse)
unfolding wordle_response_table
wordle_response_clear = Api.clear wordle_response_table

unfoldable pub wordle_response_get : Message MsgSubmitWordleResponse → Bytes → Reply Value
unfolding wordle_response_table
wordle_response_get = Api.get wordle_response_table

unfoldable pub wordle_response_set :
    Message MsgSubmitWordleResponse → Bytes → Value → Reply (Message MsgSubmitWordleResponse)
unfolding wordle_response_table
wordle_response_set = Api.set wordle_response_table

unfoldable pub wordle_response_mutable : Bytes → Reply Value
unfolding wordle_response_table
wordle_response_mutable = Api.mutable wordle_response_table

unfoldable pub wordle_response_new_field : Bytes → Reply Value
unfolding wordle_response_table
wordle_response_new_field = Api.new_field wordle_response_table

unfoldable pub wordle_response_size : Runtime → Option (Message MsgSubmitWordleResponse) → ℕ
unfolding wordle_response_table
wordle_response_size runtime = Api.size runtime wordle_response_table

unfoldable pub wordle_response_marshal :
    Runtime → Bytes → Option (Message MsgSubmitWordleResponse) → Bytes
unfolding wordle_response_table
wordle_response_marshal runtime = Api.marshal runtime wordle_response_table

unfoldable pub wordle_response_unmarshal :
    Runtime
    → Bool
    → Bytes
    → Option (Message MsgSubmitWordleResponse)
    → Decoded (Option (Message MsgSubmitWordleResponse))
unfolding wordle_response_table
wordle_response_unmarshal runtime = Api.unmarshal runtime wordle_response_table
