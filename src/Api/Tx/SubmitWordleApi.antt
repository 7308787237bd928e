-- ===== src/Api/Tx/SubmitWordleApi.antt =====
-- MsgSubmitWordle of api/wordle/wordle/tx.pulsar.go
use wordle.Prelude.{ℕ, Bool, Option, List, Bytes, codes, [], ◌∷◌}
use wordle.Exec.{Reply}
use wordle.Types.Messages.{MsgSubmitWordle}
use wordle.Pb.Varint.{Decoded}
use wordle.Api
use wordle.Api.{Runtime, TextField, Message, Value}

unfoldable pub submit_wordle_table : List (TextField MsgSubmitWordle)
submit_wordle_table =
    record {
      name = codes "wordle.wordle.MsgSubmitWordle.creator";
      number = 1;
      read = λ g. g.creator;
      write = λ s g. record g { creator = s };
    }
    ∷ record {
      name = codes "wordle.wordle.MsgSubmitWordle.word";
      number = 2;
      read = λ g. g.word;
      write = λ s g. record g { word = s };
    }
    ∷ []

unfoldable pub submit_wordle_range :
    {S : Type 0} → Message MsgSubmitWordle → (Bytes → Value → S → Bool × S) → S → S
unfolding submit_wordle_table
submit_wordle_range = Api.range submit_wordle_table

unfoldable pub submit_wordle_has : Message MsgSubmitWordle → Bytes → Reply Bool
unfolding submit_wordle_table
submit_wordle_has = Api.has submit_wordle_table

unfoldable pub submit_wordle_clear :
    Message MsgSubmitWordle → Bytes → Reply (Message MsgSubmitWordle)
unfolding submit_wordle_table
submit_wordle_clear = Api.clear submit_wordle_table

unfoldable pub submit_wordle_get : Message MsgSubmitWordle → Bytes → Reply Value
unfolding submit_wordle_table
submit_wordle_get = Api.get submit_wordle_table

unfoldable pub submit_wordle_set :
    Message MsgSubmitWordle → Bytes → Value → Reply (Message MsgSubmitWordle)
unfolding submit_wordle_table
submit_wordle_set = Api.set submit_wordle_table

unfoldable pub submit_wordle_mutable : Bytes → Reply Value
unfolding submit_wordle_table
submit_wordle_mutable = Api.mutable submit_wordle_table

unfoldable pub submit_wordle_new_field : Bytes → Reply Value
unfolding submit_wordle_table
submit_wordle_new_field = Api.new_field submit_wordle_table

unfoldable pub submit_wordle_size : Runtime → Option (Message MsgSubmitWordle) → ℕ
unfolding submit_wordle_table
submit_wordle_size runtime = Api.size runtime submit_wordle_table

unfoldable pub submit_wordle_marshal : Runtime → Bytes → Option (Message MsgSubmitWordle) → Bytes
unfolding submit_wordle_table
submit_wordle_marshal runtime = Api.marshal runtime submit_wordle_table

unfoldable pub submit_wordle_unmarshal :
    Runtime
    → Bool
    → Bytes
    → Option (Message MsgSubmitWordle)
    → Decoded (Option (Message MsgSubmitWordle))
unfolding submit_wordle_table
submit_wordle_unmarshal runtime = Api.unmarshal runtime submit_wordle_table
