-- ===== src/Api/WordleApi.antt =====
-- api/wordle/wordle/wordle.pulsar.go
use wordle.Prelude.{ℕ, Bool, Option, List, Bytes, codes, [], ◌∷◌}
use wordle.Exec.{Reply}
use wordle.Types.{Wordle}
use wordle.Pb.Varint.{Decoded}
use wordle.Api
use wordle.Api.{Runtime, TextField, Message, Value}

unfoldable pub wordle_table : List (TextField Wordle)
wordle_table =
    record {
      name = codes "wordle.wordle.Wordle.index";
      number = 1;
      read = λ g. g.index;
      write = λ s g. record g { index = s };
    }
    ∷ record {
      name = codes "wordle.wordle.Wordle.word";
      number = 2;
      read = λ g. g.word;
      write = λ s g. record g { word = s };
    }
    ∷ record {
      name = codes "wordle.wordle.Wordle.submitter";
      number = 3;
      read = λ g. g.submitter;
      write = λ s g. record g { submitter = s };
    }
    ∷ []

unfoldable pub wordle_range : {S : Type 0} → Message Wordle → (Bytes → Value → S → Bool × S) → S → S
unfolding wordle_table
wordle_range = Api.range wordle_table

unfoldable pub wordle_has : Message Wordle → Bytes → Reply Bool
unfolding wordle_table
wordle_has = Api.has wordle_table

unfoldable pub wordle_clear : Message Wordle → Bytes → Reply (Message Wordle)
unfolding wordle_table
wordle_clear = Api.clear wordle_table

unfoldable pub wordle_get : Message Wordle → Bytes → Reply Value
unfolding wordle_table
wordle_get = Api.get wordle_table

unfoldable pub wordle_set : Message Wordle → Bytes → Value → Reply (Message Wordle)
unfolding wordle_table
wordle_set = Api.set wordle_table

unfoldable pub wordle_mutable : Bytes → Reply Value
unfolding wordle_table
wordle_mutable = Api.mutable wordle_table

unfoldable pub wordle_new_field : Bytes → Reply Value
unfolding wordle_table
wordle_new_field = Api.new_field wordle_table

unfoldable pub wordle_size : Runtime → Option (Message Wordle) → ℕ
unfolding wordle_table
wordle_size runtime = Api.size runtime wordle_table

unfoldable pub wordle_marshal : Runtime → Bytes → Option (Message Wordle) → Bytes
unfolding wordle_table
wordle_marshal runtime = Api.marshal runtime wordle_table

unfoldable pub wordle_unmarshal :
    Runtime → Bool → Bytes → Option (Message Wordle) → Decoded (Option (Message Wordle))
unfolding wordle_table
wordle_unmarshal runtime = Api.unmarshal runtime wordle_table
