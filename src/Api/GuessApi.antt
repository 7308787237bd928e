-- ===== src/Api/GuessApi.antt =====
-- api/wordle/wordle/guess.pulsar.go
use wordle.Prelude.{ℕ, Bool, Option, List, Bytes, codes, [], ◌∷◌}
use wordle.Exec.{Reply}
use wordle.Types.{Guess}
use wordle.Pb.Varint.{Decoded}
use wordle.Api
use wordle.Api.{Runtime, TextField, Message, Value}

unfoldable pub guess_table : List (TextField Guess)
guess_table =
    record {
      name = codes "wordle.wordle.Guess.index";
      number = 1;
      read = λ g. g.index;
      write = λ s g. record g { index = s };
    }
    ∷ record {
      name = codes "wordle.wordle.Guess.word";
      number = 2;
      read = λ g. g.word;
      write = λ s g. record g { word = s };
    }
    ∷ record {
      name = codes "wordle.wordle.Guess.submitter";
      number = 3;
      read = λ g. g.submitter;
      write = λ s g. record g { submitter = s };
    }
    ∷ record {
      name = codes "wordle.wordle.Guess.count";
      number = 4;
      read = λ g. g.count;
      write = λ s g. record g { count = s };
    }
    ∷ []

unfoldable pub guess_range : {S : Type 0} → Message Guess → (Bytes → Value → S → Bool × S) → S → S
unfolding guess_table
guess_range = Api.range guess_table

unfoldable pub guess_has : Message Guess → Bytes → Reply Bool
unfolding guess_table
guess_has = Api.has guess_table

unfoldable pub guess_clear : Message Guess → Bytes → Reply (Message Guess)
unfolding guess_table
guess_clear = Api.clear guess_table

unfoldable pub guess_get : Message Guess → Bytes → Reply Value
unfolding guess_table
guess_get = Api.get guess_table

unfoldable pub guess_set : Message Guess → Bytes → Value → Reply (Message Guess)
unfolding guess_table
guess_set = Api.set guess_table

unfoldable pub guess_mutable : Bytes → Reply Value
unfolding guess_table
guess_mutable = Api.mutable guess_table

unfoldable pub guess_new_field : Bytes → Reply Value
unfolding guess_table
guess_new_field = Api.new_field guess_table

unfoldable pub guess_size : Runtime → Option (Message Guess) → ℕ
unfolding guess_table
guess_size runtime = Api.size runtime guess_table

unfoldable pub guess_marshal : Runtime → Bytes → Option (Message Guess) → Bytes
unfolding guess_table
guess_marshal runtime = Api.marshal runtime guess_table

unfoldable pub guess_unmarshal :
    Runtime → Bool → Bytes → Option (Message Guess) → Decoded (Option (Message Guess))
unfolding guess_table
guess_unmarshal runtime = Api.unmarshal runtime guess_table
