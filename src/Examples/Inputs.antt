-- ===== src/Examples/Inputs.antt =====
-- The inputs of the examples: a day, two accounts and their messages.
use wordle.Prelude.{Bytes, codes, []}
use wordle.Types.Messages.{MsgSubmitWordle, MsgSubmitGuess}
use wordle.Env.Sample.{sample, Purses}
use wordle.Keeper.MsgServer.{World}

abbrev pub today : Bytes
today = codes "2024-05-01"

abbrev pub alice : Bytes
alice = codes "alice"

abbrev pub bob : Bytes
bob = codes "bob"

abbrev pub purses : Purses
purses = record { accounts = 1000; modules = λ m. 0 }

abbrev pub empty_world : World sample
empty_world = ([], purses)

abbrev pub apple : MsgSubmitWordle
apple = record { creator = alice; word = codes "apple" }

abbrev pub guess_apple : MsgSubmitGuess
guess_apple = record { creator = bob; word = codes "apple" }

abbrev pub guess_melon : MsgSubmitGuess
guess_melon = record { creator = bob; word = codes "melon" }
