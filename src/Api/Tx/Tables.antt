-- ===== src/Api/Tx/Tables.antt =====
-- The tables of the messages of Tx: Get and Set, Marshal and Unmarshal agree.
use wordle.Prelude.{◌≡◌, refl, arith, Bool, beq, some, if◌then◌else◌, Bytes, []}
use wordle.Exec.{ok}
use wordle.Types.{IsGoString}
use wordle.Pb.Varint
use wordle.Api
use wordle.Api.{Runtime, Message, string_value}
use wordle.Api.Reflection.{IsLawful, get-set}
use wordle.Api.RoundTrip.{IsSwitch, unmarshal-marshal}
use wordle.Types.Messages.{MsgSubmitWordle, MsgSubmitGuess, MsgSubmitGuessResponse}
use wordle.Api.Tx.SubmitWordleApi.{
  submit_wordle_table, submit_wordle_get, submit_wordle_set, submit_wordle_marshal,
  submit_wordle_unmarshal,
}
use wordle.Api.Tx.SubmitGuessApi.{
  submit_guess_table, submit_guess_get, submit_guess_set, submit_guess_marshal,
  submit_guess_unmarshal,
}
use wordle.Api.Tx.GuessResponseApi.{
  guess_response_table, guess_response_get, guess_response_set, guess_response_marshal,
  guess_response_unmarshal,
}

submit_wordle_table-IsSwitch : IsSwitch submit_wordle_table submit_wordle_table
unfolding submit_wordle_table Api.text_cases
submit_wordle_table-IsSwitch = (
  (omega arith, (omega arith, λ l wire_type rest x. refl)),
  ((omega arith, (omega arith, λ l wire_type rest x. refl)), tt),
)

-- Unmarshal reads back the MsgSubmitWordle that Marshal wrote.
pub submit_wordle_unmarshal-submit_wordle_marshal :
    (runtime : Runtime) (discard : Bool) (x : MsgSubmitWordle)
    → IsGoString x.creator
    → IsGoString x.word
    → submit_wordle_unmarshal runtime discard
        (submit_wordle_marshal runtime [] (some (record { known = x; unknown_fields = [] })))
        (some (record { known = record { creator = []; word = [] }; unknown_fields = [] }))
      ≡ Varint.ok (some (record { known = x; unknown_fields = [] }))
unfolding submit_wordle_unmarshal submit_wordle_marshal submit_wordle_table
submit_wordle_unmarshal-submit_wordle_marshal runtime discard x h i =
    unmarshal-marshal runtime submit_wordle_table discard x (record { creator = []; word = [] })
      submit_wordle_table-IsSwitch (refl, (refl, tt)) (h.0, (i.0, tt)) (omega arith)

submit_wordle_table-IsLawful : IsLawful submit_wordle_table
unfolding submit_wordle_table beq
submit_wordle_table-IsLawful =
    ((λ s x. refl, (λ s x. refl, tt)), ((λ s x. refl, (λ s x. refl, tt)), tt))

-- After Set of a field, Get of its name returns the text, and Get of any other name what it returned before.
pub submit_wordle_get-submit_wordle_set :
    (x y : Message MsgSubmitWordle) (name other s : Bytes)
    → submit_wordle_set x name (string_value s) ≡ ok y
    → submit_wordle_get y other
      ≡ (if beq name other then ok (string_value s) else submit_wordle_get x other)
unfolding submit_wordle_get submit_wordle_set
submit_wordle_get-submit_wordle_set x y name other s =
    get-set submit_wordle_table x y name other s submit_wordle_table-IsLawful

submit_guess_table-IsSwitch : IsSwitch submit_guess_table submit_guess_table
unfolding submit_guess_table Api.text_cases
submit_guess_table-IsSwitch = (
  (omega arith, (omega arith, λ l wire_type rest x. refl)),
  ((omega arith, (omega arith, λ l wire_type rest x. refl)), tt),
)

-- Unmarshal reads back the MsgSubmitGuess that Marshal wrote.
pub submit_guess_unmarshal-submit_guess_marshal :
    (runtime : Runtime) (discard : Bool) (x : MsgSubmitGuess)
    → IsGoString x.creator
    → IsGoString x.word
    → submit_guess_unmarshal runtime discard
        (submit_guess_marshal runtime [] (some (record { known = x; unknown_fields = [] })))
        (some (record { known = record { creator = []; word = [] }; unknown_fields = [] }))
      ≡ Varint.ok (some (record { known = x; unknown_fields = [] }))
unfolding submit_guess_unmarshal submit_guess_marshal submit_guess_table
submit_guess_unmarshal-submit_guess_marshal runtime discard x h i =
    unmarshal-marshal runtime submit_guess_table discard x (record { creator = []; word = [] })
      submit_guess_table-IsSwitch (refl, (refl, tt)) (h.0, (i.0, tt)) (omega arith)

submit_guess_table-IsLawful : IsLawful submit_guess_table
unfolding submit_guess_table beq
submit_guess_table-IsLawful =
    ((λ s x. refl, (λ s x. refl, tt)), ((λ s x. refl, (λ s x. refl, tt)), tt))

-- After Set of a field, Get of its name returns the text, and Get of any other name what it returned before.
pub submit_guess_get-submit_guess_set :
    (x y : Message MsgSubmitGuess) (name other s : Bytes)
    → submit_guess_set x name (string_value s) ≡ ok y
    → submit_guess_get y other
      ≡ (if beq name other then ok (string_value s) else submit_guess_get x other)
unfolding submit_guess_get submit_guess_set
submit_guess_get-submit_guess_set x y name other s =
    get-set submit_guess_table x y name other s submit_guess_table-IsLawful

guess_response_table-IsSwitch : IsSwitch guess_response_table guess_response_table
unfolding guess_response_table Api.text_cases
guess_response_table-IsSwitch = (
  (omega arith, (omega arith, λ l wire_type rest x. refl)),
  ((omega arith, (omega arith, λ l wire_type rest x. refl)), tt),
)

-- Unmarshal reads back the MsgSubmitGuessResponse that Marshal wrote.
pub guess_response_unmarshal-guess_response_marshal :
    (runtime : Runtime) (discard : Bool) (x : MsgSubmitGuessResponse)
    → IsGoString x.title
    → IsGoString x.body
    → guess_response_unmarshal runtime discard
        (guess_response_marshal runtime [] (some (record { known = x; unknown_fields = [] })))
        (some (record { known = record { title = []; body = [] }; unknown_fields = [] }))
      ≡ Varint.ok (some (record { known = x; unknown_fields = [] }))
unfolding guess_response_unmarshal guess_response_marshal guess_response_table
guess_response_unmarshal-guess_response_marshal runtime discard x h i =
    unmarshal-marshal runtime guess_response_table discard x (record { title = []; body = [] })
      guess_response_table-IsSwitch (refl, (refl, tt)) (h.0, (i.0, tt)) (omega arith)

guess_response_table-IsLawful : IsLawful guess_response_table
unfolding guess_response_table beq
guess_response_table-IsLawful =
    ((λ s x. refl, (λ s x. refl, tt)), ((λ s x. refl, (λ s x. refl, tt)), tt))

-- After Set of a field, Get of its name returns the text, and Get of any other name what it returned before.
pub guess_response_get-guess_response_set :
    (x y : Message MsgSubmitGuessResponse) (name other s : Bytes)
    → guess_response_set x name (string_value s) ≡ ok y
    → guess_response_get y other
      ≡ (if beq name other then ok (string_value s) else guess_response_get x other)
unfolding guess_response_get guess_response_set
guess_response_get-guess_response_set x y name other s =
    get-set guess_response_table x y name other s guess_response_table-IsLawful
