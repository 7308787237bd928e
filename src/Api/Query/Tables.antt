-- ===== src/Api/Query/Tables.antt =====
-- The tables of the messages of Query: Get and Set, Marshal and Unmarshal agree.
use wordle.Prelude.{◌≡◌, refl, arith, Bool, beq, some, if◌then◌else◌, Bytes, []}
use wordle.Exec.{ok}
use wordle.Types.{IsGoString}
use wordle.Pb.Varint
use wordle.Api
use wordle.Api.{Runtime, Message, string_value}
use wordle.Api.Reflection.{IsLawful, get-set}
use wordle.Api.RoundTrip.{IsSwitch, unmarshal-marshal}
use wordle.Api.Query.{QueryGetWordleRequest, QueryGetGuessRequest}
use wordle.Api.Query.WordleRequestApi.{
  wordle_request_table, wordle_request_get, wordle_request_set, wordle_request_marshal,
  wordle_request_unmarshal,
}
use wordle.Api.Query.GuessRequestApi.{
  guess_request_table, guess_request_get, guess_request_set, guess_request_marshal,
  guess_request_unmarshal,
}

wordle_request_table-IsSwitch : IsSwitch wordle_request_table wordle_request_table
unfolding wordle_request_table Api.text_cases
wordle_request_table-IsSwitch = ((omega arith, (omega arith, λ l wire_type rest x. refl)), tt)

-- Unmarshal reads back the QueryGetWordleRequest that Marshal wrote.
pub wordle_request_unmarshal-wordle_request_marshal :
    (runtime : Runtime) (discard : Bool) (x : QueryGetWordleRequest)
    → IsGoString x.index
    → wordle_request_unmarshal runtime discard
        (wordle_request_marshal runtime [] (some (record { known = x; unknown_fields = [] })))
        (some (record { known = record { index = [] }; unknown_fields = [] }))
      ≡ Varint.ok (some (record { known = x; unknown_fields = [] }))
unfolding wordle_request_unmarshal wordle_request_marshal wordle_request_table
wordle_request_unmarshal-wordle_request_marshal runtime discard x h =
    unmarshal-marshal runtime wordle_request_table discard x (record { index = [] })
      wordle_request_table-IsSwitch (refl, tt) (h.0, tt) (omega arith)

wordle_request_table-IsLawful : IsLawful wordle_request_table
unfolding wordle_request_table beq
wordle_request_table-IsLawful = ((λ s x. refl, tt), tt)

-- After Set of a field, Get of its name returns the text, and Get of any other name what it returned before.
pub wordle_request_get-wordle_request_set :
    (x y : Message QueryGetWordleRequest) (name other s : Bytes)
    → wordle_request_set x name (string_value s) ≡ ok y
    → wordle_request_get y other
      ≡ (if beq name other then ok (string_value s) else wordle_request_get x other)
unfolding wordle_request_get wordle_request_set
wordle_request_get-wordle_request_set x y name other s =
    get-set wordle_request_table x y name other s wordle_request_table-IsLawful

guess_request_table-IsSwitch : IsSwitch guess_request_table guess_request_table
unfolding guess_request_table Api.text_cases
guess_request_table-IsSwitch = ((omega arith, (omega arith, λ l wire_type rest x. refl)), tt)

-- Unmarshal reads back the QueryGetGuessRequest that Marshal wrote.
pub guess_request_unmarshal-guess_request_marshal :
    (runtime : Runtime) (discard : Bool) (x : QueryGetGuessRequest)
    → IsGoString x.index
    → guess_request_unmarshal runtime discard
        (guess_request_marshal runtime [] (some (record { known = x; unknown_fields = [] })))
        (some (record { known = record { index = [] }; unknown_fields = [] }))
      ≡ Varint.ok (some (record { known = x; unknown_fields = [] }))
unfolding guess_request_unmarshal guess_request_marshal guess_request_table
guess_request_unmarshal-guess_request_marshal runtime discard x h =
    unmarshal-marshal runtime guess_request_table discard x (record { index = [] })
      guess_request_table-IsSwitch (refl, tt) (h.0, tt) (omega arith)

guess_request_table-IsLawful : IsLawful guess_request_table
unfolding guess_request_table beq
guess_request_table-IsLawful = ((λ s x. refl, tt), tt)

-- After Set of a field, Get of its name returns the text, and Get of any other name what it returned before.
pub guess_request_get-guess_request_set :
    (x y : Message QueryGetGuessRequest) (name other s : Bytes)
    → guess_request_set x name (string_value s) ≡ ok y
    → guess_request_get y other
      ≡ (if beq name other then ok (string_value s) else guess_request_get x other)
unfolding guess_request_get guess_request_set
guess_request_get-guess_request_set x y name other s =
    get-set guess_request_table x y name other s guess_request_table-IsLawful
