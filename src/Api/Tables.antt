-- ===== src/Api/Tables.antt =====
-- The tables of Guess and Wordle: the functions that pulsar generates for them agree with each other and
-- with those that gogoproto generates for the same messages (x/wordle/types/*.pb.go).
use wordle.Prelude.{◌≡◌, refl, arith, Bool, beq, some, if◌then◌else◌, Bytes, [], ◌++◌}
use wordle.Exec.{ok}
use wordle.Types.{Guess, Wordle, IsWireGuess, IsWireWordle}
use wordle.Pb.Varint
use wordle.Pb.GuessPb.{empty_guess, marshal_guess}
use wordle.Pb.WordlePb.{empty_wordle, marshal_wordle}
use wordle.Api
use wordle.Api.{Runtime, Message, Value, string_value, put_fields, size_fields}
use wordle.Api.Reflection.{IsLawful, get-set}
use wordle.Api.RoundTrip.{IsSwitch, put_text-put_nonempty, unmarshal-marshal}
use wordle.Api.GuessApi.{guess_table, guess_get, guess_set, guess_marshal, guess_unmarshal}
use wordle.Api.WordleApi.{wordle_table, wordle_get, wordle_set, wordle_marshal, wordle_unmarshal}

guess_table-IsLawful : IsLawful guess_table
unfolding guess_table beq
guess_table-IsLawful = (
  (λ s x. refl, (λ s x. refl, (λ s x. refl, (λ s x. refl, tt)))),
  (
    (λ s x. refl, (λ s x. refl, (λ s x. refl, (λ s x. refl, tt)))),
    (
      (λ s x. refl, (λ s x. refl, (λ s x. refl, (λ s x. refl, tt)))),
      ((λ s x. refl, (λ s x. refl, (λ s x. refl, (λ s x. refl, tt)))), tt),
    ),
  ),
)

guess_table-IsSwitch : IsSwitch guess_table guess_table
unfolding guess_table Api.text_cases
guess_table-IsSwitch = (
  (omega arith, (omega arith, λ l wire_type rest x. refl)),
  (
    (omega arith, (omega arith, λ l wire_type rest x. refl)),
    (
      (omega arith, (omega arith, λ l wire_type rest x. refl)),
      ((omega arith, (omega arith, λ l wire_type rest x. refl)), tt),
    ),
  ),
)

-- With texts of fewer than 2 ^ 32 bytes and no unknown fields, the Marshal of pulsar appends to the
-- buffer the bytes that the gogoproto code writes for the guess.
pub guess_marshal-marshal_guess :
    (runtime : Runtime) (buf : Bytes) (g : Guess)
    → IsWireGuess g
    → guess_marshal runtime buf (some (record { known = g; unknown_fields = [] }))
      ≡ buf ++ marshal_guess g
unfolding guess_marshal Api.marshal put_fields guess_table marshal_guess
guess_marshal-marshal_guess runtime buf g w =
    rw
      (
        put_text-put_nonempty runtime 34 g.count [] w.count.0,
        put_text-put_nonempty runtime 26 g.submitter _ w.submitter.0,
        put_text-put_nonempty runtime 18 g.word _ w.word.0,
        put_text-put_nonempty runtime 10 g.index _ w.index.0,
      )
      refl

-- Unmarshal into an empty message reads back the guess that Marshal wrote into an empty buffer, with texts
-- of fewer than 2 ^ 32 bytes and no unknown fields.
pub guess_unmarshal-guess_marshal :
    (runtime : Runtime) (discard : Bool) (g : Guess)
    → IsWireGuess g
    → guess_unmarshal runtime discard
        (guess_marshal runtime [] (some (record { known = g; unknown_fields = [] })))
        (some (record { known = empty_guess; unknown_fields = [] }))
      ≡ Varint.ok (some (record { known = g; unknown_fields = [] }))
unfolding guess_unmarshal guess_marshal guess_table
guess_unmarshal-guess_marshal runtime discard g w =
    unmarshal-marshal runtime guess_table discard g empty_guess guess_table-IsSwitch
      (refl, (refl, (refl, (refl, tt)))) (w.index.0, (w.word.0, (w.submitter.0, (w.count.0, tt))))
      (omega arith)

-- After Set of a field of a guess, Get of its name returns the text, and Get of any other name what it
-- returned before.
pub guess_get-guess_set :
    (x y : Message Guess) (name other s : Bytes)
    → guess_set x name (string_value s) ≡ ok y
    → guess_get y other ≡ (if beq name other then ok (string_value s) else guess_get x other)
unfolding guess_get guess_set
guess_get-guess_set x y name other s = get-set guess_table x y name other s guess_table-IsLawful

wordle_table-IsLawful : IsLawful wordle_table
unfolding wordle_table beq
wordle_table-IsLawful = (
  (λ s x. refl, (λ s x. refl, (λ s x. refl, tt))),
  (
    (λ s x. refl, (λ s x. refl, (λ s x. refl, tt))),
    ((λ s x. refl, (λ s x. refl, (λ s x. refl, tt))), tt),
  ),
)

wordle_table-IsSwitch : IsSwitch wordle_table wordle_table
unfolding wordle_table Api.text_cases
wordle_table-IsSwitch = (
  (omega arith, (omega arith, λ l wire_type rest x. refl)),
  (
    (omega arith, (omega arith, λ l wire_type rest x. refl)),
    ((omega arith, (omega arith, λ l wire_type rest x. refl)), tt),
  ),
)

-- With texts of fewer than 2 ^ 32 bytes and no unknown fields, the Marshal of pulsar appends to the
-- buffer the bytes that the gogoproto code writes for the wordle.
pub wordle_marshal-marshal_wordle :
    (runtime : Runtime) (buf : Bytes) (g : Wordle)
    → IsWireWordle g
    → wordle_marshal runtime buf (some (record { known = g; unknown_fields = [] }))
      ≡ buf ++ marshal_wordle g
unfolding wordle_marshal Api.marshal put_fields wordle_table marshal_wordle
wordle_marshal-marshal_wordle runtime buf g w =
    rw
      (
        put_text-put_nonempty runtime 26 g.submitter [] w.submitter.0,
        put_text-put_nonempty runtime 18 g.word _ w.word.0,
        put_text-put_nonempty runtime 10 g.index _ w.index.0,
      )
      refl

-- Unmarshal into an empty message reads back the wordle that Marshal wrote into an empty buffer, with texts
-- of fewer than 2 ^ 32 bytes and no unknown fields.
pub wordle_unmarshal-wordle_marshal :
    (runtime : Runtime) (discard : Bool) (g : Wordle)
    → IsWireWordle g
    → wordle_unmarshal runtime discard
        (wordle_marshal runtime [] (some (record { known = g; unknown_fields = [] })))
        (some (record { known = empty_wordle; unknown_fields = [] }))
      ≡ Varint.ok (some (record { known = g; unknown_fields = [] }))
unfolding wordle_unmarshal wordle_marshal wordle_table
wordle_unmarshal-wordle_marshal runtime discard g w =
    unmarshal-marshal runtime wordle_table discard g empty_wordle wordle_table-IsSwitch
      (refl, (refl, (refl, tt))) (w.index.0, (w.word.0, (w.submitter.0, tt))) (omega arith)

-- After Set of a field of a wordle, Get of its name returns the text, and Get of any other name what it
-- returned before.
pub wordle_get-wordle_set :
    (x y : Message Wordle) (name other s : Bytes)
    → wordle_set x name (string_value s) ≡ ok y
    → wordle_get y other ≡ (if beq name other then ok (string_value s) else wordle_get x other)
unfolding wordle_get wordle_set
wordle_get-wordle_set x y name other s = get-set wordle_table x y name other s wordle_table-IsLawful
