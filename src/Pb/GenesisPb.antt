-- ===== src/Pb/GenesisPb.antt =====
-- x/wordle/types/genesis.pb.go: the GenesisState message.
use wordle.Prelude.{
  ℕ, ◌+◌, ◌≡◌, ◌<◌, ◌^◌, refl, sym, ap, ◌∙◌, arith, some, none, Bytes, List, [], ◌∷◌, ◌++◌, length,
  All, All-map, ◌==◌, if◌then◌else◌,
}
use mathlib.Core.List.{foldl, append_assoc, append-nil}
use wordle.Types.{Guess, Wordle, Params, params, IsWireGuess, IsWireWordle}
use wordle.Types.Genesis.{GenesisState}
use wordle.Pb.Varint.{Decoded, ok, sov}
use wordle.Pb.Field.{skip_field, Fields, unmarshal, put_len, put_all, read_fields}
use wordle.Pb.Field.Sizes.{size_all, length-put_len, length-put_all}
use wordle.Pb.Field.Parses.{Parses, Parses-end, delimited-Parses, repeated-Parses}
use wordle.Pb.Field.Nested.{message_field, message_field-put, messages-Reads}
use wordle.Pb.ParamsPb.{marshal_params, size_params, params_fields}
use wordle.Pb.GuessPb.{
  marshal_guess, size_guess, unmarshal_guess, unmarshal-marshal_guess, length-marshal_guess,
}
use wordle.Pb.WordlePb.{
  marshal_wordle, size_wordle, unmarshal_wordle, unmarshal-marshal_wordle, length-marshal_wordle,
}

unfoldable pub marshal_genesis : GenesisState → Bytes
marshal_genesis m =
    put_len 0xa (marshal_params m.state_params)
      (put_all 0x12 marshal_wordle m.wordle_list (put_all 0x1a marshal_guess m.guess_list []))

unfoldable pub size_genesis : GenesisState → ℕ
size_genesis m =
    (1 + size_params m.state_params + sov (size_params m.state_params))
    + size_all size_wordle m.wordle_list
    + size_all size_guess m.guess_list

abbrev pub add_wordle : GenesisState → Wordle → GenesisState
add_wordle m w = record m { wordle_list = m.wordle_list ++ w ∷ [] }

abbrev pub add_guess : GenesisState → Guess → GenesisState
add_guess m g = record m { guess_list = m.guess_list ++ g ∷ [] }

unfoldable pub genesis_fields : Fields GenesisState
genesis_fields l number wire_type rest m =
    if number == 1
    then some (
        message_field l wire_type rest (unmarshal params_fields m.state_params)
          (λ p. record m { state_params = p }))
    else if number == 2
    then some (message_field l wire_type rest unmarshal_wordle (add_wordle m))
    else if number == 3
    then some (message_field l wire_type rest unmarshal_guess (add_guess m))
    else none

abbrev pub no_genesis : GenesisState
no_genesis = record { state_params = params; wordle_list = []; guess_list = [] }

unfoldable pub unmarshal_genesis : Bytes → Decoded GenesisState
unmarshal_genesis = unmarshal genesis_fields no_genesis

-- A genesis state that fits Go's lengths.
pub record IsWireGenesis (m : GenesisState) : Type 0 where
  pub wordles : All (λ w. IsWireWordle w × (length (marshal_wordle w) < 2 ^ 32)) m.wordle_list
  pub guesses : All (λ g. IsWireGuess g × (length (marshal_guess g) < 2 ^ 32)) m.guess_list
  pub fits : length (marshal_genesis m) < 2 ^ 63

-- Size is the length of what Marshal writes.
pub length-marshal_genesis :
    (m : GenesisState) → IsWireGenesis m → length (marshal_genesis m) ≡ size_genesis m
unfolding marshal_genesis size_genesis marshal_params size_params
length-marshal_genesis m w = omega (
  arith,
  length-put_len 0xa []
      (put_all 0x12 marshal_wordle m.wordle_list (put_all 0x1a marshal_guess m.guess_list []))
      (omega arith),
  length-put_all 0x12 marshal_wordle size_wordle m.wordle_list
      (put_all 0x1a marshal_guess m.guess_list [])
      (All-map
        (λ x h. (length-marshal_wordle x h.0, omega (arith, length-marshal_wordle x h.0, h.1)))
        m.wordle_list w.wordles),
  length-put_all 0x1a marshal_guess size_guess m.guess_list [] (
      All-map (λ x h. (length-marshal_guess x h.0, omega (arith, length-marshal_guess x h.0, h.1)))
        m.guess_list w.guesses),
)

foldl-add_wordle :
    (xs : List Wordle) (m : GenesisState)
    → foldl add_wordle m xs ≡ record m { wordle_list = m.wordle_list ++ xs }
foldl-add_wordle [] m = λ i. record m { wordle_list = sym (append-nil m.wordle_list) i }
foldl-add_wordle (x ∷ xs) m = foldl-add_wordle xs (add_wordle m x) ∙ λ i. record m {
  wordle_list = append_assoc m.wordle_list (x ∷ []) xs i;
}

foldl-add_guess :
    (xs : List Guess) (m : GenesisState)
    → foldl add_guess m xs ≡ record m { guess_list = m.guess_list ++ xs }
foldl-add_guess [] m = λ i. record m { guess_list = sym (append-nil m.guess_list) i }
foldl-add_guess (x ∷ xs) m = foldl-add_guess xs (add_guess m x) ∙ λ i. record m {
  guess_list = append_assoc m.guess_list (x ∷ []) xs i;
}

params_only : (p : Params) → params ≡ p
params_only params = refl

-- What the folds over the fields build is the message.
rebuild :
    (m : GenesisState)
    → foldl add_guess (foldl add_wordle no_genesis m.wordle_list) m.guess_list ≡ m
rebuild m =
    foldl-add_guess m.guess_list _
    ∙ ap (λ (r : GenesisState). record r { guess_list = r.guess_list ++ m.guess_list })
        (foldl-add_wordle m.wordle_list no_genesis)
    ∙ ap (λ p. record m { state_params = p }) (params_only m.state_params)

-- Unmarshal gives back the genesis state that Marshal wrote, where its parts fit the lengths of
-- IsWireGenesis.
pub unmarshal-marshal_genesis :
    (m : GenesisState) → IsWireGenesis m → unmarshal_genesis (marshal_genesis m) ≡ ok m
unfolding unmarshal_genesis unmarshal marshal_genesis genesis_fields marshal_params params_fields
unmarshal-marshal_genesis m w = parses (length (marshal_genesis m)) (omega arith) (omega arith)
  where
    l : ℕ
    l = length (marshal_genesis m)

    parses : Parses genesis_fields skip_field l (marshal_genesis m) no_genesis m
    parses =
        delimited-Parses genesis_fields skip_field l 0xa (omega arith) (omega arith) w.fits [] _
          no_genesis no_genesis m refl
          (λ inside. ap some (
            message_field-put l (unmarshal params_fields params)
              (λ p. record no_genesis { state_params = p }) [] _ params w.fits (omega arith) inside
              (unfold unmarshal read_fields in refl)))
          (repeated-Parses genesis_fields skip_field l 0x12 marshal_wordle add_wordle m.wordle_list
            _ no_genesis m (omega arith) (omega arith) w.fits refl
            (messages-Reads genesis_fields l 0x12 marshal_wordle unmarshal_wordle add_wordle w.fits
              (λ rest k. refl) m.wordle_list no_genesis
              (All-map (λ x h. (unmarshal-marshal_wordle x h.0, h.1)) m.wordle_list w.wordles))
            (repeated-Parses genesis_fields skip_field l 0x1a marshal_guess add_guess m.guess_list _
              _ m (omega arith) (omega arith) w.fits refl
              (messages-Reads genesis_fields l 0x1a marshal_guess unmarshal_guess add_guess w.fits
                (λ rest k. refl) m.guess_list _
                (All-map (λ x h. (unmarshal-marshal_guess x h.0, h.1)) m.guess_list w.guesses))
              (rw (rebuild m) (Parses-end _ _ _ m))))
