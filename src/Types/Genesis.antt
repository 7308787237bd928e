-- ===== src/Types/Genesis.antt =====
-- x/wordle/types/genesis.go
use wordle.Prelude.{Bytes, Bool, true, false, ◌||◌, List, [], ◌∷◌, beq, map, if◌then◌else◌}
use wordle.Exec.{Reply, ok, err, duplicate_wordle, duplicate_guess}
use wordle.Types.{Wordle, Guess, Params, params}
use wordle.Types.Keys.{wordle_key, guess_key}

pub record GenesisState : Type 0 where
  pub state_params : Params
  pub wordle_list : List Wordle
  pub guess_list : List Guess

unfoldable pub default_genesis : GenesisState
default_genesis = record { state_params = params; wordle_list = []; guess_list = [] }

-- Membership of a key in the map that the loop has filled.
unfoldable pub seen_key : Bytes → List Bytes → Bool
seen_key k [] = false
seen_key k (j ∷ js) = beq k j || seen_key k js

-- One of the two loops: a key that was seen before is an error.
unfoldable pub has_duplicate : List Bytes → List Bytes → Bool
unfolding seen_key
has_duplicate seen [] = false
has_duplicate seen (k ∷ ks) =
    let rest = has_duplicate (k ∷ seen) ks in if seen_key k seen then true else rest

-- `Params.Validate` accepts.
unfoldable pub validate : GenesisState → Reply (Unit {0})
unfolding has_duplicate
validate gs =
    if has_duplicate [] (map (λ (w : Wordle). wordle_key w.index) gs.wordle_list)
    then err duplicate_wordle
    else if has_duplicate [] (map (λ (g : Guess). guess_key g.index) gs.guess_list)
    then err duplicate_guess
    else ok tt
