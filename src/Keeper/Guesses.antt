-- ===== src/Keeper/Guesses.antt =====
-- x/wordle/keeper/guess.go: the guess entries of the store.
pub mod Laws
pub mod Listing
use wordle.Prelude.{◌≡◌, refl, Bool, true, false, Option, none, some, Bytes, List, [], ◌∷◌, map}
use wordle.Exec.{
  Reply, ok, err, panic, Exec, pure, must, lift, gets, modify, cons_reply, some_reply, ◌>>=◌, ◌>>◌,
}
use wordle.Types.{Guess}
use wordle.Types.Keys.{guess_key, guess_key_prefix}
use wordle.Env.{Env}

module _ (env : Env) where
  open env use {Store, get_in, set_in, delete_in, entries_in, guess_codec}

  -- SetGuess: MustMarshal panics on an error.
  unfoldable pub set_guess : Guess → Exec Store (Unit {0})
  set_guess guess = do
    bz ← lift (must (guess_codec.marshal guess))
    modify (λ s. set_in guess_key_prefix s (guess_key guess.index) bz)

  -- What GetGuess makes of the bytes under a key; `none` for (val, false).
  unfoldable pub decode_guess : Option Bytes → Reply (Option Guess)
  decode_guess none = ok none
  decode_guess (some bz) = some_reply (must (guess_codec.unmarshal bz))

  unfoldable pub get_guess : Bytes → Exec Store (Option Guess)
  get_guess index = do
    b ← gets (λ s. get_in guess_key_prefix s (guess_key index))
    lift (decode_guess b)

  unfoldable pub remove_guess : Bytes → Exec Store (Unit {0})
  remove_guess index = modify (λ s. delete_in guess_key_prefix s (guess_key index))

  -- The loop of GetAllGuess over what the iterator has left.
  unfoldable pub decode_guesses : List (Bytes × Bytes) → Reply (List Guess)
  decode_guesses [] = ok []
  decode_guesses ((k, bz) ∷ entries) =
      cons_reply (must (guess_codec.unmarshal bz)) (decode_guesses entries)

  unfoldable pub get_all_guess : Exec Store (List Guess)
  unfolding decode_guesses
  get_all_guess = do
    entries ← gets (λ s. entries_in guess_key_prefix s)
    lift (decode_guesses entries)
