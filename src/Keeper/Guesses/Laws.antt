-- ===== src/Keeper/Guesses/Laws.antt =====
-- Reading the guess entries back after a write, and what a write leaves alone.
use wordle.Prelude.{◌≡◌, ◌∙◌, ap, arith, Option, none, some, Bytes, ◌++◌, beq}
use wordle.Prelude.{if◌then◌else◌}
use wordle.Exec.{Reply, ok}
use wordle.Types.{Guess, IsWireGuess}
use wordle.Types.Keys.{guess_key, guess_key_prefix, beq-guess_key}
use wordle.Env.{Env}
use wordle.Keeper.Guesses.{set_guess, get_guess, decode_guess, remove_guess}

-- The whole key of an entry, and what of it follows the first byte.
abbrev pub guess_path : Bytes → Bytes
guess_path index = guess_key_prefix ++ guess_key index

module _ (env : Env) where
  open env use {
    Store, get, set, delete, get-set, get-delete, get_in_lem, set_in_lem, delete_in_lem,
    guess_codec,
  }

  pub get_guess_lem :
      (index : Bytes) (s : Store)
      → get_guess env index s ≡ (decode_guess env (get s (guess_path index)), s)
  unfolding get_guess
  get_guess_lem index s = rw (get_in_lem guess_key_prefix s (guess_key index))

  pub set_guess_lem :
      (guess : Guess) (s : Store)
      → IsWireGuess guess
      → (bz : Bytes) × (set_guess env guess s ≡ (ok tt, set s (guess_path guess.index) bz))
        × (decode_guess env (some bz) ≡ ok (some guess))
  unfolding set_guess decode_guess
  set_guess_lem guess s w =
      let (bz, m, u) = guess_codec.read_back guess w in
      (bz, rw (m, set_in_lem guess_key_prefix s (guess_key guess.index) bz), rw u)

  pub remove_guess_lem :
      (index : Bytes) (s : Store) → remove_guess env index s ≡ (ok tt, delete s (guess_path index))
  unfolding remove_guess
  remove_guess_lem index s = rw (delete_in_lem guess_key_prefix s (guess_key index))

  -- The entry that a store holds under an index.
  abbrev pub guess_at : Store → Bytes → Reply (Option Guess)
  guess_at s index = (get_guess env index s).0

  pub guess_at_lem :
      (s : Store) (index : Bytes) → guess_at s index ≡ decode_guess env (get s (guess_path index))
  guess_at_lem s index = ap (λ t. t.0) (get_guess_lem index s)

  pub get-set_guess :
      (s : Store) (i j v : Bytes)
      → get (set s (guess_path i) v) (guess_path j)
        ≡ (if beq i j then some v else get s (guess_path j))
  get-set_guess s i j v =
      get-set s _ _ (guess_path j) v
      ∙ ap (λ b. if b then some v else get s (guess_path j)) (beq-guess_key i j)

  pub get-delete_guess :
      (s : Store) (i j : Bytes)
      → get (delete s (guess_path i)) (guess_path j)
        ≡ (if beq i j then none else get s (guess_path j))
  get-delete_guess s i j =
      get-delete s _ _ (guess_path j)
      ∙ ap (λ b. if b then none else get s (guess_path j)) (beq-guess_key i j)

  -- After SetGuess of an entry with texts of fewer than 2 ^ 32 bytes, GetGuess finds it under its index,
  -- and under any other what was there.
  pub get_guess-set_guess :
      (guess : Guess) (s : Store) (index : Bytes)
      → IsWireGuess guess
      → guess_at (set_guess env guess s).1 index
        ≡ (if beq guess.index index then ok (some guess) else guess_at s index)
  get_guess-set_guess guess s index w =
      let (bz, e, d) = set_guess_lem guess s w in
      rw
        (
          e,
          guess_at_lem (set s (guess_path guess.index) bz) index,
          guess_at_lem s index,
          get-set_guess s guess.index index bz,
        )
        (ground (arith, d))

  -- After RemoveGuess, GetGuess finds nothing under the index, and under any other what was there.
  pub get_guess-remove_guess :
      (s : Store) (i index : Bytes)
      → guess_at (remove_guess env i s).1 index
        ≡ (if beq i index then ok none else guess_at s index)
  unfolding decode_guess
  get_guess-remove_guess s i index =
      rw
        (
          remove_guess_lem i s,
          guess_at_lem (delete s (guess_path i)) index,
          guess_at_lem s index,
          get-delete_guess s i index,
        )
        (ground arith)
