-- ===== src/Keeper/Guesses/Listing.antt =====
-- GetAllGuess: a store whose guess entries are in order, and what the list of them holds.
use wordle.Prelude.{◌≡◌, refl, ap, ◌∙◌, Option, none, some, Bytes, List, codes, [], ◌∷◌}
use wordle.Exec.{ok, must, cons_reply}
use wordle.Types.{Guess, IsWireGuess}
use wordle.Env.{Env}
use wordle.Keeper.Entries
use wordle.Keeper.Entries.{first_of, read_entry, read_entries, entries_lem, set-IsKept}
use wordle.Keeper.Guesses.{set_guess, decode_guess, decode_guesses, get_all_guess}
use wordle.Keeper.Guesses.Laws.{guess_at, guess_at_lem}
use wordle.Types.Keys.{guess_key, guess_key_prefix}

-- The key prefix behind its first byte.
abbrev pub prefix_rest : Bytes
prefix_rest = codes "uess/value/"

abbrev pub guess_index : Guess → Bytes
guess_index g = g.index

module _ (env : Env) where
  open env use {Store, kv, entries_in, set_in_lem, guess_codec}

  -- A store whose guess entries can all be read, each under its own key.
  abbrev pub IsKept : Store → Type 0
  IsKept = Entries.IsKept guess_index guess_codec kv 71 prefix_rest

  pub decode_guess_lem :
      (o : Option Bytes) → decode_guess env o ≡ read_entry guess_index guess_codec o
  unfolding decode_guess
  decode_guess_lem none = refl
  decode_guess_lem (some bz) = refl

  pub decode_guesses_lem :
      (entries : List (Bytes × Bytes))
      → decode_guesses env entries ≡ read_entries guess_index guess_codec entries
  unfolding decode_guesses read_entries
  decode_guesses_lem [] = refl
  decode_guesses_lem ((k, bz) ∷ entries) =
      ap (cons_reply (must (guess_codec.unmarshal bz))) (decode_guesses_lem entries)

  -- GetAllGuess of such a store succeeds, and GetGuess of an index finds the first guess of the list
  -- with that index.
  pub get_all_guess-get_guess :
      (s : Store)
      → IsKept s
      → (gs : List Guess) × (get_all_guess env s ≡ (ok gs, s))
        × ((i : Bytes) → guess_at env s i ≡ ok (first_of guess_index i gs))
  unfolding get_all_guess
  get_all_guess-get_guess s kept =
      let (gs, d, f) = entries_lem guess_index guess_codec kv 71 prefix_rest s kept in
      (
        gs,
        rw (decode_guesses_lem (entries_in guess_key_prefix s), d),
        λ i. guess_at_lem env s i ∙ decode_guess_lem _ ∙ f i,
      )

  -- SetGuess keeps the entries in order.
  pub set_guess-IsKept :
      (g : Guess) (s : Store) → IsWireGuess g → IsKept s → IsKept (set_guess env g s).1
  unfolding set_guess
  set_guess-IsKept g s w kept =
      let (bz, m, u) = guess_codec.read_back g w in
      rw (m, set_in_lem guess_key_prefix s (guess_key g.index) bz)
        (set-IsKept guess_index guess_codec kv 71 prefix_rest g bz s u kept)
