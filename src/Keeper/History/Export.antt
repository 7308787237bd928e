-- ===== src/Keeper/History/Export.antt =====
-- ExportGenesis after any history.
use wordle.Prelude.{ℕ, suc, ◌<◌, ◌≡◌, sym, ap, ◌∙◌, All, Bytes, List}
use wordle.Prelude.Int.{pos}
use wordle.Exec.{ok}
use wordle.Types.{Guess, Params}
use wordle.Types.Genesis.{GenesisState, default_genesis}
use wordle.Types.Keys.{guess_key_prefix, params_key}
use wordle.Env.{Env}
use wordle.Keeper.Entries.{entries-All, first_of}
use wordle.Keeper.Guesses.{get_all_guess}
use wordle.Keeper.Guesses.Laws.{guess_at}
use wordle.Keeper.Guesses.Listing
use wordle.Keeper.Guesses.Listing.{guess_index, get_all_guess-get_guess, decode_guesses_lem}
use wordle.Keeper.Wordles.Laws.{wordle_at}
use wordle.Keeper.Wordles.Listing.{wordle_index, get_all_wordle-get_wordle}
use wordle.Keeper.Params.{get_params, decode_params}
use wordle.Keeper.Genesis.{export_genesis}
use wordle.Keeper.Genesis.RoundTrip.{export_lem}
use wordle.Keeper.MsgServer.{World}
use wordle.Keeper.Decimal.{itoa}
use wordle.Keeper.History.{History, IsGame}
use wordle.Keeper.History.Order.{history-IsGame, IsGame-guesses, IsGame-wordles}

-- A guess that counts from one to six guesses.
abbrev pub HasCount : Guess → Type 0
HasCount g = (n : ℕ) × (n < 6) × (g.count ≡ itoa (pos (suc n)))

module _ (env : Env) where
  open env use {Store, kv, get, guess_codec, entries_in}

  -- GetAllGuess of a store of the game lists guesses that count from one to six.
  listed_counts :
      (s : Store) (gs : List Guess)
      → IsGame env s
      → get_all_guess env s ≡ (ok gs, s)
      → All HasCount gs
  unfolding get_all_guess
  listed_counts s gs game e =
      entries-All guess_index guess_codec kv 71 Listing.prefix_rest HasCount s gs
        (λ k bz h. let (g, u, _, count, _) = game.guesses k bz h in (g, u, count))
        (sym (decode_guesses_lem env (entries_in guess_key_prefix s)) ∙ ap (λ t. t.0) e)

  pub read_params :
      (s : Store) (p : Params)
      → decode_params env (get s params_key) ≡ ok p
      → get_params env s ≡ (ok p, s)
  unfolding get_params
  read_params s p e = ap (λ r. (r, s)) e

  -- After any history from a store of the game, ExportGenesis succeeds. Every guess that it lists counts
  -- from one to six guesses, and the first guess and wordle with an index are what the store holds.
  pub export_after_history :
      (w v : World env)
      → IsGame env w.0
      → History env w v
      → (exported : GenesisState) × ((export_genesis env v.0).0 ≡ ok exported)
        × All HasCount exported.guess_list
        × ((i : Bytes)
            → (guess_at env v.0 i ≡ ok (first_of guess_index i exported.guess_list))
              × (wordle_at env v.0 i ≡ ok (first_of wordle_index i exported.wordle_list)))
  export_after_history w v game h =
      let after = history-IsGame env w v game h in
      let (p, dp) = after.parameters in
      let (gs, dg, fg) = get_all_guess-get_guess env v.0 (IsGame-guesses env v.0 after) in
      let (ws, dw, fw) = get_all_wordle-get_wordle env v.0 (IsGame-wordles env v.0 after) in
      (
        record default_genesis { state_params = p; wordle_list = ws; guess_list = gs },
        export_lem env v.0 p ws gs (read_params v.0 p dp) dw dg,
        listed_counts v.0 gs after dg,
        λ i. (fg i, fw i),
      )
