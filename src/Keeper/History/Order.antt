-- ===== src/Keeper/History/Order.antt =====
-- The store of the game over a history: what each call leaves of it.
use wordle.Prelude.{
  ℕ, suc, ◌<◌, ◌≡◌, ◌⊎◌, inl, inr, refl, ap, ◌∙◌, arith, Option, Option-cases, Bytes, beq,
}
use wordle.Exec.{ok, must, some_reply}
use wordle.Types.{Wordle}
use wordle.Types.Keys.{guess_key}
use wordle.Env.{Env}
use wordle.Keeper.Entries.{first_of}
use wordle.Keeper.Guesses.Listing
use wordle.Keeper.Guesses.Laws.{guess_path, guess_at_lem}
use wordle.Keeper.Guesses.{decode_guess}
use wordle.Keeper.Wordles.Listing as WordleListing
use wordle.Keeper.Wordles.Listing.{get_all_wordle-get_wordle, wordle_index}
use wordle.Keeper.Wordles.Laws.{wordle_at}
use wordle.Keeper.MsgServer.{World, guesser_index, day_index}
use wordle.Keeper.MsgServer.Submit.{new_wordle-IsWireWordle}
use wordle.Keeper.MsgServer.Guessing.{new_guess-IsWireGuess, HasTried, next_count}
use wordle.Keeper.Decimal.{itoa}
use wordle.Keeper.History.{
  History, start, wordle_message, guess_message, params_message, block_begins, block_ends, IsGame,
}
use wordle.Keeper.History.Effects.{
  submit_wordle_store, submit_guess_store, update_params_store, begin_block_store,
  finalize_block_store,
}
use wordle.Keeper.History.Writes.{
  set-IsGame, delete-IsGame, info-IsApart, no_state, guess-IsGame, wordle-IsGame, params-IsGame,
}

module _ (env : Env) where
  open env use {Store, Coins, kv, get, set, delete, get-set, get-delete, guess_codec, wordle_codec}

  -- What the store counts for a guesser: six guesses at most.
  pub IsGame-HasTried :
      (s : Store) (index : Bytes)
      → IsGame env s
      → (n : ℕ) × HasTried env s index n × ((n < 6) ⊎ (n ≡ 6))
  unfolding decode_guess
  IsGame-HasTried s index game = elim (Option-cases (get s (guess_path index))) [
    | inl free ↦
        (0, inl (guess_at_lem env s index ∙ ap (decode_guess env) free, refl), inl (omega arith))
    | inr (bz, e) ↦
        let (g, u, k, (n, few, count), _) = game.guesses (guess_key index) bz e in
        (
          suc n,
          inr (
            g,
            guess_at_lem env s index ∙ ap (decode_guess env) e ∙ ap (λ r. some_reply (must r)) u,
            count,
          ),
          sixth n few,
        )
  ]
    where
      sixth : (n : ℕ) → n < 6 → (suc n < 6) ⊎ (suc n ≡ 6)
      sixth n h = ground arith

  pub IsGame-guesses : (s : Store) → IsGame env s → Listing.IsKept env s
  IsGame-guesses s game k bz e = let (g, u, key, _, _) = game.guesses k bz e in (g, u, key)

  pub IsGame-wordles : (s : Store) → IsGame env s → WordleListing.IsKept env s
  IsGame-wordles s game k bz e = let (w, u, key, _) = game.wordles k bz e in (w, u, key)

  pub IsGame-wordle_at :
      (s : Store) (index : Bytes)
      → IsGame env s
      → (found : Option Wordle) × (wordle_at env s index ≡ ok found)
  IsGame-wordle_at s index game =
      let (ws, d, f) = get_all_wordle-get_wordle env s (IsGame-wordles s game) in
      (first_of wordle_index index ws, f index)

  -- Every history from a store of the game leads to one.
  pub history-IsGame : (w v : World env) → IsGame env w.0 → History env w v → IsGame env v.0
  history-IsGame w v game (start) = game
  history-IsGame w v game (wordle_message {v = u} h today msg g) =
      let before = history-IsGame w u game h in
      let (found, e) = IsGame-wordle_at u.0 (day_index env today) before in
      elim (submit_wordle_store env today msg u.0 u.1 found g e) [
        | inl same ↦ rw same before
        | inr (bz, stored, r) ↦
            rw stored
              (wordle-IsGame env _ bz u.0 r (new_wordle-IsWireWordle env today msg g) before)
      ]
  history-IsGame w v game (guess_message {v = u} h today msg g) =
      let before = history-IsGame w u game h in
      let index = guesser_index env today msg.creator in
      let (found, e) = IsGame-wordle_at u.0 (day_index env today) before in
      let (n, tries, small) = IsGame-HasTried u.0 index before in
      elim (submit_guess_store env today msg u.0 u.1 found n g e tries small) [
        | inl same ↦ rw same before
        | inr (few, (bz, stored, r)) ↦ rw stored (
            guess-IsGame env _ n bz (delete u.0 (guess_path index)) few (ap itoa (next_count n few))
              r (new_guess-IsWireGuess env today msg n g few)
              (delete-IsGame env _ _ u.0 (unfold beq in refl) before))
      ]
  history-IsGame w v game (params_message {s = s} h authority msg) =
      let before = history-IsGame w _ game h in
      elim (update_params_store env authority msg s) [
        | inl same ↦ rw same before
        | inr (bz, stored, d) ↦ rw stored (params-IsGame env msg.new_params bz s d before)
      ]
  history-IsGame w v game (block_begins {s = s} h height n i) =
      let before = history-IsGame w _ game h in
      let (bz, stored) = begin_block_store env height n s i in
      rw stored (set-IsGame env _ _ bz s (info-IsApart env height) before)
  history-IsGame w v game (block_ends {s = s} h height) =
      let before = history-IsGame w _ game h in
      elim (finalize_block_store env height s (no_state env s _ before.block_states)) [
        | inl same ↦ rw same before
        | inr gone ↦ rw gone (
            delete-IsGame env _ _ _ (unfold beq in refl)
              (delete-IsGame env _ _ s (unfold beq in refl) before))
      ]
