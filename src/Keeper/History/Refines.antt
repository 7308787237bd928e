-- ===== src/Keeper/History/Refines.antt =====
-- The board that the messages of a history give by the rules of the game, beside the store.
use wordle.Prelude.{
  ◌&&◌, ℕ, ◌≡◌, ◌⊎◌, inl, inr, refl, ◌∙◌, arith, Bool, true, false, Bytes, beq, ◌==◌, ==_iff,
  length, if◌then◌else◌, ◌++◌, ◌∷◌,
}
use wordle.Types.{IsGoString}
use wordle.Types.Keys.{guess_key_prefix, wordle_key_prefix}
use wordle.Types.Messages.{MsgSubmitWordle, MsgSubmitGuess}
use wordle.Env.{Env}
use wordle.Keeper.Letters.{is_letter}
use wordle.Keeper.MsgServer.{
  World, day_index, guesser_index, solution_hash, submit_wordle, submit_guess,
}
use wordle.Keeper.MsgServer.Submit.{IsWord, submit_wordle-malformed}
use wordle.Keeper.History.{
  History, start, wordle_message, guess_message, params_message, block_begins, block_ends, IsGame,
}
use wordle.Keeper.History.Effects.{
  IsWord-or_not, submit_guess-malformed, update_params_store, begin_block_store,
  finalize_block_store,
}
use wordle.Keeper.History.Order.{history-IsGame}
use wordle.Keeper.History.Writes.{no_state}
use wordle.Keeper.History.Rules.{Board, wordle_rule, guess_rule, Shows}
use wordle.Keeper.History.Guessing.{guess_refines}
use wordle.Keeper.History.Wording.{wordle_refines, same-Shows}

module _ (env : Env) where
  open env use {Store, Coins, get, set, delete, get-set, get-delete}

  -- The board after a message, whether its word is one or not.
  abbrev pub is_word : Bytes → Bool
  is_word word = length word == 5 && is_letter env word

  abbrev pub play_wordle : Bytes → MsgSubmitWordle → Board → Board
  play_wordle today msg board =
      if is_word msg.word
      then (wordle_rule (day_index env today) (solution_hash env msg.word) board).1
      else board

  abbrev pub play_guess : Bytes → MsgSubmitGuess → Board → Board
  play_guess today msg board =
      if is_word msg.word
      then (guess_rule (day_index env today) (guesser_index env today msg.creator)
          (solution_hash env msg.word) board).1
      else board

  -- The board after the messages of a history, by the rules alone.
  unfoldable pub played : {w v : World env} → History env w v → Board → Board
  played (start) board = board
  played (wordle_message h today msg g) board = play_wordle today msg (played h board)
  played (guess_message h today msg g) board = play_guess today msg (played h board)
  played (params_message h authority msg) board = played h board
  played (block_begins h height n i) board = played h board
  played (block_ends h height) board = played h board

  is_word_cases :
      (word : Bytes)
      → (IsWord env word × (is_word word ≡ true)) ⊎ ((¬ IsWord env word) × (is_word word ≡ false))
  is_word_cases word = elim (IsWord-or_not env word) [
    | inl (len, letters) ↦ inl ((len, letters), rw ((==_iff (length word) 5).1 len, letters) refl)
    | inr n ↦ inr (n, ground (arith, n))
  ]

  wordle_step :
      (today : Bytes) (msg : MsgSubmitWordle) (w : World env) (board : Board)
      → IsGoString msg.creator
      → Shows env w.0 board
      → Shows env (submit_wordle env today msg w).1.0 (play_wordle today msg board)
  wordle_step today msg (s, c) board g shows = elim (is_word_cases msg.word) [
    | inl (word, t) ↦ rw t (wordle_refines env today msg s c board word g shows).0
    | inr (n, f) ↦ rw (f, submit_wordle-malformed env today msg (s, c) n) shows
  ]

  guess_step :
      (today : Bytes) (msg : MsgSubmitGuess) (w : World env) (board : Board)
      → IsGoString msg.creator
      → Shows env w.0 board
      → Shows env (submit_guess env today msg w).1.0 (play_guess today msg board)
  guess_step today msg (s, c) board g shows = elim (is_word_cases msg.word) [
    | inl (word, t) ↦ rw t (guess_refines env today msg s c board word g shows).0
    | inr (n, f) ↦ rw (f, submit_guess-malformed env today msg (s, c) n) shows
  ]

  set_hook :
      (b : ℕ) (j bz : Bytes) (s : Store) (board : Board)
      → ((k : Bytes) → beq (b ∷ j) (guess_key_prefix ++ k) ≡ false)
      → ((k : Bytes) → beq (b ∷ j) (wordle_key_prefix ++ k) ≡ false)
      → Shows env s board
      → Shows env (set s (b ∷ j) bz) board
  set_hook b j bz s board gs ws =
      same-Shows env s _ board (λ k. get-set s b j _ bz ∙ rw (gs k))
        (λ k. get-set s b j _ bz ∙ rw (ws k))

  delete_hook :
      (b : ℕ) (j : Bytes) (s : Store) (board : Board)
      → ((k : Bytes) → beq (b ∷ j) (guess_key_prefix ++ k) ≡ false)
      → ((k : Bytes) → beq (b ∷ j) (wordle_key_prefix ++ k) ≡ false)
      → Shows env s board
      → Shows env (delete s (b ∷ j)) board
  delete_hook b j s board gs ws =
      same-Shows env s _ board (λ k. get-delete s b j _ ∙ rw (gs k))
        (λ k. get-delete s b j _ ∙ rw (ws k))

  -- After any history from a store of the game that shows a board, the store shows the board that the
  -- messages give by the rules: neither hooks nor parameters nor what the bank answers move it.
  pub history_refines :
      (w v : World env) (board : Board) (h : History env w v)
      → IsGame env w.0
      → Shows env w.0 board
      → Shows env v.0 (played h board)
  unfolding played
  history_refines w v board (start) game shows = shows
  history_refines w v board (wordle_message {v = u} h today msg g) game shows =
      wordle_step today msg u (played h board) g (history_refines w u board h game shows)
  history_refines w v board (guess_message {v = u} h today msg g) game shows =
      guess_step today msg u (played h board) g (history_refines w u board h game shows)
  history_refines w v board (params_message {s = s} h authority msg) game shows =
      let before = history_refines w _ board h game shows in
      elim (update_params_store env authority msg s) [
        | inl same ↦ rw same before
        | inr (bz, stored, d) ↦
            rw stored
              (set_hook _ _ bz s _ (λ k. unfold beq in refl) (λ k. unfold beq in refl) before)
      ]
  history_refines w v board (block_begins {s = s} h height n i) game shows =
      let before = history_refines w _ board h game shows in
      let (bz, stored) = begin_block_store env height n s i in
      rw stored (set_hook _ _ bz s _ (λ k. unfold beq in refl) (λ k. unfold beq in refl) before)
  history_refines w v board (block_ends {s = s} h height) game shows =
      let before = history_refines w _ board h game shows in
      elim (finalize_block_store env height s
        (no_state env s _ (history-IsGame env w _ game h).block_states)) [
          | inl same ↦ rw same before
          | inr gone ↦ rw gone (
              delete_hook _ _ _ _ (λ k. unfold beq in refl) (λ k. unfold beq in refl)
                (delete_hook _ _ s _ (λ k. unfold beq in refl) (λ k. unfold beq in refl) before))
        ]
