-- ===== src/Keeper/MsgServer/Game.antt =====
-- What an accepted guess does to the store and the coins, and the game of a day over any sequence of
-- messages.
use wordle.Prelude.{ℕ, suc, ◌<◌, ◌≡◌, refl, ap, ◌∙◌, arith}
use wordle.Prelude.{if◌then◌else◌, some, Bytes, beq, beq_refl, inr}
use wordle.Prelude.Int.{pos}
use wordle.Exec.{ok}
use wordle.Types.{Wordle, Guess, IsGoString}
use wordle.Types.Messages.{MsgSubmitGuess, MsgSubmitGuessResponse}
use wordle.Env.{Env}
use wordle.Keeper.Guesses.{decode_guess}
use wordle.Keeper.Guesses.Laws.{guess_path, guess_at, guess_at_lem, get-set_guess, get-delete_guess}
use wordle.Keeper.Wordles.Laws.{wordle_at, wordle_path, wordle_at_lem}
use wordle.Keeper.Decimal.{itoa}
use wordle.Keeper.MsgServer.{day_index, solution_hash, guesser_index, new_guess, submit_guess}
use wordle.Keeper.MsgServer.{todays_wordle}
use wordle.Keeper.MsgServer.Submit.{IsWord, get_wordle_of}
use wordle.Keeper.MsgServer.Guessing.{HasTried, submit_guess-open, answer_store, next_count}

module _ (env : Env) where
  open env use {Store, Coins, get, set, delete, get-set, get-delete, module_balance}

  -- The store after an accepted guess: the entry deleted and written again.
  abbrev rewritten : Store → Bytes → Bytes → Store
  rewritten s index bz = set (delete s (guess_path index)) (guess_path index) bz

  guess_at-rewritten :
      (s : Store) (i j bz : Bytes) (g : Guess)
      → decode_guess env (some bz) ≡ ok (some g)
      → guess_at env (rewritten s i bz) j ≡ (if beq i j then ok (some g) else guess_at env s j)
  guess_at-rewritten s i j bz g d =
      rw
        (
          guess_at_lem env (rewritten s i bz) j,
          guess_at_lem env s j,
          get-set_guess env (delete s (guess_path i)) i j bz,
          get-delete_guess env s i j,
        )
        (ground (arith, d))

  wordle_at-rewritten :
      (s : Store) (i j bz : Bytes) → wordle_at env (rewritten s i bz) j ≡ wordle_at env s j
  wordle_at-rewritten s i j bz =
      rw
        (
          wordle_at_lem env (rewritten s i bz) j,
          wordle_at_lem env s j,
          get-set (delete s (guess_path i)) _ _ (wordle_path j) bz,
          get-delete s _ _ (wordle_path j),
        )
        (unfold beq in refl)

  -- A guess of a letter word, on a day with a wordle, by a guesser with fewer than six guesses, is
  -- counted whatever the bank answers: the guesser's entry has one guess more, with the hash of the
  -- word; no other entry and no wordle changes.
  pub guess_counted :
      (today : Bytes) (msg : MsgSubmitGuess) (s : Store) (c : Coins) (w : Wordle) (n : ℕ)
      → IsWord env msg.word
      → IsGoString msg.creator
      → wordle_at env s (day_index env today) ≡ ok (some w)
      → HasTried env s (guesser_index env today msg.creator) n
      → n < 6
      → HasTried env
          (submit_guess env today msg (s, c)).1.0
          (guesser_index env today msg.creator)
          (suc n)
        × ((index : Bytes)
            → guess_at env (submit_guess env today msg (s, c)).1.0 index ≡ (
                if beq (guesser_index env today msg.creator) index
                then ok (some (new_guess env today msg (pos n)))
                else guess_at env s index))
        × ((index : Bytes)
            → wordle_at env (submit_guess env today msg (s, c)).1.0 index ≡ wordle_at env s index)
  guess_counted today msg s c w n word g found tries k =
      let index = guesser_index env today msg.creator in
      let (bz, e, d) = submit_guess-open env today msg s c w n word g found tries k in
      let same : (submit_guess env today msg (s, c)).1.0 ≡ rewritten s index bz =
        ap (λ t. t.1.0) e
        ∙ answer_store env w.word (solution_hash env msg.word) msg.creator (rewritten s index bz)
            c in
      let at : (j : Bytes)
          → guess_at env (submit_guess env today msg (s, c)).1.0 j ≡ (
              if beq index j
              then ok (some (new_guess env today msg (pos n)))
              else guess_at env s j) =
        λ j.
          ap (λ t. guess_at env t j) same
          ∙ guess_at-rewritten s index j bz (new_guess env today msg (pos n)) d in
      (
        inr (
          new_guess env today msg (pos n),
          at index ∙ rw (beq_refl index),
          ap itoa (next_count n k),
        ),
        at,
        (λ j. ap (λ t. wordle_at env t j) same ∙ wordle_at-rewritten s index j bz),
      )

  -- What an accepted guess has met: a letter word, and a wordle for the day.
  pub submit_guess-ok :
      (today : Bytes) (msg : MsgSubmitGuess) (s s' : Store) (c c' : Coins)
      (reply : MsgSubmitGuessResponse)
      → submit_guess env today msg (s, c) ≡ (ok reply, (s', c'))
      → IsWord env msg.word × (w : Wordle) × (wordle_at env s (day_index env today) ≡ ok (some w))
  unfolding submit_guess todays_wordle
  submit_guess-ok today msg s s' c c' reply h = ground (
    arith,
    get_wordle_of env (day_index env today) s (wordle_at env s (day_index env today)) refl,
  )
