-- ===== src/Keeper/History/Ledger.antt =====
-- The coins of the game: what the accepted messages move into the module account and out of it.
use wordle.Prelude.{
  ℕ, suc, ◌+◌, ◌*◌, ◌/◌, ◌≤◌, ◌≡◌, ◌≢◌, inl, inr, refl, sym, ap, arith, true, false, Bytes, codes,
  beq,
}
use wordle.Exec.{ok}
use wordle.Types.{IsGoString}
use wordle.Types.Keys.{module_name}
use wordle.Types.Messages.{MsgSubmitWordle, MsgSubmitGuess, MsgSubmitGuessResponse}
use wordle.Env.{Env}
use wordle.Keeper.MsgServer.{
  World, guesser_index, submit_wordle, submit_guess, correct, wrong_answer,
}
use wordle.Keeper.MsgServer.Submit.{submit_wordle_effect}
use wordle.Keeper.MsgServer.Days.{accepted_answer}
use wordle.Keeper.History.{start, wordle_message, guess_message, IsGame}
use wordle.Keeper.History.Order.{history-IsGame, IsGame-HasTried}

answers_differ : correct ≢ wrong_answer
unfolding beq
answers_differ e =
    let bad : true ≡ false = ap (λ (r : MsgSubmitGuessResponse). beq r.title (codes "Correct")) e in
    absurd (cc)

module _ (env : Env) where
  open env use {module_balance}

  -- Accepted messages, on any days and from anyone, with the number of wordles and of right answers.
  pub data Ledger : World env → ℕ → ℕ → World env → Type 0 where
    opened : {w : World env} → Ledger w 0 0 w
    wordle_paid :
        {w u v : World env} {n m : ℕ}
        → Ledger w n m u
        → (today : Bytes) (msg : MsgSubmitWordle) → IsGoString msg.creator
        → submit_wordle env today msg u ≡ (ok tt, v)
        → Ledger w (suc n) m v
    guess_right :
        {w u v : World env} {n m : ℕ}
        → Ledger w n m u
        → (today : Bytes) (msg : MsgSubmitGuess) → IsGoString msg.creator
        → submit_guess env today msg u ≡ (ok correct, v)
        → Ledger w n (suc m) v
    guess_wrong :
        {w u v : World env} {n m : ℕ}
        → Ledger w n m u
        → (today : Bytes) (msg : MsgSubmitGuess) → IsGoString msg.creator
        → submit_guess env today msg u ≡ (ok wrong_answer, v)
        → Ledger w n m v

  abbrev balance : World env → ℕ
  balance w = module_balance w.1 module_name

  guess_kept :
      (today : Bytes) (msg : MsgSubmitGuess) (u v : World env) (reply : MsgSubmitGuessResponse)
      → IsGoString msg.creator
      → submit_guess env today msg u ≡ (ok reply, v)
      → IsGame env u.0
      → IsGame env v.0
  guess_kept today msg u v reply g h game =
      rw (ap (λ t. t.1) h) at (history-IsGame env u _ game (guess_message start today msg g))

  wordle_kept :
      (today : Bytes) (msg : MsgSubmitWordle) (u v : World env)
      → IsGoString msg.creator
      → submit_wordle env today msg u ≡ (ok tt, v)
      → IsGame env u.0
      → IsGame env v.0
  wordle_kept today msg u v g h game =
      rw (ap (λ t. t.1) h) at (history-IsGame env u _ game (wordle_message start today msg g))

  right_pays :
      (today : Bytes) (msg : MsgSubmitGuess) (u v : World env)
      → IsGoString msg.creator
      → submit_guess env today msg u ≡ (ok correct, v)
      → IsGame env u.0
      → balance v + 100 ≡ balance u
  right_pays today msg u v g h game =
      let (n, tries, small) = IsGame-HasTried env u.0 (guesser_index env today msg.creator) game in
      let (word, w, found, moved) =
        accepted_answer env today msg u.0 v.0 u.1 v.1 n correct g tries (ground (arith, small)) h in
      elim moved [
        | inl (same, reply, paid) ↦ paid
        | inr (other, reply, kept) ↦ absurd (answers_differ reply)
      ]

  wrong_pays_nothing :
      (today : Bytes) (msg : MsgSubmitGuess) (u v : World env)
      → IsGoString msg.creator
      → submit_guess env today msg u ≡ (ok wrong_answer, v)
      → IsGame env u.0
      → balance v ≡ balance u
  wrong_pays_nothing today msg u v g h game =
      let (n, tries, small) = IsGame-HasTried env u.0 (guesser_index env today msg.creator) game in
      let (word, w, found, moved) =
        accepted_answer env today msg u.0 v.0 u.1 v.1 n wrong_answer g tries (ground (arith, small))
          h in
      elim moved [
        | inl (same, reply, paid) ↦ absurd (answers_differ (sym reply))
        | inr (other, reply, kept) ↦ ap (λ c. module_balance c module_name) kept
      ]

  -- Over accepted messages from a store of the game, on any days and from anyone, the module account gains
  -- 100 for each wordle and pays 100 for each right answer, and the store stays one. There are at most as many right answers as wordles and the hundreds
  -- that it held at first.
  pub Ledger-balance :
      (w v : World env) (n m : ℕ)
      → IsGame env w.0
      → Ledger w n m v
      → IsGame env v.0 × (balance v + 100 * m ≡ balance w + 100 * n) × (m ≤ n + balance w / 100)
  Ledger-balance w v n m game l =
      let (after, e) = sums w v n m game l in (after, e, omega (arith, e))
    where
      sums :
          (w v : World env) (n m : ℕ)
          → IsGame env w.0
          → Ledger w n m v
          → IsGame env v.0 × (balance v + 100 * m ≡ balance w + 100 * n)
      sums w v n m game (opened) = (game, refl)
      sums w v (suc n) m game (wordle_paid {u = u} l today msg g h) =
          let (before, e) = sums w u n m game l in
          let (_, _, _, paid) = submit_wordle_effect env today msg u.0 v.0 u.1 v.1 g h in
          (wordle_kept today msg u v g h before, omega (arith, e, paid))
      sums w v n (suc m) game (guess_right {u = u} l today msg g h) =
          let (before, e) = sums w u n m game l in
          (
            guess_kept today msg u v correct g h before,
            omega (arith, e, right_pays today msg u v g h before),
          )
      sums w v n m game (guess_wrong {u = u} l today msg g h) =
          let (before, e) = sums w u n m game l in
          (
            guess_kept today msg u v wrong_answer g h before,
            omega (arith, e, wrong_pays_nothing today msg u v g h before),
          )
