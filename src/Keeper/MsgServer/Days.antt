-- ===== src/Keeper/MsgServer/Days.antt =====
-- A day of accepted messages, in any order and from anyone.
use wordle.Prelude.{ℕ, suc, ◌+◌, ◌<◌, ◌≤◌, ◌≡◌, ◌≢◌, ◌⊎◌, refl, sym, ap, ◌∙◌, arith, false}
use wordle.Prelude.{==_iff, ◌==◌, some, Bytes, beq, beq_iff, inl, inr, Bool-cases}
use wordle.Exec.{ok}
use wordle.Types.{Wordle, IsGoString}
use wordle.Types.Keys.{module_name}
use wordle.Types.Messages.{MsgSubmitWordle, MsgSubmitGuess, MsgSubmitGuessResponse}
use wordle.Env.{Env}
use wordle.Keeper.Guesses.{decode_guess}
use wordle.Keeper.MsgServer.Frame.{submit_guess_frame, submit_wordle_frame}
use wordle.Types.Keys.{beq-guess_key}
use wordle.Keeper.Guesses.Laws.{guess_path, guess_at, guess_at_lem}
use wordle.Keeper.Wordles.Laws.{wordle_at}
use wordle.Keeper.MsgServer.{
  World, day_index, solution_hash, guesser_index, submit_guess, submit_wordle, correct,
  wrong_answer,
}
use wordle.Keeper.MsgServer.Submit.{IsWord}
use wordle.Keeper.MsgServer.Guessing.{HasTried, seventh_guess, submit_guess-open, answer_ok}
use wordle.Keeper.MsgServer.Game.{guess_counted, submit_guess-ok}

plus_zero : (k : ℕ) → k + 0 ≡ k
plus_zero k = omega arith

plus_suc : (k n : ℕ) → k + suc n ≡ suc (k + n)
plus_suc k n = omega arith

differ : (a b : Bytes) → a ≢ b → beq a b ≡ false
differ a b n = elim (Bool-cases (beq a b)) [ inl t ↦ absurd (n ((beq_iff a b).0 t)) | inr f ↦ f ]

module _ (env : Env) where
  open env use {Store, Coins, get, module_balance}

  -- From one world to another by accepted messages, with the number of guesses of one guesser.
  pub data Day (today creator : Bytes) : World env → ℕ → World env → Type 0 where
    morning : {w : World env} → Day today creator w 0 w
    guessed :
        {w u v : World env} {n : ℕ}
        → Day today creator w n u
        → (word : Bytes) (reply : MsgSubmitGuessResponse)
        → submit_guess env today (record { creator = creator; word = word }) u ≡ (ok reply, v)
        → Day today creator w (suc n) v
    other_guessed :
        {w u v : World env} {n : ℕ}
        → Day today creator w n u
        → (msg : MsgSubmitGuess) (reply : MsgSubmitGuessResponse)
        → guesser_index env today msg.creator ≢ guesser_index env today creator
        → submit_guess env today msg u ≡ (ok reply, v)
        → Day today creator w n v
    submitted :
        {w u v : World env} {n : ℕ}
        → Day today creator w n u
        → (msg : MsgSubmitWordle) → submit_wordle env today msg u ≡ (ok tt, v)
        → Day today creator w n v

  -- An accepted guess was at most the sixth.
  pub not_seventh :
      (today : Bytes) (msg : MsgSubmitGuess) (s s' : Store) (c c' : Coins)
      (reply : MsgSubmitGuessResponse) (n : ℕ)
      → submit_guess env today msg (s, c) ≡ (ok reply, (s', c'))
      → HasTried env s (guesser_index env today msg.creator) n
      → n ≤ 6
      → n < 6
  not_seventh today msg s s' c c' reply n h tries k = elim (Bool-cases (n == 6)) [
    | inl t ↦
        let (word, w, found) = submit_guess-ok env today msg s s' c c' reply h in
        let six : HasTried env s (guesser_index env today msg.creator) 6 =
          rw ((==_iff n 6).0 t) at tries in
        absurd (cc (h, seventh_guess env today msg s c w word found six))
    | inr f ↦ ground arith
  ]

  keep_tries :
      (s s' : Store) (index : Bytes) (n : ℕ)
      → get s' (guess_path index) ≡ get s (guess_path index)
      → HasTried env s index n
      → HasTried env s' index n
  keep_tries s s' index n h tries =
      let e : guess_at env s' index ≡ guess_at env s index =
        guess_at_lem env s' index ∙ ap (decode_guess env) h ∙ sym (guess_at_lem env s index) in
      elim tries [ inl (at, z) ↦ inl (e ∙ at, z) | inr (g, at, z) ↦ inr (g, e ∙ at, z) ]

  -- Over a day of accepted messages, in any order and from anyone whose index differs, a guesser whose
  -- store entry counts k ≤ 6 guesses makes at most 6 - k more, and the entry counts them all.
  pub six_guesses :
      (today creator : Bytes) (w v : World env) (k n : ℕ)
      → IsGoString creator
      → HasTried env w.0 (guesser_index env today creator) k
      → k ≤ 6
      → Day today creator w n v
      → (k + n ≤ 6) × HasTried env v.0 (guesser_index env today creator) (k + n)
  six_guesses today creator w v k n g tries small (morning) = (omega arith, rw (plus_zero k) tries)
  six_guesses today creator w v k (suc n) g tries small (guessed {u = u} d word reply h) =
      let msg : MsgSubmitGuess = record { creator = creator; word = word } in
      let (le, t) = six_guesses today creator w u k n g tries small d in
      let (five, x, found) = submit_guess-ok env today msg u.0 v.0 u.1 v.1 reply h in
      let fewer = not_seventh today msg u.0 v.0 u.1 v.1 reply (k + n) h t (omega arith) in
      let (counted, _, _) = guess_counted env today msg u.0 u.1 x (k + n) five g found t fewer in
      (
        omega arith,
        rw (plus_suc k n) (
            keep_tries (submit_guess env today msg u).1.0 v.0 (guesser_index env today creator)
              (suc (k + n))
              (ap (λ t. get t.1.0 (guess_path (guesser_index env today creator))) (sym h)) counted),
      )
  six_guesses today creator w v k n g tries small (other_guessed {u = u} d msg reply ne h) =
      let (le, t) = six_guesses today creator w u k n g tries small d in
      let index = guesser_index env today creator in
      (
        le,
        keep_tries u.0 v.0 index (k + n)
            (ap (λ t. get t.1.0 (guess_path index)) (sym h)
              ∙ submit_guess_frame env today msg (guess_path index) u.0 u.1
                  (beq-guess_key (guesser_index env today msg.creator) index ∙ differ _ _ ne))
            t,
      )
  six_guesses today creator w v k n g tries small (submitted {u = u} d msg h) =
      let (le, t) = six_guesses today creator w u k n g tries small d in
      let index = guesser_index env today creator in
      (
        le,
        keep_tries u.0 v.0 index (k + n)
            (ap (λ t. get t.1.0 (guess_path index)) (sym h)
              ∙ submit_wordle_frame env today msg (guess_path index) u.0 u.1 (unfold beq in refl))
            t,
      )

  -- An accepted guess, of a guesser whose entry counts at most six guesses before it, was of a letter
  -- word on a day with a wordle. It is answered Correct exactly when the hash of the word is the stored
  -- one, and then 100 leave the module account; else no coins move.
  pub accepted_answer :
      (today : Bytes) (msg : MsgSubmitGuess) (s s' : Store) (c c' : Coins) (n : ℕ)
      (reply : MsgSubmitGuessResponse)
      → IsGoString msg.creator
      → HasTried env s (guesser_index env today msg.creator) n
      → n ≤ 6
      → submit_guess env today msg (s, c) ≡ (ok reply, (s', c'))
      → IsWord env msg.word
        × (w : Wordle) × (wordle_at env s (day_index env today) ≡ ok (some w))
        × (((w.word ≡ solution_hash env msg.word)
              × (reply ≡ correct)
              × (module_balance c' module_name + 100 ≡ module_balance c module_name))
            ⊎ ((w.word ≢ solution_hash env msg.word) × (reply ≡ wrong_answer) × (c' ≡ c)))
  accepted_answer today msg s s' c c' n reply g tries small h =
      let (five, w, found) = submit_guess-ok env today msg s s' c c' reply h in
      let fewer = not_seventh today msg s s' c c' reply n h tries small in
      let (bz, e, d) = submit_guess-open env today msg s c w n five g found tries fewer in
      (
        five,
        w,
        found,
        answer_ok env w.word (solution_hash env msg.word) msg.creator _ s' c c' reply (sym e ∙ h),
      )
