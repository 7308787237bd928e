-- ===== src/Keeper/MsgServer/Frame.antt =====
-- What the two messages may touch: one entry of the store each, on every branch.
use wordle.Prelude.{◌≡◌, refl, ap, ◌∙◌, arith, false, some, Bytes, beq, if◌then◌else◌, ◌++◌}
use wordle.Prelude.Int.{ℤ}
use wordle.Exec.{Reply, ok, err, panic, continue, must}
use wordle.Types.{Wordle, Guess}
use wordle.Types.Keys.{guess_key_prefix, guess_key, wordle_key_prefix, wordle_key}
use wordle.Types.Messages.{MsgSubmitWordle, MsgSubmitGuess}
use wordle.Env.{Env}
use wordle.Keeper.Guesses.{set_guess}
use wordle.Keeper.Guesses.Laws.{guess_path, get_guess_lem, remove_guess_lem}
use wordle.Keeper.Wordles.{set_wordle}
use wordle.Keeper.Wordles.Laws.{wordle_path, get_wordle_lem}
use wordle.Keeper.MsgServer.{
  day_index, solution_hash, guesser_index, new_guess, new_wordle, submit_guess, submit_wordle,
}
use wordle.Keeper.MsgServer.{answer, attempt, todays_wordle}
use wordle.Keeper.MsgServer.Rewards.{escrow_store}
use wordle.Keeper.MsgServer.Guessing.{answer_store}

module _ (env : Env) where
  open env use {
    Store, Coins, get, get-set, get-delete, set, delete, set_in, set_in_lem, guess_codec,
    wordle_codec,
  }

  get-put :
      (p key k : Bytes) (r : Reply Bytes) (s : Store)
      → beq (p ++ key) k ≡ false
      → ((bz : Bytes)
          → get (set s (p ++ key) bz) k ≡ (if beq (p ++ key) k then some bz else get s k))
      → get (continue {A = Bytes} (must r) (λ bz t. (ok (tt {0}), set_in p t key bz)) s).1 k
        ≡ get s k
  get-put p key k (ok bz) s h law = rw (set_in_lem p s key bz, law bz, h)
  get-put p key k (err e) s h law = refl
  get-put p key k panic s h law = refl

  get-set_guess_elsewhere :
      (g : Guess) (k : Bytes) (s : Store)
      → beq (guess_path g.index) k ≡ false
      → get (set_guess env g s).1 k ≡ get s k
  unfolding set_guess
  get-set_guess_elsewhere g k s h =
      get-put guess_key_prefix (guess_key g.index) k (guess_codec.marshal g) s h (get-set s _ _ k)

  get-set_wordle_elsewhere :
      (w : Wordle) (k : Bytes) (s : Store)
      → beq (wordle_path w.index) k ≡ false
      → get (set_wordle env w s).1 k ≡ get s k
  unfolding set_wordle
  get-set_wordle_elsewhere w k s h =
      get-put wordle_key_prefix (wordle_key w.index) k (wordle_codec.marshal w) s h
        (get-set s _ _ k)

  -- SubmitWordle leaves every entry of the store but the wordle of the day, on each of its branches.
  pub submit_wordle_frame :
      (today : Bytes) (msg : MsgSubmitWordle) (k : Bytes) (s : Store) (c : Coins)
      → beq (wordle_path (day_index env today)) k ≡ false
      → get (submit_wordle env today msg (s, c)).1.0 k ≡ get s k
  unfolding submit_wordle
  submit_wordle_frame today msg k s c h = ground (
    arith,
    get_wordle_lem env (day_index env today) s,
    get-set_wordle_elsewhere (new_wordle env today msg) k s,
    escrow_store env msg.creator (set_wordle env (new_wordle env today msg) s).1 c,
  )

  answer_after :
      (r : Reply (Unit {0})) (solution guessed creator : Bytes) (s : Store) (c : Coins)
      → (continue {A = Unit {0}} r (λ u. answer env solution guessed creator) (s, c)).1.0 ≡ s
  answer_after (ok u) solution guessed creator s c = answer_store env solution guessed creator s c
  answer_after (err e) solution guessed creator s c = refl
  answer_after panic solution guessed creator s c = refl

  attempt_frame :
      (today : Bytes) (msg : MsgSubmitGuess) (w : Wordle) (n : ℤ) (k : Bytes) (s : Store)
      (c : Coins)
      → beq (guess_path (guesser_index env today msg.creator)) k ≡ false
      → get (attempt env today msg w n (s, c)).1.0 k ≡ get s k
  unfolding attempt
  attempt_frame today msg w n k s c h =
      let index = guesser_index env today msg.creator in
      let s₁ : Store = delete s (guess_path index) in
      let stored : Reply (Unit {0}) × Store = set_guess env (new_guess env today msg n) s₁ in
      rw (remove_guess_lem env index s) (
        ap (λ t. get t k)
          (answer_after stored.0 w.word (solution_hash env msg.word) msg.creator stored.1 c)
        ∙ get-set_guess_elsewhere (new_guess env today msg n) k s₁ h
        ∙ (get-delete s _ _ k ∙ rw h))

  counted_frame :
      (today : Bytes) (msg : MsgSubmitGuess) (w : Wordle) (r : Reply ℤ) (k : Bytes) (s : Store)
      (c : Coins)
      → beq (guess_path (guesser_index env today msg.creator)) k ≡ false
      → get (continue r (attempt env today msg w) (s, c)).1.0 k ≡ get s k
  counted_frame today msg w (ok n) k s c h = attempt_frame today msg w n k s c h
  counted_frame today msg w (err e) k s c h = refl
  counted_frame today msg w panic k s c h = refl

  -- SubmitGuess leaves every entry of the store but the guesser's of the day, on each of its branches.
  pub submit_guess_frame :
      (today : Bytes) (msg : MsgSubmitGuess) (k : Bytes) (s : Store) (c : Coins)
      → beq (guess_path (guesser_index env today msg.creator)) k ≡ false
      → get (submit_guess env today msg (s, c)).1.0 k ≡ get s k
  unfolding submit_guess todays_wordle
  submit_guess_frame today msg k s c h = grind (
    arith,
    get_wordle_lem env (day_index env today) s,
    get_guess_lem env (guesser_index env today msg.creator) s,
    counted_frame,
  )
