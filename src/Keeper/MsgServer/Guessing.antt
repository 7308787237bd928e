-- ===== src/Keeper/MsgServer/Guessing.antt =====
-- SubmitGuess: six guesses a day for each guesser, and the reward for the right word.
use wordle.Prelude.{ℕ, zero, suc, ◌+◌, ◌^◌, ◌<◌, ◌≡◌, ◌≢◌, ◌⊎◌, refl, sym, ap, ◌∙◌, arith}
use wordle.Prelude.{
  ==_iff, Option, none, some, Bytes, [], ◌∷◌, ◌++◌, length, beq, beq_iff, beq_refl,
}
use wordle.Prelude.{Bool-cases, inl, inr}
use wordle.Prelude.Int.{pos, wrap, ◌+ℤ◌}
use wordle.Exec.{Reply, ok, err, panic, continue, guess_limit}
use wordle.Types.{Wordle, Guess, IsGoString, IsWireGuess}
use wordle.Types.Keys.{module_name}
use wordle.Types.Messages.{MsgSubmitGuess, MsgSubmitGuessResponse}
use wordle.Env.{Env}
use wordle.Keeper.Guesses.{get_guess, decode_guess}
use wordle.Keeper.Guesses.Laws.{
  guess_path, get_guess_lem, set_guess_lem, remove_guess_lem, guess_at, guess_at_lem,
}
use wordle.Keeper.Wordles.Laws.{wordle_at}
use wordle.Keeper.Decimal.{itoa, atoi, digits}
use wordle.Keeper.Decimal.RoundTrip.{atoi-itoa}
use wordle.Keeper.MsgServer.{
  World, day_index, solution_hash, guesser_index, new_guess, submit_guess, answer, reward, attempt,
}
use wordle.Keeper.MsgServer.{count_so_far, current_count, todays_wordle, correct, wrong_answer}
use wordle.Keeper.MsgServer.Rewards.{reward_store, reward_balance}
use wordle.Keeper.MsgServer.Submit.{IsWord, hash-IsGoString, get_wordle_of}

pub some_injective : {A : Type 0} {a b : A} → ◌≡◌ {A = Option A} (some a) (some b) → a ≡ b
some_injective h = cc

-- Small counts have different texts.
itoa_injective : (m n : ℕ) → m < 2 ^ 63 → n < 2 ^ 63 → itoa (pos m) ≡ itoa (pos n) → m ≡ n
itoa_injective m n hm hn h =
    let e : pos m ≡ pos n =
      some_injective
        (sym (atoi-itoa (pos m) (omega arith)) ∙ ap atoi h ∙ atoi-itoa (pos n) (omega arith)) in
    cc

digits-single : (k m : ℕ) → m < 10 → digits k m ≡ (48 + m) ∷ []
unfolding digits
digits-single zero m h = refl
digits-single (suc k) m h = ground arith

pub next_count : (n : ℕ) → n < 6 → wrap 64 (pos n +ℤ pos 1) ≡ pos (suc n)
unfolding ◌+ℤ◌
next_count n h = ground arith

count-IsGoString : (m : ℕ) → m < 10 → IsGoString (itoa (pos m))
unfolding itoa
count-IsGoString m h = rw (digits-single 19 m h) (ground arith)

module _ (env : Env) where
  open env use {
    Store, Coins, get, set, delete, module_balance, from_module, from_module-balance, parse_address,
  }

  get_guess_of :
      (index : Bytes) (s : Store) (r : Reply (Option Guess))
      → guess_at env s index ≡ r
      → get_guess env index s ≡ (r, s)
  get_guess_of index s r h =
      get_guess_lem env index s ∙ ap (λ t. (t, s)) (sym (guess_at_lem env s index) ∙ h)

  -- The guesses that the store counts under a guesser's index: none without an entry, else its count.
  abbrev pub HasTried : Store → Bytes → ℕ → Type 0
  HasTried s index n =
      ((guess_at env s index ≡ ok none) × (n ≡ 0))
      ⊎ ((g : Guess) × (guess_at env s index ≡ ok (some g)) × (g.count ≡ itoa (pos n)))

  -- With fewer than six guesses, the count is read back as it stands.
  tried :
      (s : Store) (index : Bytes) (n : ℕ)
      → HasTried s index n
      → n < 6
      → (o : Option Guess) × (guess_at env s index ≡ ok o) × (count_so_far o ≡ ok (pos n))
  unfolding count_so_far current_count
  tried s index n (inl (h, z)) k = (none, h, ap (λ m. ok (pos m)) (sym z))
  tried s index n (inr (g, h, e)) k = (
    some g,
    h,
    rw e (elim (Bool-cases (beq (itoa (pos n)) (itoa (pos 6)))) [
      | inl t ↦
          absurd (omega (arith, itoa_injective n 6 (omega arith) (omega arith) ((beq_iff _ _).0 t)))
      | inr f ↦ rw (f, atoi-itoa (pos n) (omega arith)) refl
    ]),
  )

  pub new_guess-IsWireGuess :
      (today : Bytes) (msg : MsgSubmitGuess) (n : ℕ)
      → IsGoString msg.creator
      → n < 6
      → IsWireGuess (new_guess env today msg (pos n))
  new_guess-IsWireGuess today msg n g h = record {
    index = hash-IsGoString env (today ++ msg.creator);
    word = hash-IsGoString env msg.word;
    submitter = g;
    count = rw (next_count n h) (count-IsGoString (suc n) (omega arith));
  }

  pub submit_guess-open :
      (today : Bytes) (msg : MsgSubmitGuess) (s : Store) (c : Coins) (w : Wordle) (n : ℕ)
      → IsWord env msg.word
      → IsGoString msg.creator
      → wordle_at env s (day_index env today) ≡ ok (some w)
      → HasTried s (guesser_index env today msg.creator) n
      → n < 6
      → (bz : Bytes) × (submit_guess env today msg (s, c)
          ≡ answer env w.word (solution_hash env msg.word) msg.creator (
            set
                (delete s (guess_path (guesser_index env today msg.creator)))
                (guess_path (guesser_index env today msg.creator))
                bz,
            c,
          ))
        × (decode_guess env (some bz) ≡ ok (some (new_guess env today msg (pos n))))
  unfolding submit_guess todays_wordle attempt
  submit_guess-open today msg s c w n (len, letters) g found tries k =
      let index = guesser_index env today msg.creator in
      let (o, at, count) = tried s index n tries k in
      let (bz, e, d) =
        set_guess_lem env (new_guess env today msg (pos n)) (delete s (guess_path index))
          (new_guess-IsWireGuess today msg n g k) in
      (
        bz,
        rw
            (
              (==_iff (length msg.word) 5).1 len,
              letters,
              get_wordle_of env (day_index env today) s (ok (some w)) found,
              get_guess_of index s (ok o) at,
              count,
              remove_guess_lem env index s,
              e,
            )
            refl,
        d,
      )

  -- A guesser with six guesses is refused for the rest of the day, and nothing changes.
  pub seventh_guess :
      (today : Bytes) (msg : MsgSubmitGuess) (s : Store) (c : Coins) (w : Wordle)
      → IsWord env msg.word
      → wordle_at env s (day_index env today) ≡ ok (some w)
      → HasTried s (guesser_index env today msg.creator) 6
      → submit_guess env today msg (s, c) ≡ (err guess_limit, (s, c))
  unfolding submit_guess todays_wordle count_so_far
  seventh_guess today msg s c w (len, letters) found (inl (h, z)) = absurd (omega arith)
  seventh_guess today msg s c w (len, letters) found (inr (g, at, e)) =
      rw
        (
          (==_iff (length msg.word) 5).1 len,
          letters,
          get_wordle_of env (day_index env today) s (ok (some w)) found,
          get_guess_of (guesser_index env today msg.creator) s (ok (some g)) at,
          e,
          beq_refl (itoa (pos 6)),
        )
        refl

  after_reward :
      (r : Reply (Unit {0}) × World env) (s : Store)
      → r.1.0 ≡ s
      → (continue {A = Unit {0}} r.0 (λ u w. (ok correct, w)) r.1).1.0 ≡ s
  after_reward (ok u, w) s h = h
  after_reward (err e, w) s h = h
  after_reward (panic, w) s h = h

  rewarded :
      (r : Reply (Unit {0}) × World env) (w : World env) (reply : MsgSubmitGuessResponse)
      → continue {A = Unit {0}} r.0 (λ u x. (ok correct, x)) r.1 ≡ (ok reply, w)
      → (reply ≡ correct) × (r ≡ (ok tt, w))
  rewarded (ok u, x) w reply h = (cc, cc)
  rewarded (err e, x) w reply h = absurd (cc)
  rewarded (panic, x) w reply h = absurd (cc)

  pub answer_store :
      (solution guessed creator : Bytes) (s : Store) (c : Coins)
      → (answer env solution guessed creator (s, c)).1.0 ≡ s
  unfolding answer
  answer_store solution guessed creator s c = elim (Bool-cases (beq solution guessed)) [
    | inl t ↦ rw t (after_reward (reward env creator (s, c)) s (reward_store env creator s c))
    | inr f ↦ rw f
  ]

  wrong :
      {s s' : Store} {c c' : Coins} {reply : MsgSubmitGuessResponse}
      → ◌≡◌ {A = Reply MsgSubmitGuessResponse × World env}
          (ok wrong_answer, (s, c))
          (ok reply, (s', c'))
      → (reply ≡ wrong_answer) × (c' ≡ c)
  wrong h = (cc, cc)

  -- The answer is Correct exactly for the word whose hash is the stored one; 100 then leave the module
  -- account, and otherwise no coins move.
  pub answer_ok :
      (solution guessed creator : Bytes) (s s' : Store) (c c' : Coins)
      (reply : MsgSubmitGuessResponse)
      → answer env solution guessed creator (s, c) ≡ (ok reply, (s', c'))
      → ((solution ≡ guessed)
          × (reply ≡ correct)
          × (module_balance c' module_name + 100 ≡ module_balance c module_name))
        ⊎ ((solution ≢ guessed) × (reply ≡ wrong_answer) × (c' ≡ c))
  unfolding answer
  answer_ok solution guessed creator s s' c c' reply h = elim (Bool-cases (beq solution guessed)) [
    | inl t ↦
        let (e, paid) = rewarded (reward env creator (s, c)) (s', c') reply (rw t at h) in
        inl ((beq_iff solution guessed).0 t, e, reward_balance env creator s s' c c' paid)
    | inr f ↦
        let (e, same) = wrong (rw f at h) in inr (ground (arith, beq_iff solution guessed), e, same)
  ]
