-- ===== src/Keeper/History/Guessing.antt =====
-- SubmitGuess beside the rule of guesses.
use wordle.Prelude.{
  Option-cases, suc, ◌<◌, ◌≡◌, inl, inr, refl, sym, ap, ◌∙◌, arith, Bool-cases, none, some, Bytes,
  beq, beq_iff, leb, if◌then◌else◌,
}
use wordle.Exec.{Reply, ok, pure, no_wordle_today, guess_limit, ◌>>◌}
use wordle.Types.{Wordle, IsGoString}
use wordle.Types.Messages.{MsgSubmitGuess, MsgSubmitGuessResponse}
use wordle.Env.{Env}
use wordle.Keeper.Wordles.Laws.{wordle_at}
use wordle.Keeper.MsgServer.{
  World, day_index, guesser_index, solution_hash, submit_guess, reward, correct, answer,
}
use wordle.Keeper.MsgServer.Submit.{IsWord}
use wordle.Keeper.History.Effects.{submit_guess-no_wordle}
use wordle.Keeper.MsgServer.Guessing.{answer_store, seventh_guess, submit_guess-open}
use wordle.Keeper.MsgServer.Game.{guess_counted}
use wordle.Keeper.History.Rules.{
  Board, Verdict, refused, wrong, right, guess_rule, judge, word_of, Shows, Answers, same-HasTried,
}

module _ (env : Env) where
  open env use {Store, Coins}

  counted-Shows :
      (today : Bytes) (msg : MsgSubmitGuess) (s : Store) (c : Coins) (board : Board) (w : Wordle)
      → IsWord env msg.word
      → IsGoString msg.creator
      → Shows env s board
      → wordle_at env s (day_index env today) ≡ ok (some w)
      → board.tries (guesser_index env today msg.creator) < 6
      → Shows env (submit_guess env today msg (s, c)).1.0 (record board {
        tries = λ i.
            if beq (guesser_index env today msg.creator) i
            then suc (board.tries (guesser_index env today msg.creator))
            else board.tries i;
      })
  counted-Shows today msg s c board w word g shows found few =
      let who = guesser_index env today msg.creator in
      let (tried, at, kept) =
        guess_counted env today msg s c w (board.tries who) word g found (shows.guesses who) few in
      record {
        wordles = λ i. let (o, e, same) = shows.wordles i in (o, kept i ∙ e, same);
        guesses = λ i. elim (Bool-cases (beq who i)) [
          | inl t ↦ rw (t, sym ((beq_iff who i).0 t)) tried
          | inr f ↦ rw f (same-HasTried env s _ i (board.tries i) (at i ∙ rw f) (shows.guesses i))
        ];
        limit = λ i. elim (Bool-cases (beq who i)) [
          | inl t ↦ rw t (omega arith)
          | inr f ↦ rw f (shows.limit i)
        ];
      }

  -- The store and the answer of SubmitGuess are those of a verdict and a board.
  abbrev pub Follows :
      MsgSubmitGuess
      → Store
      → Coins
      → Verdict × Board
      → Reply MsgSubmitGuessResponse × World env
      → Type 0
  Follows msg s c (v, board) r = Shows env r.1.0 board × Answers env msg s c v r

  unsolved :
      (today : Bytes) (msg : MsgSubmitGuess) (s : Store) (c : Coins) (board : Board)
      → IsWord env msg.word
      → Shows env s board
      → wordle_at env s (day_index env today) ≡ ok none
      → Follows msg s c (refused no_wordle_today, board) (submit_guess env today msg (s, c))
  unsolved today msg s c board word shows free =
      let e = submit_guess-no_wordle env today msg s c word free in (rw e shows, e)

  beyond_six :
      (today : Bytes) (msg : MsgSubmitGuess) (s : Store) (c : Coins) (board : Board) (w : Wordle)
      → IsWord env msg.word
      → Shows env s board
      → wordle_at env s (day_index env today) ≡ ok (some w)
      → board.tries (guesser_index env today msg.creator) ≡ 6
      → Follows msg s c (refused guess_limit, board) (submit_guess env today msg (s, c))
  beyond_six today msg s c board w word shows found six =
      let e =
        seventh_guess env today msg s c w word found
          (rw six at (shows.guesses (guesser_index env today msg.creator))) in
      (rw e shows, e)

  answered :
      (msg : MsgSubmitGuess) (s s' : Store) (c : Coins) (solution guessed : Bytes)
      → Answers env msg s c
          (if beq solution guessed then right else wrong)
          (answer env solution guessed msg.creator (s', c))
  unfolding answer
  answered msg s s' c solution guessed = elim (Bool-cases (beq solution guessed)) [
    | inl t ↦
        let kept = answer_store env solution guessed msg.creator s' c in
        let e : answer env solution guessed msg.creator (s', c)
            ≡ (reward env msg.creator >> pure correct) (s', c) =
          rw t refl in
        rw t (
          ap (λ u. (reward env msg.creator >> pure correct) (u, c))
            (sym (ap (λ r. r.1.0) (sym e) ∙ kept)))
    | inr f ↦ rw f (refl, refl)
  ]

  within_six :
      (today : Bytes) (msg : MsgSubmitGuess) (s : Store) (c : Coins) (board : Board) (w : Wordle)
      → IsWord env msg.word
      → IsGoString msg.creator
      → Shows env s board
      → wordle_at env s (day_index env today) ≡ ok (some w)
      → board.tries (guesser_index env today msg.creator) < 6
      → Follows msg s c
          (
            if beq w.word (solution_hash env msg.word) then right else wrong,
            record board {
              tries = λ i.
                  if beq (guesser_index env today msg.creator) i
                  then suc (board.tries (guesser_index env today msg.creator))
                  else board.tries i;
            },
          )
          (submit_guess env today msg (s, c))
  within_six today msg s c board w word g shows found few =
      let index = guesser_index env today msg.creator in
      let (bz, e, d) =
        submit_guess-open env today msg s c w (board.tries index) word g found (shows.guesses index)
          few in
      (
        counted-Shows today msg s c board w word g shows found few,
        rw e (answered msg s _ c w.word (solution_hash env msg.word)),
      )

  -- SubmitGuess of a letter word, on a store that shows a board, follows the rule of guesses: the store
  -- shows the board of the rule, and the answer is its verdict; only a right word asks the bank.
  pub guess_refines :
      (today : Bytes) (msg : MsgSubmitGuess) (s : Store) (c : Coins) (board : Board)
      → IsWord env msg.word
      → IsGoString msg.creator
      → Shows env s board
      → Follows msg s c
          (guess_rule
            (day_index env today)
            (guesser_index env today msg.creator)
            (solution_hash env msg.word)
            board)
          (submit_guess env today msg (s, c))
  guess_refines today msg s c board word g shows =
      let index = guesser_index env today msg.creator in
      let (found, e, same) = shows.wordles (day_index env today) in
      elim (Option-cases found) [
        | inl free ↦
            rw (sym same ∙ ap word_of free)
              (unsolved today msg s c board word shows (e ∙ ap (λ t. ok t) free))
        | inr (w, is) ↦ rw (sym same ∙ ap word_of is) (counting w (e ∙ ap (λ t. ok t) is))
      ]
    where
      counting :
          (w : Wordle)
          → wordle_at env s (day_index env today) ≡ ok (some w)
          → Follows msg s c
              (judge
                (some w.word)
                (guesser_index env today msg.creator)
                (solution_hash env msg.word)
                board)
              (submit_guess env today msg (s, c))
      counting w found =
          elim (Bool-cases (leb 6 (board.tries (guesser_index env today msg.creator)))) [
            | inl t ↦ rw t (
                beyond_six today msg s c board w word shows found
                  (ground (arith, shows.limit (guesser_index env today msg.creator), t)))
            | inr f ↦ rw f (within_six today msg s c board w word g shows found (ground (arith, f)))
          ]
