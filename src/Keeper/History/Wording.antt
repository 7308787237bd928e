-- ===== src/Keeper/History/Wording.antt =====
-- SubmitWordle beside the rule of wordles.
use wordle.Prelude.{
  ◌≡◌, inl, inr, refl, sym, ap, ◌∙◌, Bool-cases, some, Option-cases, Bytes, beq, if◌then◌else◌,
  ◌++◌,
}
use wordle.Exec.{Reply, ok, err}
use wordle.Types.{IsGoString}
use wordle.Types.Keys.{guess_key_prefix, wordle_key_prefix}
use wordle.Types.Messages.{MsgSubmitWordle}
use wordle.Env.{Env}
use wordle.Keeper.Wordles.{decode_wordle}
use wordle.Keeper.Wordles.Laws.{wordle_at_lem, wordle_path, get-set_wordle}
use wordle.Keeper.Genesis.Loading.{same_guesses, same_wordles}
use wordle.Keeper.MsgServer.{World, day_index, solution_hash, new_wordle, submit_wordle, escrow}
use wordle.Keeper.MsgServer.Rewards.{escrow_store}
use wordle.Keeper.MsgServer.Submit.{IsWord, submit_wordle-first, submit_wordle-taken}
use wordle.Keeper.History.Rules.{
  Board, Verdict, refused, accepted, wrong, right, wordle_rule, word_of, Shows, same-HasTried,
}

module _ (env : Env) where
  open env use {Store, Coins, get, set, delete, get-set, get-delete}

  -- A store that answers for every index as before shows the same board.
  pub same-Shows :
      (s s' : Store) (board : Board)
      → ((k : Bytes) → get s' (guess_key_prefix ++ k) ≡ get s (guess_key_prefix ++ k))
      → ((k : Bytes) → get s' (wordle_key_prefix ++ k) ≡ get s (wordle_key_prefix ++ k))
      → Shows env s board
      → Shows env s' board
  same-Shows s s' board gs ws shows =
      let (at_guess, _) = same_guesses env s s' gs in
      let (at_wordle, _) = same_wordles env s s' ws in
      record {
        wordles = λ i. let (o, e, same) = shows.wordles i in (o, at_wordle i ∙ e, same);
        guesses = λ i. same-HasTried env s s' i (board.tries i) (at_guess i) (shows.guesses i);
        limit = shows.limit;
      }

  -- What SubmitWordle answers by a verdict. Only an accepted word asks the bank.
  abbrev pub AnswersWordle :
      MsgSubmitWordle → Store → Coins → Verdict → Reply (Unit {0}) × World env → Type 0
  AnswersWordle msg s c (refused e) r = r ≡ (err e, (s, c))
  AnswersWordle msg s c accepted r = r ≡ escrow env msg.creator (r.1.0, c)
  AnswersWordle msg s c wrong r = ⊥
  AnswersWordle msg s c right r = ⊥

  abbrev pub FollowsWordle :
      MsgSubmitWordle → Store → Coins → Verdict × Board → Reply (Unit {0}) × World env → Type 0
  FollowsWordle msg s c (v, board) r = Shows env r.1.0 board × AnswersWordle msg s c v r

  solved-Shows :
      (today : Bytes) (msg : MsgSubmitWordle) (s : Store) (board : Board) (bz : Bytes)
      → decode_wordle env (some bz) ≡ ok (some (new_wordle env today msg))
      → Shows env s board
      → Shows env (set s (wordle_path (day_index env today)) bz) (record board {
        solution = λ i.
            if beq (day_index env today) i
            then some (solution_hash env msg.word)
            else board.solution i;
      })
  solved-Shows today msg s board bz d shows =
      let day = day_index env today in
      let s₁ = set s (wordle_path day) bz in
      let (at, _) =
        same_guesses env s s₁
          (λ k. get-set s _ _ (guess_key_prefix ++ k) bz ∙ unfold beq in refl) in
      record {
        wordles = λ i. elim (Bool-cases (beq day i)) [
          | inl t ↦ (
            some (new_wordle env today msg),
            wordle_at_lem env s₁ i
                ∙ ap (decode_wordle env) (get-set_wordle env s day i bz ∙ rw t)
                ∙ d,
            rw t refl,
          )
          | inr f ↦
              let (o, e, same) = shows.wordles i in
              (
                o,
                wordle_at_lem env s₁ i
                    ∙ ap (decode_wordle env) (get-set_wordle env s day i bz ∙ rw f)
                    ∙ sym (wordle_at_lem env s i)
                    ∙ e,
                rw f same,
              )
        ];
        guesses = λ i. same-HasTried env s s₁ i (board.tries i) (at i) (shows.guesses i);
        limit = shows.limit;
      }

  -- SubmitWordle of a letter word, on a store that shows a board, follows the rule of wordles: the store
  -- shows the board of the rule, and the answer is its verdict; only an accepted word asks the bank.
  pub wordle_refines :
      (today : Bytes) (msg : MsgSubmitWordle) (s : Store) (c : Coins) (board : Board)
      → IsWord env msg.word
      → IsGoString msg.creator
      → Shows env s board
      → FollowsWordle msg s c
          (wordle_rule (day_index env today) (solution_hash env msg.word) board)
          (submit_wordle env today msg (s, c))
  wordle_refines today msg s c board word g shows =
      let (found, e, same) = shows.wordles (day_index env today) in
      elim (Option-cases found) [
        | inl free ↦
            let (bz, h, d) =
              submit_wordle-first env today msg s c word g (e ∙ ap (λ t. ok t) free) in
            let kept =
              escrow_store env msg.creator (set s (wordle_path (day_index env today)) bz) c in
            rw (sym same ∙ ap word_of free) (
              rw (ap (λ r. r.1.0) h ∙ kept) (solved-Shows today msg s board bz d shows),
              h ∙ ap (λ u. escrow env msg.creator (u, c)) (sym (ap (λ r. r.1.0) h ∙ kept)),
            )
        | inr (w, is) ↦
            let h = submit_wordle-taken env today msg s c w word (e ∙ ap (λ t. ok t) is) in
            rw (sym same ∙ ap word_of is) (rw h shows, h)
      ]
