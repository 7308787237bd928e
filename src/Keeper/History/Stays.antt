-- ===== src/Keeper/History/Stays.antt =====
-- The word of a day over a history of messages and block hooks, and the submissions that come too late.
use wordle.Prelude.{
  ◌≡◌, inl, inr, refl, sym, ap, ◌∙◌, arith, Bool-cases, Option, none, some, Bytes, beq, beq_iff,
  leb, beq_refl,
}
use wordle.Exec.{ok, err, wordle_submitted}
use wordle.Types.{Wordle, IsGoString}
use wordle.Types.Messages.{MsgSubmitWordle}
use wordle.Keeper.MsgServer.{new_wordle, submit_wordle}
use wordle.Keeper.MsgServer.Submit.{IsWord, submit_wordle_effect, submit_wordle-taken}
use wordle.Keeper.History.Order.{history-IsGame}
use wordle.Env.{Env}
use wordle.Keeper.Wordles.Laws.{wordle_at}
use wordle.Keeper.MsgServer.{World, day_index, guesser_index, solution_hash}
use wordle.Keeper.MsgServer.Guessing.{some_injective}
use wordle.Keeper.History.{
  History, start, wordle_message, guess_message, params_message, block_begins, block_ends, IsGame,
}
use wordle.Keeper.History.Order.{IsGame-HasTried, IsGame-wordle_at}
use wordle.Keeper.History.Rules.{Board, judge, add_solution, word_of, Shows}
use wordle.Keeper.History.Refines.{played, is_word, history_refines}

add_solution-stays :
    (found : Option Bytes) (day hash i x : Bytes) (board : Board)
    → board.solution day ≡ found
    → board.solution i ≡ some x
    → (add_solution found day hash board).1.solution i ≡ some x
add_solution-stays (some y) day hash i x board e h = h
add_solution-stays none day hash i x board e h = elim (Bool-cases (beq day i)) [
  | inl t ↦ let same = ap board.solution ((beq_iff day i).0 t) in absurd (cc (same, e, h))
  | inr f ↦ rw f h
]

judge-solution :
    (found : Option Bytes) (who hash : Bytes) (board : Board)
    → (judge found who hash board).1.solution ≡ board.solution
judge-solution none who hash board = refl
judge-solution (some x) who hash board = elim (Bool-cases (leb 6 (board.tries who))) [
  | inl t ↦ rw t refl
  | inr f ↦ rw f refl
]

module _ (env : Env) where
  open env use {Store}

  -- The rules keep the word of a day.
  played-stays :
      {w v : World env} (h : History env w v) (board : Board) (i x : Bytes)
      → board.solution i ≡ some x
      → (played env h board).solution i ≡ some x
  unfolding played
  played-stays (start) board i x e = e
  played-stays (wordle_message h today msg g) board i x e =
      let before = played-stays h board i x e in
      elim (Bool-cases (is_word env msg.word)) [
        | inl t ↦ rw t (
            add_solution-stays ((played env h board).solution (day_index env today))
              (day_index env today) (solution_hash env msg.word) i x (played env h board) refl
              before)
        | inr f ↦ rw f before
      ]
  played-stays (guess_message h today msg g) board i x e =
      let before = played-stays h board i x e in
      elim (Bool-cases (is_word env msg.word)) [
        | inl t ↦ rw t (
            ap (λ f. f i)
              (judge-solution ((played env h board).solution (day_index env today))
                (guesser_index env today msg.creator) (solution_hash env msg.word)
                (played env h board))
            ∙ before)
        | inr f ↦ rw f before
      ]
  played-stays (params_message h authority msg) board i x e = played-stays h board i x e
  played-stays (block_begins h height n t) board i x e = played-stays h board i x e
  played-stays (block_ends h height) board i x e = played-stays h board i x e

  -- Every store of the game shows a board.
  pub board_shown : (s : Store) → IsGame env s → (board : Board) × Shows env s board
  board_shown s game = (
    record {
      solution = λ i. word_of (IsGame-wordle_at env s i game).0;
      tries = λ i. (IsGame-HasTried env s i game).0;
    },
    record {
      wordles = λ i. let (o, e) = IsGame-wordle_at env s i game in (o, e, refl);
      guesses = λ i. (IsGame-HasTried env s i game).1;
      limit = λ i. let (n, _, small) = IsGame-HasTried env s i game in ground (arith, small);
    },
  )

  worded :
      (found : Option Wordle) (x : Bytes)
      → word_of found ≡ some x
      → (y : Wordle) × (found ≡ some y) × (y.word ≡ x)
  worded none x e = absurd (cc)
  worded (some y) x e = (y, refl, some_injective e)

  -- The word of a day stays what it is: after any history of messages and block hooks from a store of
  -- the game, a day that had a wordle has one with the same hash.
  pub solution_stays :
      (w v : World env) (day : Bytes) (x : Wordle)
      → IsGame env w.0
      → History env w v
      → wordle_at env w.0 day ≡ ok (some x)
      → (y : Wordle) × (wordle_at env v.0 day ≡ ok (some y)) × (y.word ≡ x.word)
  solution_stays w v day x game h at =
      let (board, shows) = board_shown w.0 game in
      let after = history_refines env w v board h game shows in
      let (o, e, same) = shows.wordles day in
      let (p, d, now) = after.wordles day in
      let held : o ≡ some x = cc in
      let kept = played-stays h board day x.word (sym same ∙ ap word_of held) in
      let (y, is, word) = worded p x.word (now ∙ kept) in (y, d ∙ ap (λ t. ok t) is, word)

  -- Once a wordle has been submitted with success on a store of the game, any submission of a letter
  -- word on the same day is refused as already submitted, whatever messages and block hooks came
  -- between the two, and the store and the coins stay as they are.
  pub one_wordle_a_day :
      (today : Bytes) (msg later : MsgSubmitWordle) (w u v : World env)
      → IsGame env w.0
      → IsGoString msg.creator
      → submit_wordle env today msg w ≡ (ok tt, u)
      → History env u v
      → IsWord env later.word
      → submit_wordle env today later v ≡ (err wordle_submitted, v)
  one_wordle_a_day today msg later w u v game g first between word =
      let now : History env w u =
        rw (sym (ap (λ r. r.1) first)) (wordle_message start today msg g) in
      let (_, _, stored, _) = submit_wordle_effect env today msg w.0 u.0 w.1 u.1 g first in
      let (x, found, same) =
        solution_stays u v (day_index env today) (new_wordle env today msg)
          (history-IsGame env w u game now) between
          (stored (day_index env today) ∙ rw (beq_refl (day_index env today))) in
      submit_wordle-taken env today later v.0 v.1 x word found
