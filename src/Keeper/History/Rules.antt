-- ===== src/Keeper/History/Rules.antt =====
-- The rules of the game, without a store: each day's solution and the guesses of each guesser. A store
-- shows the board of a game.
use wordle.Prelude.{
  ℕ, suc, ◌≤◌, ◌≡◌, inl, inr, ◌∙◌, Option, none, some, Bytes, beq, leb, if◌then◌else◌,
}
use wordle.Exec.{Reply, ok, err, Error, pure, no_wordle_today, guess_limit, wordle_submitted, ◌>>◌}
use wordle.Types.{Wordle}
use wordle.Types.Messages.{MsgSubmitGuess, MsgSubmitGuessResponse}
use wordle.Env.{Env}
use wordle.Keeper.Guesses.Laws.{guess_at}
use wordle.Keeper.Wordles.Laws.{wordle_at}
use wordle.Keeper.MsgServer.{World, reward, correct, wrong_answer}
use wordle.Keeper.MsgServer.Guessing.{HasTried}

-- The hash of the solution under the index of its day, and the guesses under the index of a guesser.
pub record Board : Type 0 where
  pub solution : Bytes → Option Bytes
  pub tries : Bytes → ℕ

pub data Verdict : Type 0 where
  refused : Error → Verdict
  accepted wrong right : Verdict

-- The first word of a day is its solution.
abbrev pub add_solution : Option Bytes → Bytes → Bytes → Board → Verdict × Board
add_solution (some solution) day hash board = (refused wordle_submitted, board)
add_solution none day hash board =
    (accepted, record board { solution = λ i. if beq day i then some hash else board.solution i })

abbrev pub wordle_rule : Bytes → Bytes → Board → Verdict × Board
wordle_rule day hash board = add_solution (board.solution day) day hash board

-- A guesser has six guesses.
abbrev pub judge : Option Bytes → Bytes → Bytes → Board → Verdict × Board
judge none who hash board = (refused no_wordle_today, board)
judge (some solution) who hash board =
    if leb 6 (board.tries who) then (refused guess_limit, board) else (
      if beq solution hash then right else wrong,
      record board { tries = λ i. if beq who i then suc (board.tries who) else board.tries i },
    )

abbrev pub guess_rule : Bytes → Bytes → Bytes → Board → Verdict × Board
guess_rule day who hash board = judge (board.solution day) who hash board

abbrev pub word_of : Option Wordle → Option Bytes
word_of none = none
word_of (some w) = some w.word

module _ (env : Env) where
  open env use {Store, Coins}

  -- The store shows a board: its wordles are the solutions, and its entries count the guesses.
  pub record Shows (s : Store) (board : Board) : Type 0 where
    pub wordles :
        (i : Bytes)
        → (found : Option Wordle) × (wordle_at env s i ≡ ok found)
          × (word_of found ≡ board.solution i)
    pub guesses : (i : Bytes) → HasTried env s i (board.tries i)
    pub limit : (i : Bytes) → board.tries i ≤ 6

  -- What SubmitGuess answers by a verdict. Only a right guess asks the bank.
  abbrev pub Answers :
      MsgSubmitGuess → Store → Coins → Verdict → Reply MsgSubmitGuessResponse × World env → Type 0
  Answers msg s c (refused e) r = r ≡ (err e, (s, c))
  Answers msg s c accepted r = ⊥
  Answers msg s c wrong r = (r.0 ≡ ok wrong_answer) × (r.1.1 ≡ c)
  Answers msg s c right r = r ≡ (reward env msg.creator >> pure correct) (r.1.0, c)

  -- Another store that answers for an index as before counts as many guesses for it.
  pub same-HasTried :
      (s s' : Store) (i : Bytes) (n : ℕ)
      → guess_at env s' i ≡ guess_at env s i
      → HasTried env s i n
      → HasTried env s' i n
  same-HasTried s s' i n e (inl (h, z)) = inl (e ∙ h, z)
  same-HasTried s s' i n e (inr (g, h, k)) = inr (g, e ∙ h, k)
