-- ===== src/Keeper/MsgServer.antt =====
-- x/wordle/keeper/msg_server_submit_wordle.go, msg_server_submit_guess.go and msg_update_params.go.
pub mod Rewards
pub mod Submit
pub mod Guessing
pub mod Game
pub mod Days
pub mod Frame
use wordle.Prelude.{
  ℕ, zero, suc, ◌+◌, ◌*◌, ◌/◌, ◌%◌, ◌≡◌, refl, Bool, true, false, not, Option, none, some,
}
use wordle.Prelude.{Bytes, codes, [], ◌∷◌, ◌++◌, length, beq, ltb, ◌==◌, if◌then◌else◌}
use wordle.Prelude.Int.{ℤ, pos, wrap, ◌+ℤ◌}
use wordle.Exec.{Reply, ok, err, panic, Exec, pure, fail, lift, guard, must, ◌>>=◌, ◌>>◌}
use wordle.Exec.{
  wordle_length, wordle_letters, wordle_submitted, guess_length, guess_letters, no_wordle_today,
}
use wordle.Exec.{guess_limit, external}
use wordle.Types.{Wordle, Guess}
use wordle.Types.Keys.{module_name}
use wordle.Types.Messages.{MsgSubmitWordle, MsgSubmitGuess, MsgSubmitGuessResponse}
use wordle.Env.{Env}
use wordle.Keeper.Guesses.{set_guess, get_guess, remove_guess}
use wordle.Keeper.Wordles.{set_wordle, get_wordle}
use wordle.Keeper.Letters.{is_letter}
use wordle.Keeper.Decimal.{itoa, atoi}

-- hex.EncodeToString
unfoldable pub hex_digit : ℕ → ℕ
hex_digit n = if ltb n 10 then 48 + n else 87 + n

unfoldable pub hex : Bytes → Bytes
hex [] = []
hex (b ∷ bs) = hex_digit (b / 16 % 16) ∷ hex_digit (b % 16) ∷ hex bs

-- `if isFound { return err }`
unfoldable pub refuse_found : {A : Type 0} → Option A → Reply (Unit {0})
refuse_found none = ok tt
refuse_found (some a) = err wordle_submitted

-- `if !isFound { return err }`
unfoldable pub todays_wordle : Option Wordle → Reply Wordle
todays_wordle none = err no_wordle_today
todays_wordle (some w) = ok w

-- `guesserAddress, _ := sdk.AccAddressFromBech32(...)`: beside an error the address is empty.
unfoldable pub or_no_address : Reply Bytes → Reply Bytes
or_no_address (ok address) = ok address
or_no_address (err e) = ok []
or_no_address panic = panic

-- `currentCount, err := strconv.Atoi(...)`, with a panic on the error.
unfoldable pub current_count : Option ℤ → Reply ℤ
current_count none = panic
current_count (some n) = ok n

-- The count of the entry of the day, 0 without one; an entry with six guesses is refused.
unfoldable pub count_so_far : Option Guess → Reply ℤ
unfolding current_count
count_so_far none = ok (pos 0)
count_so_far (some guess) =
    if beq guess.count (itoa (pos 6)) then err guess_limit else current_count (atoi guess.count)

abbrev pub wrong_answer : MsgSubmitGuessResponse
wrong_answer = record {
  title = codes "Wrong Answer";
  body = codes "Your Guess Was Wrong. Try Again";
}

abbrev pub correct : MsgSubmitGuessResponse
correct = record { title = codes "Correct"; body = codes "You Guessed The Wordle Correctly!" }

module _ (env : Env) where
  open env use {Store, Coins, to_module, from_module, parse_address, sha256}

  -- What a message may change: the module's store and the bank's coins.
  abbrev pub World : Type 0
  World = Store × Coins

  abbrev pub on_store : {A : Type 0} → Exec Store A → Exec World A
  on_store m (s, c) = let (r, s') = m s in (r, (s', c))

  abbrev pub on_coins : {A : Type 0} → Exec Coins A → Exec World A
  on_coins m (s, c) = let (r, c') = m c in (r, (s, c'))

  -- The hashes in hexadecimal: of the day, of a word, and of the day with a guesser behind it.
  abbrev pub day_index : Bytes → Bytes
  day_index today = hex (sha256 today)

  abbrev pub solution_hash : Bytes → Bytes
  solution_hash word = hex (sha256 word)

  abbrev pub guesser_index : Bytes → Bytes → Bytes
  guesser_index today creator = hex (sha256 (today ++ creator))

  abbrev pub new_wordle : Bytes → MsgSubmitWordle → Wordle
  new_wordle today msg = record {
    index = day_index today;
    word = solution_hash msg.word;
    submitter = msg.creator;
  }

  -- The reward of a wordle, moved from its submitter to the module account.
  unfoldable pub escrow : Bytes → Exec World (Unit {0})
  unfolding or_no_address
  escrow creator = do
    address ← lift (or_no_address (parse_address creator))
    on_coins (to_module address module_name 100)

  -- SubmitWordle on the day that the clock shows, as its date in text.
  unfoldable pub submit_wordle : Bytes → MsgSubmitWordle → Exec World (Unit {0})
  unfolding refuse_found escrow
  submit_wordle today msg = do
    guard (length msg.word == 5) wordle_length
    guard (is_letter env msg.word) wordle_letters
    found ← on_store (get_wordle env (day_index today))
    lift (refuse_found found)
    on_store (set_wordle env (new_wordle today msg))
    escrow msg.creator

  abbrev pub new_guess : Bytes → MsgSubmitGuess → ℤ → Guess
  new_guess today msg count = record {
    index = guesser_index today msg.creator;
    word = solution_hash msg.word;
    submitter = msg.creator;
    count = itoa (wrap 64 (count +ℤ pos 1));
  }

  -- The reward for the right word, from the module account to the guesser.
  unfoldable pub reward : Bytes → Exec World (Unit {0})
  unfolding or_no_address
  reward creator = do
    address ← lift (or_no_address (parse_address creator))
    on_coins (from_module module_name address 100)

  -- The answer to a guess, with the reward for the right word.
  unfoldable pub answer : Bytes → Bytes → Bytes → Exec World MsgSubmitGuessResponse
  unfolding reward
  answer solution guessed creator =
      if not (beq solution guessed) then pure wrong_answer else do reward creator; pure correct

  -- The second half of SubmitGuess, once the wordle and the count are known.
  unfoldable pub attempt : Bytes → MsgSubmitGuess → Wordle → ℤ → Exec World MsgSubmitGuessResponse
  unfolding answer
  attempt today msg wordle count = do
    on_store (remove_guess env (guesser_index today msg.creator))
    on_store (set_guess env (new_guess today msg count))
    answer wordle.word (solution_hash msg.word) msg.creator

  unfoldable pub submit_guess : Bytes → MsgSubmitGuess → Exec World MsgSubmitGuessResponse
  unfolding todays_wordle count_so_far attempt
  submit_guess today msg = do
    guard (length msg.word == 5) guess_length
    guard (is_letter env msg.word) guess_letters
    found ← on_store (get_wordle env (day_index today))
    wordle ← lift (todays_wordle found)
    entry ← on_store (get_guess env (guesser_index today msg.creator))
    count ← lift (count_so_far entry)
    attempt today msg wordle count
