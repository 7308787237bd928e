-- ===== src/Keeper/Queries.antt =====
-- x/wordle/keeper/query_guess.go and query_wordle.go: the queries of one entry; Pages has the lists. The
-- index of the request is given, and none stands for a nil request.
pub mod Pages
use wordle.Prelude.{Option, none, some, Bytes}
use wordle.Exec.{Reply, ok, err, Exec, fail, lift, invalid_argument, not_found, ◌>>=◌}
use wordle.Types.{Wordle, Guess}
use wordle.Env.{Env}
use wordle.Keeper.Guesses.{get_guess}
use wordle.Keeper.Wordles.{get_wordle}

-- `if !found { return nil, status.Error(codes.NotFound, "not found") }`
unfoldable pub found_or_error : {A : Type 0} → Option A → Reply A
found_or_error none = err not_found
found_or_error (some a) = ok a

module _ (env : Env) where
  open env use {Store}

  unfoldable pub query_guess : Option Bytes → Exec Store Guess
  unfolding found_or_error
  query_guess none = fail invalid_argument
  query_guess (some index) = do found ← get_guess env index; lift (found_or_error found)

  unfoldable pub query_wordle : Option Bytes → Exec Store Wordle
  unfolding found_or_error
  query_wordle none = fail invalid_argument
  query_wordle (some index) = do found ← get_wordle env index; lift (found_or_error found)
