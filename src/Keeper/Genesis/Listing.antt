-- ===== src/Keeper/Genesis/Listing.antt =====
-- The loop of InitGenesis over the guesses keeps the guess entries in order.
use wordle.Prelude.{◌≡◌, ap, sym, ◌∙◌, List, [], ◌∷◌}
use wordle.Exec.{ok, continue}
use wordle.Types.{Guess}
use wordle.Env.{Env}
use wordle.Keeper.Guesses.{set_guess}
use wordle.Keeper.Guesses.Laws.{set_guess_lem}
use wordle.Keeper.Guesses.Listing.{IsKept, set_guess-IsKept}
use wordle.Keeper.Genesis.{set_guesses, AllWire}

module _ (env : Env) where
  open env use {Store}

  pub set_guesses-IsKept :
      (gs : List Guess) (s : Store)
      → AllWire env gs
      → IsKept env s
      → IsKept env (set_guesses env gs s).1
  unfolding set_guesses
  set_guesses-IsKept [] s w kept = kept
  set_guesses-IsKept (g ∷ gs) s (w, ws) kept =
      let (bz, e, d) = set_guess_lem env g s w in
      let step : set_guesses env (g ∷ gs) s ≡ set_guesses env gs (set_guess env g s).1 =
        ap (λ p. continue {A = Unit {0}} p.0 (λ _. set_guesses env gs) p.1)
          (e ∙ ap (λ t. (ok tt, t.1)) (sym e)) in
      rw step (set_guesses-IsKept gs (set_guess env g s).1 ws (set_guess-IsKept env g s w kept))
