-- ===== src/Keeper/Genesis.antt =====
-- x/wordle/module/genesis.go: the module's state from a genesis state and back.
pub mod Listing
pub mod Loading
pub mod RoundTrip
use wordle.Prelude.{◌≡◌, refl, ap, sym, ◌∙◌, Option, some, Bytes, List, [], ◌∷◌, beq, if◌then◌else◌}
use wordle.Exec.{Reply, ok, Exec, pure, must, ◌>>=◌, ◌>>◌, continue}
use wordle.Types.{Wordle, Guess, IsWireGuess}
use wordle.Types.Genesis.{GenesisState, default_genesis}
use wordle.Env.{Env}
use wordle.Keeper.Guesses.{set_guess, get_all_guess}
use wordle.Keeper.Guesses.Laws.{guess_at, get_guess-set_guess, set_guess_lem}
use wordle.Keeper.Wordles.{set_wordle, get_all_wordle}
use wordle.Keeper.Params.{get_params, set_params}

module _ (env : Env) where
  open env use {Store}

  unfoldable pub set_wordles : List Wordle → Exec Store (Unit {0})
  set_wordles [] = pure tt
  set_wordles (w ∷ ws) = do set_wordle env w; set_wordles ws

  unfoldable pub set_guesses : List Guess → Exec Store (Unit {0})
  set_guesses [] = pure tt
  set_guesses (g ∷ gs) = do set_guess env g; set_guesses gs

  -- An error of SetParams panics.
  unfoldable pub or_panic : Exec Store (Unit {0}) → Exec Store (Unit {0})
  or_panic m s = let (r, s') = m s in (must r, s')

  unfoldable pub init_genesis : GenesisState → Exec Store (Unit {0})
  unfolding set_wordles set_guesses or_panic
  init_genesis gs = do
    set_wordles gs.wordle_list
    set_guesses gs.guess_list
    or_panic (set_params env gs.state_params)

  unfoldable pub export_genesis : Exec Store GenesisState
  unfolding default_genesis
  export_genesis = do
    p ← get_params env
    ws ← get_all_wordle env
    gs ← get_all_guess env
    pure (record default_genesis { state_params = p; wordle_list = ws; guess_list = gs })

  -- The last entry of a list with an index, or what there was before.
  unfoldable pub last_guess : Bytes → List Guess → Reply (Option Guess) → Reply (Option Guess)
  last_guess i [] r = r
  last_guess i (g ∷ gs) r = last_guess i gs (if beq g.index i then ok (some g) else r)

  abbrev pub AllWire : List Guess → Type 0
  AllWire [] = Unit {0}
  AllWire (g ∷ gs) = IsWireGuess g × AllWire gs

  -- The loop of InitGenesis over the guesses succeeds, and each index then holds its last guess of the
  -- list, or what it held before.
  pub set_guesses_lem :
      (gs : List Guess) (s : Store)
      → AllWire gs
      → ((set_guesses gs s).0 ≡ ok tt)
        × ((i : Bytes) → guess_at env (set_guesses gs s).1 i ≡ last_guess i gs (guess_at env s i))
  unfolding set_guesses last_guess
  set_guesses_lem [] s w = (refl, λ i. refl)
  set_guesses_lem (g ∷ gs) s (w, ws) =
      let (bz, e, d) = set_guess_lem env g s w in
      let (r, h) = set_guesses_lem gs (set_guess env g s).1 ws in
      let step : set_guesses (g ∷ gs) s ≡ set_guesses gs (set_guess env g s).1 =
        ap (λ p. continue {A = Unit {0}} p.0 (λ _. set_guesses gs) p.1)
          (e ∙ ap (λ t. (ok tt, t.1)) (sym e)) in
      (
        ap (λ t. t.0) step ∙ r,
        (λ i.
            ap (λ t. guess_at env t.1 i) step
            ∙ h i
            ∙ ap (last_guess i gs) (get_guess-set_guess env g s i w)),
      )
