-- ===== src/Keeper/Genesis/Loading.antt =====
-- The loops of InitGenesis: what they write, and what they leave alone.
use wordle.Prelude.{
  ℕ, ◌≡◌, refl, ap, sym, ◌∙◌, false, Option, some, Bytes, List, [], ◌∷◌, ◌++◌, beq, if◌then◌else◌,
}
use wordle.Exec.{Reply, ok, continue}
use wordle.Types.{Guess, Wordle, IsWireWordle}
use wordle.Types.Keys.{guess_key, guess_key_prefix, wordle_key, wordle_key_prefix, params_key}
use wordle.Env.{Env}
use wordle.Keeper.Guesses.{set_guess, decode_guess}
use wordle.Keeper.Guesses.Laws.{guess_at, guess_at_lem, guess_path, set_guess_lem}
use wordle.Keeper.Guesses.Listing as GuessListing
use wordle.Keeper.Guesses.Listing.{guess_index, get_all_guess-get_guess}
use wordle.Keeper.Wordles.{set_wordle, decode_wordle}
use wordle.Keeper.Wordles.Laws.{
  wordle_at, wordle_at_lem, wordle_path, set_wordle_lem, get_wordle-set_wordle,
}
use wordle.Keeper.Wordles.Listing as WordleListing
use wordle.Keeper.Wordles.Listing.{wordle_index, get_all_wordle-get_wordle, set_wordle-IsKept}
use wordle.Keeper.Genesis.{set_wordles, set_guesses, AllWire}

-- The last wordle of a list with an index, or what there was before.
unfoldable pub last_wordle : Bytes → List Wordle → Reply (Option Wordle) → Reply (Option Wordle)
last_wordle i [] r = r
last_wordle i (w ∷ ws) r = last_wordle i ws (if beq w.index i then ok (some w) else r)

abbrev pub AllWireWordles : List Wordle → Type 0
AllWireWordles [] = Unit {0}
AllWireWordles (w ∷ ws) = IsWireWordle w × AllWireWordles ws

module _ (env : Env) where
  open env use {Store, get, set, get-set}

  guesses_step :
      (g : Guess) (gs : List Guess) (s s' : Store)
      → set_guess env g s ≡ (ok tt, s')
      → set_guesses env (g ∷ gs) s ≡ set_guesses env gs s'
  unfolding set_guesses
  guesses_step g gs s s' e = ap (λ p. continue {A = Unit {0}} p.0 (λ _. set_guesses env gs) p.1) e

  wordles_step :
      (w : Wordle) (ws : List Wordle) (s s' : Store)
      → set_wordle env w s ≡ (ok tt, s')
      → set_wordles env (w ∷ ws) s ≡ set_wordles env ws s'
  unfolding set_wordles
  wordles_step w ws s s' e = ap (λ p. continue {A = Unit {0}} p.0 (λ _. set_wordles env ws) p.1) e

  -- The loop over the guesses leaves the other keys alone.
  pub set_guesses_frame :
      (gs : List Guess) (s : Store) (j : Bytes)
      → AllWire env gs
      → ((i : Bytes) → beq (guess_path i) j ≡ false)
      → get (set_guesses env gs s).1 j ≡ get s j
  unfolding set_guesses
  set_guesses_frame [] s j w far = refl
  set_guesses_frame (g ∷ gs) s j (w, ws) far =
      let (bz, e, d) = set_guess_lem env g s w in
      ap (λ t. get t.1 j) (guesses_step g gs s _ e)
      ∙ set_guesses_frame gs (set s (guess_path g.index) bz) j ws far
      ∙ get-set s _ _ j bz
      ∙ ap (λ b. if b then some bz else get s j) (far g.index)

  pub set_wordles_frame :
      (ws : List Wordle) (s : Store) (j : Bytes)
      → AllWireWordles ws
      → ((i : Bytes) → beq (wordle_path i) j ≡ false)
      → get (set_wordles env ws s).1 j ≡ get s j
  unfolding set_wordles
  set_wordles_frame [] s j w far = refl
  set_wordles_frame (g ∷ gs) s j (w, ws) far =
      let (bz, e, d) = set_wordle_lem env g s w in
      ap (λ t. get t.1 j) (wordles_step g gs s _ e)
      ∙ set_wordles_frame gs (set s (wordle_path g.index) bz) j ws far
      ∙ get-set s _ _ j bz
      ∙ ap (λ b. if b then some bz else get s j) (far g.index)

  -- The loop over the wordles succeeds, keeps the wordle entries in order, and each index then holds its
  -- last wordle of the list, or what it held before.
  pub set_wordles_lem :
      (ws : List Wordle) (s : Store)
      → AllWireWordles ws
      → WordleListing.IsKept env s
      → ((set_wordles env ws s).0 ≡ ok tt)
        × WordleListing.IsKept env (set_wordles env ws s).1
        × ((i : Bytes)
            → wordle_at env (set_wordles env ws s).1 i ≡ last_wordle i ws (wordle_at env s i))
  unfolding set_wordles last_wordle
  set_wordles_lem [] s w kept = (refl, kept, λ i. refl)
  set_wordles_lem (w ∷ ws) s (h, hs) kept =
      let (bz, e, d) = set_wordle_lem env w s h in
      let step : set_wordles env (w ∷ ws) s ≡ set_wordles env ws (set_wordle env w s).1 =
        wordles_step w ws s _ (e ∙ ap (λ t. (ok tt, t.1)) (sym e)) in
      let (r, k, f) =
        set_wordles_lem ws (set_wordle env w s).1 hs (set_wordle-IsKept env w s h kept) in
      (
        ap (λ t. t.0) step ∙ r,
        rw step k,
        λ i.
            ap (λ t. wordle_at env t.1 i) step
            ∙ f i
            ∙ ap (last_wordle i ws) (get_wordle-set_wordle env w s i h),
      )

  -- A write under another key of what a guess, a wordle or the parameters stand under.
  pub guess_far : (k i : Bytes) → beq (wordle_path i) (guess_key_prefix ++ k) ≡ false
  unfolding beq
  guess_far k i = refl

  pub wordle_far : (k i : Bytes) → beq (guess_path i) (wordle_key_prefix ++ k) ≡ false
  unfolding beq
  wordle_far k i = refl

  pub params_far : (k : Bytes) → beq params_key (guess_key_prefix ++ k) ≡ false
  unfolding beq
  params_far k = refl

  pub params_far_wordle : (k : Bytes) → beq params_key (wordle_key_prefix ++ k) ≡ false
  unfolding beq
  params_far_wordle k = refl

  pub set_elsewhere :
      (s : Store) (b : ℕ) (k bz j : Bytes)
      → beq (b ∷ k) j ≡ false
      → get (set s (b ∷ k) bz) j ≡ get s j
  set_elsewhere s b k bz j far = get-set s b k j bz ∙ ap (λ t. if t then some bz else get s j) far

  -- The guesses and wordles that a store of the same bytes holds.
  pub same_guesses :
      (s s' : Store)
      → ((k : Bytes) → get s' (guess_key_prefix ++ k) ≡ get s (guess_key_prefix ++ k))
      → ((i : Bytes) → guess_at env s' i ≡ guess_at env s i)
        × (GuessListing.IsKept env s → GuessListing.IsKept env s')
  same_guesses s s' same = (
    λ i.
        guess_at_lem env s' i
        ∙ ap (decode_guess env) (same (guess_key i))
        ∙ sym (guess_at_lem env s i),
    λ kept k bz e. kept k bz (sym (same k) ∙ e),
  )

  pub same_wordles :
      (s s' : Store)
      → ((k : Bytes) → get s' (wordle_key_prefix ++ k) ≡ get s (wordle_key_prefix ++ k))
      → ((i : Bytes) → wordle_at env s' i ≡ wordle_at env s i)
        × (WordleListing.IsKept env s → WordleListing.IsKept env s')
  same_wordles s s' same = (
    λ i.
        wordle_at_lem env s' i
        ∙ ap (decode_wordle env) (same (wordle_key i))
        ∙ sym (wordle_at_lem env s i),
    λ kept k bz e. kept k bz (sym (same k) ∙ e),
  )
