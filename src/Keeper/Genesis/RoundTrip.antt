-- ===== src/Keeper/Genesis/RoundTrip.antt =====
-- InitGenesis and then ExportGenesis: the entries that come back.
use wordle.Prelude.{◌≡◌, refl, ap, sym, ◌∙◌, Bytes, List, ◌++◌}
use wordle.Exec.{ok}
use wordle.Types.{Guess, Wordle, Params}
use wordle.Types.Genesis.{GenesisState, default_genesis}
use wordle.Types.Keys.{guess_key_prefix, wordle_key_prefix, params_key}
use wordle.Env.{Env}
use wordle.Keeper.Entries.{first_of}
use wordle.Keeper.Guesses.{get_all_guess}
use wordle.Keeper.Guesses.Laws.{guess_at}
use wordle.Keeper.Guesses.Listing as GuessListing
use wordle.Keeper.Guesses.Listing.{guess_index, get_all_guess-get_guess}
use wordle.Keeper.Wordles.{get_all_wordle}
use wordle.Keeper.Wordles.Laws.{wordle_at}
use wordle.Keeper.Wordles.Listing as WordleListing
use wordle.Keeper.Wordles.Listing.{wordle_index, get_all_wordle-get_wordle, set_wordle-IsKept}
use wordle.Keeper.Params.{get_params, set_params, set_params_lem, get_params-set}
use wordle.Keeper.Genesis.{
  set_wordles, set_guesses, init_genesis, export_genesis, AllWire, last_guess, set_guesses_lem,
}
use wordle.Keeper.Genesis.Listing.{set_guesses-IsKept}
use wordle.Keeper.Genesis.Loading.{
  last_wordle, AllWireWordles, set_guesses_frame, set_wordles_frame, set_wordles_lem, guess_far,
  wordle_far, params_far, params_far_wordle, set_elsewhere, same_guesses, same_wordles,
}

module _ (env : Env) where
  open env use {Store, get, set, get-set}

  init_lem :
      (gs : GenesisState) (s s₁ s₂ s₃ : Store)
      → set_wordles env gs.wordle_list s ≡ (ok tt, s₁)
      → set_guesses env gs.guess_list s₁ ≡ (ok tt, s₂)
      → set_params env gs.state_params s₂ ≡ (ok tt, s₃)
      → init_genesis env gs s ≡ (ok tt, s₃)
  unfolding init_genesis
  init_lem gs s s₁ s₂ s₃ a b c = rw (a, b, c) refl

  pub export_lem :
      (s : Store) (p : Params) (ws : List Wordle) (gs : List Guess)
      → get_params env s ≡ (ok p, s)
      → get_all_wordle env s ≡ (ok ws, s)
      → get_all_guess env s ≡ (ok gs, s)
      → (export_genesis env s).0
        ≡ ok (record default_genesis { state_params = p; wordle_list = ws; guess_list = gs })
  unfolding export_genesis
  export_lem s p ws gs a b c = rw (a, b, c) refl

  params_pair :
      (s : Store) (p : Params) → (get_params env s).0 ≡ ok p → get_params env s ≡ (ok p, s)
  unfolding get_params
  params_pair s p e = ap (λ r. (r, s)) e

  -- InitGenesis with texts of fewer than 2 ^ 32 bytes, on a store whose guess and wordle entries can be
  -- read, succeeds and keeps the entries in order. Each index then holds its last guess and its last wordle
  -- of the genesis state, or what it held before, and the parameters are those of the state.
  pub init_genesis_lem :
      (gs : GenesisState) (s : Store)
      → AllWireWordles gs.wordle_list
      → AllWire env gs.guess_list
      → WordleListing.IsKept env s
      → GuessListing.IsKept env s
      → (s' : Store) × (init_genesis env gs s ≡ (ok tt, s'))
        × WordleListing.IsKept env s'
        × GuessListing.IsKept env s'
        × (get_params env s' ≡ (ok gs.state_params, s'))
        × ((i : Bytes)
            → (guess_at env s' i ≡ last_guess env i gs.guess_list (guess_at env s i))
              × (wordle_at env s' i ≡ last_wordle i gs.wordle_list (wordle_at env s i)))
  init_genesis_lem gs s ww wg kw kg =
      let s₁ = (set_wordles env gs.wordle_list s).1 in
      let s₂ = (set_guesses env gs.guess_list s₁).1 in
      let (bz, c, p) = set_params_lem env gs.state_params s₂ in
      let s₃ = set s₂ params_key bz in
      let (a, kw₁, fw) = set_wordles_lem env gs.wordle_list s ww kw in
      let (b, fg) = set_guesses_lem env gs.guess_list s₁ wg in
      let (g₁, k₁) = same_guesses env s s₁ (λ k.
        set_wordles_frame env gs.wordle_list s (guess_key_prefix ++ k) ww
          (λ i. guess_far env k i)) in
      let (g₃, k₃) =
        same_guesses env s₂ s₃
          (λ k. set_elsewhere env s₂ _ _ bz (guess_key_prefix ++ k) (params_far env k)) in
      let (w₂, l₂) = same_wordles env s₁ s₂ (λ k.
        set_guesses_frame env gs.guess_list s₁ (wordle_key_prefix ++ k) wg
          (λ i. wordle_far env k i)) in
      let (w₃, l₃) =
        same_wordles env s₂ s₃
          (λ k. set_elsewhere env s₂ _ _ bz (wordle_key_prefix ++ k) (params_far_wordle env k)) in
      (
        s₃,
        init_lem gs s s₁ s₂ s₃ (ap (λ r. (r, s₁)) a) (ap (λ r. (r, s₂)) b) c,
        l₃ (l₂ kw₁),
        k₃ (set_guesses-IsKept env gs.guess_list s₁ wg (k₁ kg)),
        params_pair s₃ gs.state_params (get_params-set env s₂ bz ∙ p),
        λ i. (g₃ i ∙ fg i ∙ ap (last_guess env i gs.guess_list) (g₁ i), w₃ i ∙ w₂ i ∙ fw i),
      )

  -- After InitGenesis with texts of fewer than 2 ^ 32 bytes, on a store whose guess and wordle entries can
  -- be read, ExportGenesis succeeds and returns the parameters. For each index, the first guess and the
  -- first wordle of the exported lists are the last ones of the genesis state, or what the store held.
  pub export_genesis-init_genesis :
      (gs : GenesisState) (s : Store)
      → AllWireWordles gs.wordle_list
      → AllWire env gs.guess_list
      → WordleListing.IsKept env s
      → GuessListing.IsKept env s
      → ((init_genesis env gs s).0 ≡ ok tt)
        × ((exported : GenesisState) × ((export_genesis env (init_genesis env gs s).1).0
              ≡ ok exported)
            × (exported.state_params ≡ gs.state_params)
            × ((i : Bytes)
                → (ok (first_of guess_index i exported.guess_list)
                    ≡ last_guess env i gs.guess_list (guess_at env s i))
                  × (ok (first_of wordle_index i exported.wordle_list)
                      ≡ last_wordle i gs.wordle_list (wordle_at env s i))))
  export_genesis-init_genesis gs s ww wg kw kg =
      let (s', init, kw', kg', p, at) = init_genesis_lem gs s ww wg kw kg in
      let (gl, dg, hg) = get_all_guess-get_guess env s' kg' in
      let (wl, dw, hw) = get_all_wordle-get_wordle env s' kw' in
      (
        ap (λ t. t.0) init,
        (
          record default_genesis {
            state_params = gs.state_params;
            wordle_list = wl;
            guess_list = gl;
          },
          ap (λ t. (export_genesis env t.1).0) init ∙ export_lem s' gs.state_params wl gl p dw dg,
          refl,
          λ i. (sym (hg i) ∙ (at i).0, sym (hw i) ∙ (at i).1),
        ),
      )
