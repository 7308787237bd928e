-- ===== src/Keeper/History/Writes.antt =====
-- What a single write or removal leaves of the store of the game.
use wordle.Prelude.{
  ℕ, suc, ◌<◌, ◌≡◌, inl, inr, refl, ap, ◌∙◌, false, none, some, Option-cases, Bytes, ◌∷◌, ◌++◌, beq,
  beq_refl, if◌then◌else◌,
}
use wordle.Prelude.Int.{ℤ, pos}
use wordle.Exec.{ok}
use wordle.Types.{IsWireGuess, IsWireWordle, Wordle, Guess, Params}
use wordle.Types.Keys.{
  guess_key, guess_key_prefix, wordle_key_prefix, block_state_prefix, consensus_info_key,
  params_key,
}
use wordle.Env.{Env}
use wordle.Keeper.Entries.{Keeps, set-Keeps, delete-Keeps, set_elsewhere-Keeps}
use wordle.Keeper.Guesses.Listing
use wordle.Keeper.Guesses.Laws.{guess_path}
use wordle.Keeper.Wordles.Listing as WordleListing
use wordle.Keeper.Wordles.Listing.{get_all_wordle-get_wordle, wordle_index}
use wordle.Keeper.Wordles.Laws.{wordle_path}
use wordle.Keeper.Params.{decode_params}
use wordle.Keeper.Decimal.{itoa}
use wordle.Keeper.History.{state_rest, IsCounted, IsWorded, IsGame}

module _ (env : Env) where
  open env use {Store, Coins, kv, get, set, delete, get-set, get-delete, guess_codec, wordle_codec}

  -- A key that belongs to none of the parts.
  pub record IsApart (key : Bytes) : Type 0 where
    pub guesses : (k : Bytes) → beq key (guess_key_prefix ++ k) ≡ false
    pub wordles : (k : Bytes) → beq key (wordle_key_prefix ++ k) ≡ false
    pub block_states : (k : Bytes) → beq key (block_state_prefix ++ k) ≡ false
    pub parameters : beq key params_key ≡ false

  kept_params :
      (c : ℕ) (j bz : Bytes) (s : Store)
      → beq (c ∷ j) params_key ≡ false
      → IsGame env s
      → (p : Params) × (decode_params env (get (set s (c ∷ j) bz) params_key) ≡ ok p)
  kept_params c j bz s far game =
      let (p, e) = game.parameters in
      (
        p,
        ap (decode_params env)
              (get-set s c j params_key bz ∙ ap (λ t. if t then some bz else get s params_key) far)
            ∙ e,
      )

  pub set-IsGame :
      (c : ℕ) (j bz : Bytes) (s : Store)
      → IsApart (c ∷ j)
      → IsGame env s
      → IsGame env (set s (c ∷ j) bz)
  set-IsGame c j bz s far game = record {
    guesses =
        set_elsewhere-Keeps kv 71 Listing.prefix_rest (IsCounted env) c j bz s far.guesses
          game.guesses;
    wordles =
        set_elsewhere-Keeps kv 87 WordleListing.prefix_rest (IsWorded env) c j bz s far.wordles
          game.wordles;
    block_states =
        set_elsewhere-Keeps kv 98 state_rest _ c j bz s far.block_states game.block_states;
    parameters = kept_params c j bz s far.parameters game;
  }

  pub delete-IsGame :
      (c : ℕ) (j : Bytes) (s : Store)
      → beq (c ∷ j) params_key ≡ false
      → IsGame env s
      → IsGame env (delete s (c ∷ j))
  delete-IsGame c j s far game = record {
    guesses = delete-Keeps kv 71 Listing.prefix_rest (IsCounted env) c j s game.guesses;
    wordles = delete-Keeps kv 87 WordleListing.prefix_rest (IsWorded env) c j s game.wordles;
    block_states = delete-Keeps kv 98 state_rest _ c j s game.block_states;
    parameters =
        let (p, e) = game.parameters in
        (
          p,
          ap (decode_params env)
                (get-delete s c j params_key ∙ ap (λ t. if t then none else get s params_key) far)
              ∙ e,
        );
  }

  pub info-IsApart : (height : ℤ) → IsApart (consensus_info_key height)
  unfolding beq
  info-IsApart height = record {
    guesses = λ k. refl;
    wordles = λ k. refl;
    block_states = λ k. refl;
    parameters = refl;
  }

  pub no_state :
      (s : Store) (k : Bytes)
      → Keeps kv 98 state_rest (λ k bz. ⊥) s
      → get s (block_state_prefix ++ k) ≡ none
  no_state s k keeps = elim (Option-cases (get s (block_state_prefix ++ k))) [
    | inl e ↦ e
    | inr (bz, e) ↦ absurd (keeps k bz e)
  ]

  -- The entry that a guess leaves.
  pub guess-IsGame :
      (g : Guess) (n : ℕ) (bz : Bytes) (s : Store)
      → n < 6
      → g.count ≡ itoa (pos (suc n))
      → guess_codec.unmarshal bz ≡ ok g
      → IsWireGuess g
      → IsGame env s
      → IsGame env (set s (guess_path g.index) bz)
  guess-IsGame g n bz s few count u wire game = record {
    guesses =
        set-Keeps kv 71 Listing.prefix_rest (IsCounted env) (guess_key g.index) bz s
          (g, u, refl, (n, few, count), wire) game.guesses;
    wordles =
        set_elsewhere-Keeps kv 87 WordleListing.prefix_rest (IsWorded env) _ _ bz s
          (λ k. unfold beq in refl) game.wordles;
    block_states =
        set_elsewhere-Keeps kv 98 state_rest _ _ _ bz s (λ k. unfold beq in refl) game.block_states;
    parameters = kept_params _ _ bz s (unfold beq in refl) game;
  }

  pub wordle-IsGame :
      (w : Wordle) (bz : Bytes) (s : Store)
      → wordle_codec.unmarshal bz ≡ ok w
      → IsWireWordle w
      → IsGame env s
      → IsGame env (set s (wordle_path w.index) bz)
  wordle-IsGame w bz s u wire game = record {
    guesses =
        set_elsewhere-Keeps kv 71 Listing.prefix_rest (IsCounted env) _ _ bz s
          (λ k. unfold beq in refl) game.guesses;
    wordles =
        set-Keeps kv 87 WordleListing.prefix_rest (IsWorded env) (guess_key w.index) bz s
          (w, u, refl, wire) game.wordles;
    block_states =
        set_elsewhere-Keeps kv 98 state_rest _ _ _ bz s (λ k. unfold beq in refl) game.block_states;
    parameters = kept_params _ _ bz s (unfold beq in refl) game;
  }

  pub params-IsGame :
      (p : Params) (bz : Bytes) (s : Store)
      → decode_params env (some bz) ≡ ok p
      → IsGame env s
      → IsGame env (set s params_key bz)
  params-IsGame p bz s d game = record {
    guesses =
        set_elsewhere-Keeps kv 71 Listing.prefix_rest (IsCounted env) _ _ bz s
          (λ k. unfold beq in refl) game.guesses;
    wordles =
        set_elsewhere-Keeps kv 87 WordleListing.prefix_rest (IsWorded env) _ _ bz s
          (λ k. unfold beq in refl) game.wordles;
    block_states =
        set_elsewhere-Keeps kv 98 state_rest _ _ _ bz s (λ k. unfold beq in refl) game.block_states;
    parameters =
        (p, ap (decode_params env) (get-set s _ _ params_key bz ∙ rw (beq_refl params_key)) ∙ d);
  }
