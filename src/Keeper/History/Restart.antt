-- ===== src/Keeper/History/Restart.antt =====
-- A chain that starts from the genesis that another one has exported.
pub mod Validation
use wordle.Prelude.{
  ◌≡◌, inl, inr, refl, sym, ap, ◌∙◌, arith, Bool, true, false, Bool-cases, Option, none, some,
  Bytes, List, [], ◌∷◌, All, beq, beq_iff, if◌then◌else◌,
}
use wordle.Exec.{Reply, ok}
use wordle.Types.{Guess, Wordle, IsWireGuess, IsWireWordle}
use wordle.Types.Genesis.{GenesisState, default_genesis}
use wordle.Types.Keys.{guess_key_prefix, wordle_key_prefix}
use wordle.Env.{Env}
use wordle.Keeper.Entries.{IsDistinct, first_of, entries-All, entries-IsDistinct}
use wordle.Keeper.Guesses.{get_all_guess, decode_guess}
use wordle.Keeper.Guesses.Laws.{guess_at, guess_at_lem, guess_path}
use wordle.Keeper.Guesses.Listing
use wordle.Keeper.Guesses.Listing.{guess_index, get_all_guess-get_guess, decode_guesses_lem}
use wordle.Keeper.Wordles.{get_all_wordle, decode_wordle}
use wordle.Keeper.Wordles.Laws.{wordle_at, wordle_at_lem, wordle_path}
use wordle.Keeper.Wordles.Listing as WordleListing
use wordle.Keeper.Wordles.Listing.{wordle_index, get_all_wordle-get_wordle, decode_wordles_lem}
use wordle.Keeper.Genesis.{init_genesis, export_genesis, last_guess, AllWire}
use wordle.Keeper.Genesis.Loading.{last_wordle, AllWireWordles}
use wordle.Keeper.Genesis.RoundTrip.{init_genesis_lem, export_lem}
use Validation.{validate-IsDistinct}
use wordle.Types.Genesis.{validate}
use wordle.Keeper.Params.{get_params}
use wordle.Keeper.MsgServer.{World}
use wordle.Keeper.History.{History, IsGame}
use wordle.Keeper.History.Order.{history-IsGame, IsGame-guesses, IsGame-wordles}
use wordle.Keeper.History.Export.{read_params}

-- The last entry of a list with distinct indices is its first.
last_wordle-absent :
    (i : Bytes) (ws : List Wordle) (r : Reply (Option Wordle))
    → first_of wordle_index i ws ≡ none
    → last_wordle i ws r ≡ r
unfolding last_wordle first_of
last_wordle-absent i [] r h = refl
last_wordle-absent i (w ∷ ws) r h = elim (Bool-cases (beq w.index i)) [
  | inl t ↦ let bad : some w ≡ none = rw t at h in absurd (cc)
  | inr f ↦ rw f (last_wordle-absent i ws r (rw f at h))
]

-- The lists of the two loops, from a store without the index.
last_wordle-IsDistinct :
    (i : Bytes) (ws : List Wordle)
    → IsDistinct wordle_index ws
    → last_wordle i ws (ok none) ≡ ok (first_of wordle_index i ws)
unfolding last_wordle first_of
last_wordle-IsDistinct i [] d = refl
last_wordle-IsDistinct i (w ∷ ws) (n, d) = elim (Bool-cases (beq w.index i)) [
  | inl t ↦ rw t (
      last_wordle-absent i ws (ok (some w))
        (ap (λ j. first_of wordle_index j ws) (sym ((beq_iff w.index i).0 t)) ∙ n))
  | inr f ↦ rw f (last_wordle-IsDistinct i ws d)
]

All-AllWireWordles : (ws : List Wordle) → All IsWireWordle ws → AllWireWordles ws
All-AllWireWordles [] h = tt
All-AllWireWordles (w ∷ ws) (h, hs) = (h, All-AllWireWordles ws hs)

module _ (env : Env) where
  open env use {Store, kv, get, guess_codec, wordle_codec, entries_in}

  last_guess-absent :
      (i : Bytes) (gs : List Guess) (r : Reply (Option Guess))
      → first_of guess_index i gs ≡ none
      → last_guess env i gs r ≡ r
  unfolding last_guess first_of
  last_guess-absent i [] r h = refl
  last_guess-absent i (g ∷ gs) r h = elim (Bool-cases (beq g.index i)) [
    | inl t ↦ let bad : some g ≡ none = rw t at h in absurd (cc)
    | inr f ↦ rw f (last_guess-absent i gs r (rw f at h))
  ]

  last_guess-IsDistinct :
      (i : Bytes) (gs : List Guess)
      → IsDistinct guess_index gs
      → last_guess env i gs (ok none) ≡ ok (first_of guess_index i gs)
  unfolding last_guess first_of
  last_guess-IsDistinct i [] d = refl
  last_guess-IsDistinct i (g ∷ gs) (n, d) = elim (Bool-cases (beq g.index i)) [
    | inl t ↦ rw t (
        last_guess-absent i gs (ok (some g))
          (ap (λ j. first_of guess_index j gs) (sym ((beq_iff g.index i).0 t)) ∙ n))
    | inr f ↦ rw f (last_guess-IsDistinct i gs d)
  ]

  All-AllWire : (gs : List Guess) → All IsWireGuess gs → AllWire env gs
  All-AllWire [] h = tt
  All-AllWire (g ∷ gs) (h, hs) = (h, All-AllWire gs hs)

  -- The lists that a store of the game exports: distinct indices, and texts that Marshal can write.
  listed_guesses :
      (s : Store) (gs : List Guess)
      → IsGame env s
      → get_all_guess env s ≡ (ok gs, s)
      → IsDistinct guess_index gs × AllWire env gs
  unfolding get_all_guess
  listed_guesses s gs game e =
      let r = sym (decode_guesses_lem env (entries_in guess_key_prefix s)) ∙ ap (λ t. t.0) e in
      (
        entries-IsDistinct guess_index guess_codec kv 71 Listing.prefix_rest s gs
            (IsGame-guesses env s game) r,
        All-AllWire gs (
            entries-All guess_index guess_codec kv 71 Listing.prefix_rest IsWireGuess s gs
              (λ k bz h. let (g, u, _, _, wire) = game.guesses k bz h in (g, u, wire)) r),
      )

  listed_wordles :
      (s : Store) (ws : List Wordle)
      → IsGame env s
      → get_all_wordle env s ≡ (ok ws, s)
      → IsDistinct wordle_index ws × AllWireWordles ws
  unfolding get_all_wordle
  listed_wordles s ws game e =
      let r = sym (decode_wordles_lem env (entries_in wordle_key_prefix s)) ∙ ap (λ t. t.0) e in
      (
        entries-IsDistinct wordle_index wordle_codec kv 87 WordleListing.prefix_rest s ws
            (IsGame-wordles env s game) r,
        All-AllWireWordles ws (
            entries-All wordle_index wordle_codec kv 87 WordleListing.prefix_rest IsWireWordle s ws
              (λ k bz h. let (w, u, _, wire) = game.wordles k bz h in (w, u, wire)) r),
      )

  module _ (fresh : Store) (empty : (k : Bytes) → get fresh k ≡ none) where
    no_guess : (i : Bytes) → guess_at env fresh i ≡ ok none
    unfolding decode_guess
    no_guess i = guess_at_lem env fresh i ∙ ap (decode_guess env) (empty (guess_path i))

    no_wordle : (i : Bytes) → wordle_at env fresh i ≡ ok none
    unfolding decode_wordle
    no_wordle i = wordle_at_lem env fresh i ∙ ap (decode_wordle env) (empty (wordle_path i))

    -- After any history from a store of the game, Validate accepts the exported state, InitGenesis of it on
    -- an empty store succeeds, and every guess, every wordle and the parameters are then those of the old store.
    pub restart :
        (w v : World env)
        → IsGame env w.0
        → History env w v
        → (exported : GenesisState) × (s : Store) × ((export_genesis env v.0).0 ≡ ok exported)
          × (validate exported ≡ ok tt)
          × (init_genesis env exported fresh ≡ (ok tt, s))
          × ((get_params env s).0 ≡ (get_params env v.0).0)
          × ((i : Bytes)
              → (guess_at env s i ≡ guess_at env v.0 i) × (wordle_at env s i ≡ wordle_at env v.0 i))
    restart w v game h =
        let after = history-IsGame env w v game h in
        let (p, dp) = after.parameters in
        let params = read_params env v.0 p dp in
        let (gs, dg, fg) = get_all_guess-get_guess env v.0 (IsGame-guesses env v.0 after) in
        let (ws, dw, fw) = get_all_wordle-get_wordle env v.0 (IsGame-wordles env v.0 after) in
        let (g_distinct, g_wire) = listed_guesses v.0 gs after dg in
        let (w_distinct, w_wire) = listed_wordles v.0 ws after dw in
        let exported : GenesisState = record default_genesis {
          state_params = p;
          wordle_list = ws;
          guess_list = gs;
        } in
        let (s, init, _, _, q, at) =
          init_genesis_lem env exported fresh w_wire g_wire (λ k bz e. absurd (cc (empty _, e)))
            (λ k bz e. absurd (cc (empty _, e))) in
        (
          exported,
          s,
          export_lem env v.0 p ws gs params dw dg,
          validate-IsDistinct exported w_distinct g_distinct,
          init,
          ap (λ t. t.0) q ∙ sym (ap (λ t. t.0) params),
          λ i. (
            (at i).0
                ∙ ap (last_guess env i gs) (no_guess i)
                ∙ last_guess-IsDistinct i gs g_distinct
                ∙ sym (fg i),
            (at i).1
                ∙ ap (last_wordle i ws) (no_wordle i)
                ∙ last_wordle-IsDistinct i ws w_distinct
                ∙ sym (fw i),
          ),
        )
