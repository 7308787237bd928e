-- ===== src/Keeper/Tracking/Laws.antt =====
-- Reading block states and consensus information back, and where a tracked change goes.
use wordle.Prelude.{◌≡◌, ◌≢◌, refl, sym, ap, ◌∙◌, arith, Bool, false, Option, none, some, Bytes}
use wordle.Prelude.{beq, beq_iff, beq_refl, Bool-cases, inl, inr, if◌then◌else◌}
use wordle.Prelude.Int.{ℤ, pos, IsInt}
use wordle.Exec.{Reply, ok}
use wordle.Types.{BlockState, no_block_state}
use wordle.Types.Keys.{block_state_key, block_state_key_injective}
use wordle.Pb.StatePb.{IsWireState}
use wordle.Env.{Env}
use wordle.Keeper.Tracking.{save_block_state, decode_state, get_block_state}
use wordle.Keeper.Tracking.{ignore, ignored, track_state_change, with_change}

block_keys_differ :
    (h k : ℤ)
    → IsInt 64 h
    → IsInt 64 k
    → h ≢ k
    → beq (block_state_key h) (block_state_key k) ≡ false
block_keys_differ h k wh wk ne = elim (Bool-cases (beq (block_state_key h) (block_state_key k))) [
  | inl t ↦ absurd (ne (block_state_key_injective h k wh wk ((beq_iff _ _).0 t)))
  | inr f ↦ f
]

pub ok_injective : {A : Type 0} {a b : A} → ◌≡◌ {A = Reply A} (ok a) (ok b) → a ≡ b
ok_injective h = cc

module _ (env : Env) where
  open env use {Store, get, set, get-set, state_codec, info_codec}

  pub save_block_state_lem :
      (st : BlockState) (s : Store)
      → IsWireState st
      → (bz : Bytes) × (save_block_state env st s ≡ (ok tt, set s (block_state_key st.height) bz))
        × (decode_state env (some bz) ≡ (st, ok tt))
  unfolding save_block_state decode_state
  save_block_state_lem st s w =
      let (bz, m, u) = state_codec.read_back st w in (bz, rw m, rw (u, decode_state))

  -- The block state that GetBlockState returns for a height.
  abbrev pub block_state_at : Store → ℤ → Reply (BlockState × Reply (Unit {0}))
  block_state_at s height = (get_block_state env height s).0

  pub block_state_at_lem :
      (s : Store) (height : ℤ)
      → block_state_at s height ≡ ok (decode_state env (get s (block_state_key height)))
  unfolding get_block_state
  block_state_at_lem s height = refl

  get-set_block :
      (s : Store) (h k : ℤ) (bz : Bytes)
      → get (set s (block_state_key h) bz) (block_state_key k) ≡ (
          if beq (block_state_key h) (block_state_key k)
          then some bz
          else get s (block_state_key k))
  get-set_block s h k bz = get-set s _ _ (block_state_key k) bz

  pub unread : decode_state env none ≡ (no_block_state, ok tt)
  unfolding decode_state
  unread = refl

  track_unfolds :
      (s : Store) (h : ℤ) (key value : Option Bytes) (d : Bool)
      → track_state_change env h key value d s
        ≡ ignore env
            (save_block_state env
              (with_change (decode_state env (get s (block_state_key h))).0 key value d))
            s
  unfolding track_state_change get_block_state
  track_unfolds s h key value d = refl

  -- What TrackStateChange does once it has read `st` without an error.
  track_lem :
      (s : Store) (h : ℤ) (key value : Option Bytes) (d : Bool) (st : BlockState)
      → decode_state env (get s (block_state_key h)) ≡ (st, ok tt)
      → IsWireState (with_change st key value d)
      → (bz : Bytes) × (track_state_change env h key value d s
          ≡ (ok tt, set s (block_state_key st.height) bz))
        × (decode_state env (some bz) ≡ (with_change st key value d, ok tt))
  unfolding ignore
  track_lem s h key value d st e w =
      let (bz, m, u) = save_block_state_lem (with_change st key value d) s w in
      (
        bz,
        track_unfolds s h key value d
            ∙ ap (λ t. ignore env (save_block_state env (with_change t.0 key value d)) s) e
            ∙ ap (λ p. (ignored p.0, p.1)) m,
        u,
      )

  -- When a block state with its own height is stored under a height, TrackStateChange adds the change
  -- to it, behind the earlier ones.
  pub track_appends :
      (s : Store) (h : ℤ) (key value : Option Bytes) (d : Bool) (st : BlockState)
      → block_state_at s h ≡ ok (st, ok tt)
      → st.height ≡ h
      → IsWireState (with_change st key value d)
      → block_state_at (track_state_change env h key value d s).1 h
        ≡ ok (with_change st key value d, ok tt)
  unfolding get_block_state
  track_appends s h key value d st e same w =
      let (bz, t, u) = track_lem s h key value d st (ok_injective e) w in
      rw t (block_state_at_lem (set s (block_state_key st.height) bz) h ∙ found bz u)
    where
      found :
          (bz : Bytes)
          → decode_state env (some bz) ≡ (with_change st key value d, ok tt)
          → ◌≡◌ {A = Reply (BlockState × Reply (Unit {0}))}
              (ok
                (decode_state env (get (set s (block_state_key st.height) bz) (block_state_key h))))
              (ok (with_change st key value d, ok tt))
      found bz u =
          ap (λ o. ok (decode_state env o))
            (get-set_block s st.height h bz
              ∙ ap (λ b. if b then some bz else get s (block_state_key h))
                  ((beq_iff _ _).1 (ap block_state_key same)))
          ∙ ap ok u

  -- Where no block state is stored under a height other than 0, a tracked change of that height is
  -- stored under height 0, and the block state of the height stays empty.
  pub track_misses :
      (s : Store) (h : ℤ) (key value : Option Bytes) (d : Bool)
      → IsInt 64 h
      → h ≢ pos 0
      → get s (block_state_key h) ≡ none
      → IsWireState (with_change no_block_state key value d)
      → (block_state_at (track_state_change env h key value d s).1 h ≡ ok (no_block_state, ok tt))
        × (block_state_at (track_state_change env h key value d s).1 (pos 0)
            ≡ ok (with_change no_block_state key value d, ok tt))
  track_misses s h key value d wh ne absent w =
      let (bz, t, u) = track_lem s h key value d no_block_state (rw absent (unread)) w in
      rw t (
        block_state_at_lem (set s (block_state_key (pos 0)) bz) h
            ∙ rw
                (
                  get-set_block s (pos 0) h bz,
                  block_keys_differ (pos 0) h (omega arith) wh (λ e. ne (sym e)),
                  absent,
                )
                (ap ok unread),
        block_state_at_lem (set s (block_state_key (pos 0)) bz) (pos 0)
            ∙ rw (get-set_block s (pos 0) (pos 0) bz, beq_refl (block_state_key (pos 0))) (ap ok u),
      )
