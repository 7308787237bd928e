-- ===== src/Keeper/Tracking.antt =====
-- x/wordle/keeper/state_tracking.go: the block state and the consensus information of a height. The
-- height of the context is an argument.
pub mod Laws
use wordle.Prelude.{◌≡◌, refl, Bool, Option, none, some, Bytes, List, [], ◌∷◌, ◌++◌}
use wordle.Prelude.Int.{ℤ}
use wordle.Exec.{Reply, ok, err, panic, Exec, pure, lift, gets, modify, ◌>>=◌, ◌>>◌}
use wordle.Types.{BlockState, StateChange, ConsensusInfo, no_block_state, no_consensus_info}
use wordle.Types.Keys.{block_state_key, consensus_info_key}
use wordle.Env.{Env}

-- `append(state.Changes, &types.StateChange{…})`
abbrev pub with_change : BlockState → Option Bytes → Option Bytes → Bool → BlockState
with_change state key value is_deleted = record state {
  changes = state.changes ++ record { key = key; value = value; is_deleted = is_deleted } ∷ [];
}

abbrev pub ignored : Reply (Unit {0}) → Reply (Unit {0})
ignored (ok t) = ok tt
ignored (err e) = ok tt
ignored panic = panic

module _ (env : Env) where
  open env use {Store, get, set, state_codec, info_codec, partial_state}

  unfoldable pub save_block_state : BlockState → Exec Store (Unit {0})
  save_block_state state = do
    bz ← lift (state_codec.marshal state)
    modify (λ s. set s (block_state_key state.height) bz)

  -- The state and the error of GetBlockState, from the bytes under the key.
  unfoldable pub decode_state : Option Bytes → BlockState × Reply (Unit {0})
  decode_state none = (no_block_state, ok tt)
  decode_state (some bz) = elim (state_codec.unmarshal bz) [
    | ok state ↦ (state, ok tt)
    | err e ↦ (partial_state bz, err e)
    | panic ↦ (no_block_state, panic)
  ]

  unfoldable pub get_block_state : ℤ → Exec Store (BlockState × Reply (Unit {0}))
  get_block_state height = do
    bz ← gets (λ s. get s (block_state_key height))
    pure (decode_state bz)

  unfoldable pub save_consensus_info : ConsensusInfo → Exec Store (Unit {0})
  save_consensus_info info = do
    bz ← lift (info_codec.marshal info)
    modify (λ s. set s (consensus_info_key info.height) bz)

  unfoldable pub decode_info : Option Bytes → Reply ConsensusInfo
  decode_info none = ok no_consensus_info
  decode_info (some bz) = info_codec.unmarshal bz

  -- An error stands for the pair of a value that no caller reads and the error.
  unfoldable pub get_consensus_info : ℤ → Exec Store ConsensusInfo
  get_consensus_info height = do
    bz ← gets (λ s. get s (consensus_info_key height))
    lift (decode_info bz)

  -- A call whose error is dropped.
  unfoldable pub ignore : Exec Store (Unit {0}) → Exec Store (Unit {0})
  ignore m s = let (r, s') = m s in (ignored r, s')

  -- TrackStateChange reads the state of the context's height and saves it under the height that
  -- stands in the state.
  unfoldable pub track_state_change : ℤ → Option Bytes → Option Bytes → Bool → Exec Store (Unit {0})
  unfolding ignore
  track_state_change height key value is_deleted = do
    (state, _) ← get_block_state height
    ignore (save_block_state (with_change state key value is_deleted))
