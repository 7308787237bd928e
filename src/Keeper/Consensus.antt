-- ===== src/Keeper/Consensus.antt =====
-- x/wordle/keeper/consensus.go and the block hooks of x/wordle/module/module.go.
pub mod Rollback
pub mod Votes
use wordle.Prelude.{
  ℕ, ◌≡◌, refl, Bool, true, false, Option, none, some, Bytes, List, [], ◌∷◌, if◌then◌else◌,
}
use wordle.Prelude.Int.{ℤ, pos, wrap}
use wordle.Exec.{Reply, ok, err, panic, Exec, pure, crash, lift, gets, modify, must, ◌>>=◌, ◌>>◌}
use wordle.Types.{BlockState, StateChange, ConsensusInfo}
use wordle.Types.Consensus.{has_consensus}
use wordle.Types.Keys.{block_state_key, consensus_info_key}
use wordle.Env.{Env}
use wordle.Keeper.Tracking.{get_block_state, get_consensus_info, save_consensus_info}

module _ (env : Env) where
  open env use {Store, delete, try_set, try_delete}

  -- An error is logged and reads as no consensus.
  unfoldable pub verdict : Reply ConsensusInfo → Reply Bool
  verdict (ok info) = ok (has_consensus info)
  verdict (err e) = ok false
  verdict panic = panic

  unfoldable pub check_consensus : ℤ → Exec Store Bool
  unfolding verdict
  check_consensus height s = let (r, s') = get_consensus_info env height s in (verdict r, s')

  unfoldable pub or_crash : Option Store → Exec Store (Unit {0})
  or_crash none s = (panic, s)
  or_crash (some s') s = (ok tt, s')

  -- One change undone: a deleted value is set again, any other key is deleted.
  unfoldable pub undo : StateChange → Exec Store (Unit {0})
  unfolding or_crash
  undo change s =
      if change.is_deleted
      then or_crash (try_set s change.key change.value) s
      else or_crash (try_delete s change.key) s

  -- `for i := len(state.Changes) - 1; i >= 0; i--`
  unfoldable pub undo_all : List StateChange → Exec Store (Unit {0})
  undo_all [] = pure tt
  undo_all (change ∷ changes) = do undo_all changes; undo change

  unfoldable pub rollback_state : ℤ → Exec Store (Unit {0})
  rollback_state height = do (state, e) ← get_block_state env height; lift e; undo_all state.changes

  unfoldable pub commit_state : ℤ → Exec Store (Unit {0})
  commit_state height = do
    modify (λ s. delete s (block_state_key height))
    modify (λ s. delete s (consensus_info_key height))

  -- BeginBlock, with the number of vote infos; an error of SaveConsensusInfo panics.
  unfoldable pub begin_block : ℤ → ℕ → Exec Store (Unit {0})
  begin_block height vote_infos s =
      let info : ConsensusInfo = record {
        height = height;
        total_validators = wrap 32 (pos vote_infos);
        voted_yes = pos 0;
      } in
      let (r, s') = save_consensus_info env info s in (must r, s')

  unfoldable pub finalize_block : ℤ → Exec Store (Unit {0})
  finalize_block height = do
    agreed ← check_consensus height
    if agreed then commit_state height else rollback_state height
