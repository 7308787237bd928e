-- ===== src/Keeper/Consensus/Votes.antt =====
-- Consensus over the block hooks: no code records a vote.
use wordle.Prelude.{ℕ, ◌≡◌, ap, ◌∙◌, arith, false, some, Bytes, beq_refl}
use wordle.Prelude.{if◌then◌else◌}
use wordle.Prelude.Int.{ℤ, pos, wrap, IsInt}
use wordle.Exec.{ok, continue}
use wordle.Types.{ConsensusInfo, IsWireInfo}
use wordle.Types.Consensus.Threshold.{has_consensus-no_votes}
use wordle.Types.Keys.{consensus_info_key}
use wordle.Env.{Env}
use wordle.Keeper.Tracking.{save_consensus_info, get_consensus_info, decode_info}
use wordle.Keeper.Consensus.{
  check_consensus, verdict, begin_block, finalize_block, rollback_state, commit_state,
}

-- The information that BeginBlock saves.
abbrev pub opening : ℤ → ℕ → ConsensusInfo
opening height n = record { height = height; total_validators = wrap 32 (pos n); voted_yes = pos 0 }

pub opening-IsWireInfo : (height : ℤ) (n : ℕ) → IsInt 64 height → IsWireInfo (opening height n)
opening-IsWireInfo height n h = ground arith

module _ (env : Env) where
  open env use {Store, get, set, get-set, info_codec}

  pub save_consensus_info_lem :
      (info : ConsensusInfo) (s : Store)
      → IsWireInfo info
      → (bz : Bytes) × (save_consensus_info env info s
          ≡ (ok tt, set s (consensus_info_key info.height) bz))
        × (decode_info env (some bz) ≡ ok info)
  unfolding save_consensus_info decode_info
  save_consensus_info_lem info s w = let (bz, m, u) = info_codec.read_back info w in (bz, rw m, u)

  get-set_info :
      (s : Store) (height : ℤ) (bz : Bytes)
      → get (set s (consensus_info_key height) bz) (consensus_info_key height) ≡ some bz
  get-set_info s height bz =
      get-set s _ _ (consensus_info_key height) bz
      ∙ ap (λ b. if b then some bz else get s (consensus_info_key height)) (beq_refl _)

  -- SaveConsensusInfo, then GetConsensusInfo of the same height: the information comes back.
  pub get-save_consensus_info :
      (info : ConsensusInfo) (s : Store)
      → IsWireInfo info
      → (get_consensus_info env info.height (save_consensus_info env info s).1).0 ≡ ok info
  unfolding get_consensus_info
  get-save_consensus_info info s w =
      let (bz, e, u) = save_consensus_info_lem info s w in
      rw e (ap (decode_info env) (get-set_info s info.height bz) ∙ u)

  -- BeginBlock succeeds, and CheckConsensus after it finds no consensus.
  pub check_consensus-begin_block :
      (height : ℤ) (n : ℕ) (s : Store)
      → IsInt 64 height
      → ((begin_block env height n s).0 ≡ ok tt)
        × (check_consensus env height (begin_block env height n s).1
            ≡ (ok false, (begin_block env height n s).1))
  unfolding begin_block check_consensus verdict get_consensus_info
  check_consensus-begin_block height n s h =
      let (bz, e, u) =
        save_consensus_info_lem (opening height n) s (opening-IsWireInfo height n h) in
      let found = ap (decode_info env) (get-set_info s height bz) ∙ u in
      (
        rw e,
        rw e (
            ap (λ r. (verdict env r, set s (consensus_info_key height) bz)) found
            ∙ ap (λ b. (ok b, set s (consensus_info_key height) bz))
                (has_consensus-no_votes (wrap 32 (pos n)) height)),
      )

  no_consensus :
      (height : ℤ) (n : ℕ) (s t : Store)
      → IsInt 64 height
      → get t (consensus_info_key height)
        ≡ get (begin_block env height n s).1 (consensus_info_key height)
      → check_consensus env height t ≡ (ok false, t)
  unfolding check_consensus get_consensus_info
  no_consensus height n s t h same =
      ap (λ o. (verdict env (decode_info env o), t)) same
      ∙ ap (λ p. (p.0, t)) (check_consensus-begin_block height n s h).1

  -- FinalizeBlock rolls the block back, whatever the block has written, as long as the consensus
  -- information of the height is what BeginBlock saved.
  pub finalize_block-begin_block :
      (height : ℤ) (n : ℕ) (s t : Store)
      → IsInt 64 height
      → get t (consensus_info_key height)
        ≡ get (begin_block env height n s).1 (consensus_info_key height)
      → finalize_block env height t ≡ rollback_state env height t
  unfolding finalize_block
  finalize_block-begin_block height n s t h same =
      ap
        (λ p.
          continue p.0
            (λ agreed. if agreed then commit_state env height else rollback_state env height) p.1)
        (no_consensus height n s t h same)
