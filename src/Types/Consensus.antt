-- ===== src/Types/Consensus.antt =====
-- x/wordle/types/state.go: the consensus threshold.
pub mod Threshold
use wordle.Prelude.{ℕ, ◌≡◌, refl, Bool, true, false, if◌then◌else◌}
use wordle.Prelude.Int.{ℤ, pos, ◌*ℤ◌, quot_ℤ, wrap, leb_ℤ, is_zero}
use wordle.Types.{ConsensusInfo}

abbrev pub consensus_threshold : ℕ
consensus_threshold = 66

-- int32 arithmetic: the product wraps around, the division truncates.
unfoldable pub has_consensus : ConsensusInfo → Bool
unfolding ◌*ℤ◌
has_consensus c =
    if is_zero c.total_validators
    then false
    else leb_ℤ (pos consensus_threshold)
        (wrap 32 (quot_ℤ (wrap 32 (c.voted_yes *ℤ pos 100)) c.total_validators))
