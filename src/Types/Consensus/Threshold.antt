-- ===== src/Types/Consensus/Threshold.antt =====
-- When HasConsensus holds.
use wordle.Prelude.{
  refl, ℕ, zero, suc, ◌==◌, if◌then◌else◌, ◌*◌, ◌/◌, ◌≤◌, ◌<◌, ◌^◌, ◌≡◌, ◌↔◌, arith, false, leb,
}
use wordle.Prelude.Int.{ℤ, pos, negsuc, ◌*ℤ◌, wrap}
use native.Mathlib.Nat.{mul-div-le}
use wordle.Types.Consensus.{has_consensus}

-- Without a vote there is no consensus, whatever the number of validators.
pub has_consensus-no_votes :
    (total : ℤ) (height : ℤ)
    → has_consensus (record { total_validators = total; voted_yes = pos 0; height = height })
      ≡ false
unfolding has_consensus ◌*ℤ◌
has_consensus-no_votes (pos n) height = ground arith
has_consensus-no_votes (negsuc n) height = ground arith

div_reaches : (a n : ℕ) → 0 < n → (66 ≤ a / n) ↔ (66 * n ≤ a)
div_reaches a n h = ((λ p. grind arith), (λ p. grind arith))

wrap_small : (a : ℕ) → a < 2 ^ 31 → wrap 32 (pos a) ≡ pos a
wrap_small a h = ground arith

times_100 : (a : ℕ) → pos a *ℤ pos 100 ≡ pos (a * 100)
unfolding ◌*ℤ◌
times_100 a = ground arith

leb_div : (a n : ℕ) → 0 < n → leb 66 (a / n) ≡ leb (66 * n) a
leb_div a n h = ground (arith, div_reaches a n h)

quotient_small : (a n : ℕ) → 0 < n → a < 2 ^ 31 → a / n < 2 ^ 31
quotient_small a n h k = grind (arith, mul-div-le a n)

-- While the product by 100 fits an int32, HasConsensus is false without validators, and is the test
-- `100 * voted ≥ 66 * total` with some.
pub has_consensus_threshold :
    (total voted : ℕ) (height : ℤ)
    → voted * 100 < 2 ^ 31
    → has_consensus
        (record { total_validators = pos total; voted_yes = pos voted; height = height })
      ≡ (if total == 0 then false else leb (66 * total) (100 * voted))
unfolding has_consensus
has_consensus_threshold zero voted height small = refl
has_consensus_threshold (suc n) voted height small =
    let q : voted * 100 / suc n < 2 ^ 31 =
      quotient_small (voted * 100) (suc n) (omega arith) small in
    rw (times_100 voted, wrap_small (voted * 100) small, wrap_small (voted * 100 / suc n) q)
      (ground (arith, leb_div (voted * 100) (suc n) (omega arith)))
