-- ===== src/Relay/Monitor/Laws.antt =====
-- The average of the block times, the length of their list, and the adaptive timeout, within bounds.
use wordle.Prelude.{
  ℕ, ◌+◌, ◌-◌, ◌*◌, ◌^◌, ◌<◌, ◌≤◌, ◌≡◌, refl, ap, ◌∙◌, arith, some, List, Bytes, [], ◌∷◌, ◌++◌,
  length, length-append, ltb, if◌then◌else◌, All, beq, Bool-cases, inl, inr,
}
use wordle.Prelude.Int.{ℤ, pos, pos_part, neg_part, wrap, quot_ℤ, ltb_ℤ, ◌+ℤ◌, ◌-ℤ◌, ◌*ℤ◌}
use wordle.Prelude.Maps.{lookup, lookup-put}
use wordle.Relay.{BlockTimeMonitor, Network}
use wordle.Relay.Monitor.{
  or_empty, saturate, time_sub, keep_last, total_duration, average, add_block_time, float_of,
  nearest_even, abs_duration, calculate_adaptive_timeout,
}

-- A time from 1970 on whose nanoseconds are below 2 ^ 62, in the year 2116.
abbrev pub IsRecent : ℤ → Type 0
IsRecent t = (n : ℕ) × (t ≡ pos n) × (n < 2 ^ 62)

abbrev pub last_time : ℤ → List ℤ → ℤ
last_time t [] = t
last_time t (u ∷ ts) = last_time u ts

one_step :
    (a b f : ℕ)
    → a < 2 ^ 62
    → b < 2 ^ 62
    → f < 2 ^ 62
    → wrap 64 ((pos a -ℤ pos f) +ℤ time_sub (pos b) (pos a)) ≡ pos b -ℤ pos f
unfolding ◌+ℤ◌ ◌-ℤ◌ time_sub saturate
one_step a b f ha hb hf = ground arith

total_from :
    (f t : ℤ) (ts : List ℤ)
    → IsRecent f
    → IsRecent t
    → All IsRecent ts
    → total_duration (t -ℤ f) t ts ≡ last_time t ts -ℤ f
unfolding total_duration
total_from f t [] hf ht hs = refl
total_from f t (u ∷ ts) (nf, ef, bf) (nt, et, bt) ((nu, eu, bu), hs) =
    ap (λ d. total_duration d u ts) (rw (ef, et, eu) (one_step nt nu nf bt bu bf))
    ∙ total_from f u ts (nf, ef, bf) (nu, eu, bu) hs

start_zero : (n : ℕ) → pos 0 ≡ pos n -ℤ pos n
unfolding ◌-ℤ◌
start_zero n = ground arith

-- For times of fewer than 2 ^ 62 nanoseconds since 1970, the average is the time from the first to the
-- last of them, divided by the steps between them.
pub average_telescopes :
    (t u : ℤ) (ts : List ℤ)
    → IsRecent t
    → All IsRecent (u ∷ ts)
    → average (t ∷ u ∷ ts) ≡ some (quot_ℤ (last_time t (u ∷ ts) -ℤ t) (pos (length (u ∷ ts))))
unfolding average
average_telescopes t u ts (n, e, b) hs =
    let start : pos 0 ≡ t -ℤ t = rw e (start_zero n) in
    ap (λ d. some (quot_ℤ d (pos (length (u ∷ ts)))))
      (ap (λ d. total_duration d t (u ∷ ts)) start ∙ total_from t t (u ∷ ts) (n, e, b) (n, e, b) hs)

-- At most 100 times for each chain.
abbrev pub IsBounded : BlockTimeMonitor → Type 0
IsBounded m = (chain : Bytes) → length (or_empty (lookup chain m.block_times)) ≤ 100

length-keep_last : (ts : List ℤ) → length ts ≤ 100 → length (keep_last ts) ≤ 99
unfolding keep_last
length-keep_last [] h = ground arith
length-keep_last (t ∷ ts) h = ground arith

-- AddBlockTime keeps the last 100 block times of a chain at most.
pub add_block_time-IsBounded :
    (m : BlockTimeMonitor) (chain : Bytes) (t : ℤ)
    → IsBounded m
    → IsBounded (add_block_time m chain t)
unfolding add_block_time
add_block_time-IsBounded m chain t b other =
    rw
      (lookup-put chain other (keep_last (or_empty (lookup chain m.block_times)) ++ t ∷ [])
        m.block_times)
      (elim (Bool-cases (beq chain other)) [
        | inl e ↦ rw e (
            omega (
              arith,
              length-append (keep_last (or_empty (lookup chain m.block_times))) (t ∷ []),
              length-keep_last (or_empty (lookup chain m.block_times)) (b chain),
            ))
        | inr f ↦ rw f (b other)
      ])

-- The distance of two numbers.
abbrev pub distance : ℕ → ℕ → ℕ
distance a b = (a - b) + (b - a)

float_small : (n : ℕ) → n < 2 ^ 53 → float_of 11 1 n ≡ n
unfolding float_of nearest_even
float_small n h = ground arith

difference_parts :
    (s d : ℕ)
    → s < 2 ^ 53
    → d < 2 ^ 53
    → pos_part (wrap 64 (pos s -ℤ pos d)) + neg_part (wrap 64 (pos s -ℤ pos d)) ≡ distance s d
unfolding ◌-ℤ◌
difference_parts s d hs hd = ground arith

triple : (k : ℕ) → k < 2 ^ 53 → wrap 64 (pos k *ℤ pos 3) ≡ pos (3 * k)
unfolding ◌*ℤ◌
triple k h = ground arith

sum_small : (a b : ℕ) → a < 2 ^ 62 → b < 2 ^ 62 → wrap 64 (pos a +ℤ pos b) ≡ pos (a + b)
unfolding ◌+ℤ◌
sum_small a b ha hb = ground arith

-- The greater of two block times.
unfoldable pub slower : ℕ → ℕ → ℕ
slower a b = if ltb a b then b else a

slower-lt : (a b k : ℕ) → a < k → b < k → slower a b < k
unfolding slower
slower-lt a b k ha hb = ground arith

pos_slower : (a b : ℕ) → (if ltb_ℤ (pos a) (pos b) then pos b else pos a) ≡ pos (slower a b)
unfolding slower
pos_slower a b = ground arith

module _ (network : Network) where
  abs_small :
      (s d : ℕ)
      → s < 2 ^ 53
      → d < 2 ^ 53
      → abs_duration network (wrap 64 (pos s -ℤ pos d)) ≡ pos (distance s d)
  unfolding abs_duration ◌-ℤ◌
  abs_small s d hs hd =
      rw (difference_parts s d hs hd, float_small (distance s d) (omega arith)) (ground arith)

  -- With block times below 2 ^ 53 nanoseconds (104 days) and a least timeout below 2 ^ 60, the timeout
  -- is exact: the slower block time, three times the difference, and the least timeout.
  pub adaptive_timeout_exact :
      (min source dest : ℕ)
      → min < 2 ^ 60
      → source < 2 ^ 53
      → dest < 2 ^ 53
      → calculate_adaptive_timeout network (pos min) (pos source) (pos dest)
        ≡ pos (slower source dest + 3 * distance source dest + min)
  unfolding calculate_adaptive_timeout
  adaptive_timeout_exact min source dest hm hs hd =
      let k = distance source dest in
      let small : slower source dest < 2 ^ 53 = slower-lt source dest (2 ^ 53) hs hd in
      ap
        (λ a. wrap 64 (
          wrap 64 (
            (if ltb_ℤ (pos source) (pos dest) then pos dest else pos source)
            +ℤ wrap 64 (a *ℤ pos 3))
          +ℤ pos min))
        (abs_small source dest hs hd)
      ∙ ap
          (λ b. wrap 64 (
            wrap 64 ((if ltb_ℤ (pos source) (pos dest) then pos dest else pos source) +ℤ b)
            +ℤ pos min))
          (triple k (omega arith))
      ∙ ap (λ b. wrap 64 (wrap 64 (b +ℤ pos (3 * k)) +ℤ pos min)) (pos_slower source dest)
      ∙ ap (λ b. wrap 64 (b +ℤ pos min))
          (sum_small (slower source dest) (3 * k) (omega arith) (omega arith))
      ∙ sum_small (slower source dest + 3 * k) min (omega arith) (omega arith)
