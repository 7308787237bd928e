-- ===== src/Relay/Monitor.antt =====
-- BlockTimeMonitor and the adaptive timeout: int64 durations and their float64 detour.
pub mod Laws
use wordle.Prelude.{
  ℕ, zero, suc, ◌+◌, ◌-◌, ◌*◌, ◌/◌, ◌%◌, ◌^◌, Bool, true, false, Option, none, some, List, Bytes,
  [], ◌∷◌, ◌++◌, length, ltb, leb, ◌==◌, ◌||◌, ◌&&◌, if◌then◌else◌,
}
use wordle.Prelude.Int.{ℤ, pos, negsuc, wrap, quot_ℤ, pos_part, neg_part, ltb_ℤ, ◌+ℤ◌, ◌-ℤ◌, ◌*ℤ◌}
use wordle.Prelude.Maps.{Map, lookup, put}
use wordle.Relay.{BlockTimeMonitor, Network}

abbrev pub or_zero : Option ℤ → ℤ
or_zero none = pos 0
or_zero (some d) = d

abbrev pub or_empty {ℓ} : {A : Type ℓ} → Option (List A) → List A
or_empty none = []
or_empty (some xs) = xs

-- time.Time.Sub: the difference, or the int64 nearest to it.
unfoldable pub saturate : ℤ → ℤ
saturate (pos n) = if ltb n (2 ^ 63) then pos n else pos (2 ^ 63 - 1)
saturate (negsuc n) = if ltb n (2 ^ 63) then negsuc n else negsuc (2 ^ 63 - 1)

unfoldable pub time_sub : ℤ → ℤ → ℤ
unfolding saturate ◌-ℤ◌
time_sub t u = saturate (t -ℤ u)

abbrev pub rest_of : List ℤ → List ℤ
rest_of [] = []
rest_of (t ∷ ts) = ts

-- The last 100 block times: the oldest goes where 100 are there.
unfoldable pub keep_last : List ℤ → List ℤ
keep_last ts = if leb 100 (length ts) then rest_of ts else ts

-- `totalDuration += times[i].Sub(times[i-1])`, from the second time on.
unfoldable pub total_duration : ℤ → ℤ → List ℤ → ℤ
unfolding ◌+ℤ◌
total_duration acc t [] = acc
total_duration acc t (u ∷ ts) = total_duration (wrap 64 (acc +ℤ time_sub u t)) u ts

-- The average, where there are two times at least.
unfoldable pub average : List ℤ → Option ℤ
unfolding total_duration
average [] = none
average (t ∷ []) = none
average (t ∷ u ∷ ts) = some (quot_ℤ (total_duration (pos 0) t (u ∷ ts)) (pos (length (u ∷ ts))))

abbrev pub put_average : Bytes → Option ℤ → Map ℤ → Map ℤ
put_average chain none m = m
put_average chain (some a) m = put chain a m

unfoldable pub add_block_time : BlockTimeMonitor → Bytes → ℤ → BlockTimeMonitor
unfolding keep_last average
add_block_time m chain t =
    let times = keep_last (or_empty (lookup chain m.block_times)) ++ t ∷ [] in
    record {
      block_times = put chain times m.block_times;
      avg_block_times = put_average chain (average times) m.avg_block_times;
    }

unfoldable pub get_average_block_time : BlockTimeMonitor → Bytes → ℤ
get_average_block_time m chain = or_zero (lookup chain m.avg_block_times)

-- float64 of a natural number: 53 significant bits, to the nearest, ties to even. `e` halvings are
-- tried, and `k` is the weight of the lowest bit kept.
unfoldable pub nearest_even : ℕ → ℕ → ℕ
nearest_even n k =
    let q = n / k in
    let r = n % k in if ltb (2 * r) k || ((2 * r == k) && (q % 2 == 0)) then q * k else (q + 1) * k

unfoldable pub float_of : ℕ → ℕ → ℕ → ℕ
unfolding nearest_even
float_of zero k n = nearest_even n k
float_of (suc e) k n =
    let wider = float_of e (2 * k) n in if ltb n (2 ^ 53 * k) then nearest_even n k else wider

module _ (network : Network) where
  open network use {too_big}

  -- `time.Duration(math.Abs(float64(d)))`; a difference of int64 has 64 bits.
  unfoldable pub abs_duration : ℤ → ℤ
  unfolding float_of
  abs_duration d =
      let f = float_of 11 1 (pos_part d + neg_part d) in if ltb f (2 ^ 63) then pos f else too_big

  unfoldable pub calculate_adaptive_timeout : ℤ → ℤ → ℤ → ℤ
  unfolding abs_duration ◌+ℤ◌ ◌-ℤ◌ ◌*ℤ◌
  calculate_adaptive_timeout min_timeout source dest =
      let base = (if ltb_ℤ source dest then dest else source) in
      let buffer = wrap 64 (abs_duration (wrap 64 (source -ℤ dest)) *ℤ pos 3) in
      wrap 64 (wrap 64 (base +ℤ buffer) +ℤ min_timeout)
