-- ===== src/Pb/Varint/RoundTrip.antt =====
-- Writing and reading an integer, and the size of what is written.
use wordle.Prelude.{ℕ, zero, suc, ◌+◌, ◌*◌, ◌/◌, ◌%◌, ◌^◌, ◌≤◌, ◌<◌, ◌≡◌, refl, ap, ◌∙◌, arith}
use wordle.Prelude.{Bytes, ◌∷◌, ◌++◌, length, length-append}
use wordle.Pb.Varint.{ok, groups, encode_varint, read_varint, bit_length, sov}
use wordle.Prelude.{lt→ltb, not_lt→ltb}
use native.Mathlib.Decide.{dec_lt}
use native.Mathlib.Numerals.{towards_suc}

-- Seven more bits.
pow-seven : (s : ℕ) → 2 ^ (s + 7) ≡ 2 ^ s * 128
pow-seven s = simp towards_suc (omega arith)

regroup : (q r p : ℕ) → (128 * q + r) * p ≡ r * p + q * (p * 128)
regroup q r p = omega arith

-- A number at a bit position is its last group there and the others seven bits higher.
split_low : (w s : ℕ) → w * 2 ^ s ≡ w % 128 * 2 ^ s + w / 128 * 2 ^ (s + 7)
split_low w s =
    rw (pow-seven s) (ap (λ (n : ℕ). n * 2 ^ s) (whole w) ∙ regroup (w / 128) (w % 128) (2 ^ s))
  where
    whole : (n : ℕ) → n ≡ 128 * (n / 128) + n % 128
    whole n = omega arith

read_last :
    (w shift acc : ℕ) (rest : Bytes)
    → w < 128
    → shift < 64
    → w * 2 ^ shift < 2 ^ 64
    → read_varint (w ∷ rest) shift acc ≡ ok (acc + w * 2 ^ shift, rest)
unfolding read_varint
read_last w shift acc rest hw hs fits = ground arith

read_inner :
    (g shift acc : ℕ) (rest : Bytes)
    → g < 128
    → shift < 64
    → g * 2 ^ shift < 2 ^ 64
    → read_varint ((g + 128) ∷ rest) shift acc ≡ read_varint rest (shift + 7) (acc + g * 2 ^ shift)
unfolding read_varint
read_inner g shift acc rest hg hs fits = ground arith

read-groups :
    (k w shift acc : ℕ) (rest : Bytes)
    → w < 128 ^ suc k
    → shift + 7 * k < 64
    → w * 2 ^ shift < 2 ^ 64
    → read_varint (groups k w ++ rest) shift acc ≡ ok (acc + w * 2 ^ shift, rest)
unfolding groups
read-groups zero w shift acc rest hw hs fits =
    read_last w shift acc rest (omega arith) (omega arith) fits
read-groups (suc k) w shift acc rest hw hs fits = ground (
  arith,
  read_last w shift acc rest,
  split_low w shift,
  read_inner (w % 128) shift acc (groups k (w / 128) ++ rest),
  read-groups k (w / 128) (shift + 7) (acc + w % 128 * 2 ^ shift) rest (omega arith),
)

-- Reading gives back the uint64 that was written, and leaves what follows it.
pub read-encode :
    (v : ℕ) (rest : Bytes) → v < 2 ^ 64 → read_varint (encode_varint v rest) 0 0 ≡ ok (v, rest)
unfolding encode_varint
read-encode v rest h = ground (arith, read-groups 9 v 0 0 rest)

-- `sov` computes the number of groups.
bit_length-suc : (f v : ℕ) → 1 ≤ v → bit_length (suc f) v ≡ suc (bit_length f (v / 2))
unfolding bit_length
bit_length-suc f zero h = absurd (omega arith)
bit_length-suc f (suc v) h = refl

bit_length-seven :
    (f v : ℕ)
    → 128 ≤ v
    → bit_length (suc (suc (suc (suc (suc (suc (suc f))))))) v ≡ 7 + bit_length f (v / 128)
bit_length-seven f v h =
    let e : v / 2 / 2 / 2 / 2 / 2 / 2 / 2 ≡ v / 128 = omega arith in
    omega (
      arith,
      ap (bit_length f) e,
      bit_length-suc (suc (suc (suc (suc (suc (suc f)))))) v (omega arith),
      bit_length-suc (suc (suc (suc (suc (suc f))))) (v / 2) (omega arith),
      bit_length-suc (suc (suc (suc (suc f)))) (v / 2 / 2) (omega arith),
      bit_length-suc (suc (suc (suc f))) (v / 2 / 2 / 2) (omega arith),
      bit_length-suc (suc (suc f)) (v / 2 / 2 / 2 / 2) (omega arith),
      bit_length-suc (suc f) (v / 2 / 2 / 2 / 2 / 2) (omega arith),
      bit_length-suc f (v / 2 / 2 / 2 / 2 / 2 / 2) (omega arith),
    )

bit_length-le : (n f v : ℕ) → v < 2 ^ n → bit_length f v ≤ n
unfolding bit_length
bit_length-le n zero v h = omega arith
bit_length-le n (suc f) zero h = omega arith
bit_length-le zero (suc f) (suc v) h = absurd (omega arith)
bit_length-le (suc n) (suc f) (suc v) h = omega (arith, bit_length-le n f (suc v / 2) (omega arith))

-- Seven bits for each group after the first, and one more.
fuel_of : ℕ → ℕ
fuel_of zero = 1
fuel_of (suc k) = suc (suc (suc (suc (suc (suc (suc (fuel_of k)))))))

seven_more :
    (k v : ℕ) → 128 ≤ v → bit_length (fuel_of (suc k)) v ≡ 7 + bit_length (fuel_of k) (v / 128)
unfolding fuel_of
seven_more k v h = bit_length-seven (fuel_of k) v h

one_group : (k v : ℕ) → 1 ≤ v → v < 128 → (bit_length (fuel_of k) v + 6) / 7 ≡ 1
unfolding fuel_of
one_group zero v lo hi = omega (arith, bit_length-suc 0 v lo, bit_length-le 7 1 v hi)
one_group (suc k) v lo hi =
    let f = suc (suc (suc (suc (suc (suc (fuel_of k)))))) in
    omega (arith, bit_length-suc f v lo, bit_length-le 7 (suc f) v hi)

length-groups :
    (k v : ℕ) → 1 ≤ v → v < 2 * 128 ^ k → length (groups k v) ≡ (bit_length (fuel_of k) v + 6) / 7
unfolding groups
length-groups zero v lo hi = omega (arith, one_group 0 v lo (omega arith))
length-groups (suc k) v lo hi = elim (dec_lt v 128) [
  | yes small ↦ rw (lt→ltb v 128 small) (omega (arith, one_group (suc k) v lo small))
  | no large ↦ rw (not_lt→ltb v 128 large) (
      omega (
        arith,
        length-groups k (v / 128) (omega arith) (omega arith),
        seven_more k v (omega arith),
      ))
]

sov-groups : (v : ℕ) → v < 2 ^ 64 → length (groups 9 v) ≡ sov v
unfolding sov fuel_of
sov-groups zero h = unfold groups bit_length in refl
sov-groups (suc v) h =
    let e : (suc v / 2 * 2 + 1) / 2 ≡ suc v / 2 = omega arith in
    omega (
      arith,
      length-groups 9 (suc v) (omega arith) (omega arith),
      bit_length-suc 63 (suc v) (omega arith),
      bit_length-suc 63 (suc v / 2 * 2 + 1) (omega arith),
      ap (bit_length 63) e,
    )

-- The generated Size and Marshal agree on the length of an integer.
pub length-encode :
    (v : ℕ) (tail : Bytes) → v < 2 ^ 64 → length (encode_varint v tail) ≡ sov v + length tail
unfolding encode_varint
length-encode v tail h = omega (arith, length-append (groups 9 v) tail, sov-groups v h)

-- An integer takes ten bytes at most.
pub sov-le : (v : ℕ) → v < 2 ^ 64 → sov v ≤ 10
unfolding sov
sov-le v h = omega (arith, bit_length-le 64 64 (v / 2 * 2 + 1) (omega arith))
