-- ===== src/Pb/Field/Sizes.antt =====
-- Size: the sums that the generated Size methods add up, and the bytes that Marshal writes.
use wordle.Prelude.{ℕ, zero, suc, ◌+◌, ◌≤◌, ◌<◌, ◌^◌, ◌≡◌, arith}
use wordle.Prelude.{Bytes, [], ◌∷◌, ◌++◌, length, length-append, List, All}
use wordle.Pb.Varint.{sov}
use wordle.Pb.Varint.RoundTrip.{length-encode, sov-le}
use wordle.Pb.Field.{put_len, put_nonempty, put_nonzero, put_all}

-- `l = len(m.F); if l > 0 { n += 1 + l + sov(uint64(l)) }`
unfoldable pub size_len : Bytes → ℕ
size_len [] = 0
size_len (b ∷ bs) = 1 + length (b ∷ bs) + sov (length (b ∷ bs))

-- `if m.F != 0 { n += 1 + sov(uint64(m.F)) }`
unfoldable pub size_int : ℕ → ℕ
size_int zero = 0
size_int (suc v) = 1 + sov (suc v)

pub length-put_len :
    (tag : ℕ) (s tail : Bytes)
    → length s < 2 ^ 32
    → length (put_len tag s tail) ≡ 1 + length s + sov (length s) + length tail
unfolding put_len
length-put_len tag s tail h =
    omega (arith, length-encode (length s) (s ++ tail) (omega arith), length-append s tail)

pub length-put_nonempty :
    (tag : ℕ) (s tail : Bytes)
    → length s < 2 ^ 32
    → length (put_nonempty tag s tail) ≡ size_len s + length tail
unfolding put_nonempty size_len
length-put_nonempty tag [] tail h = omega arith
length-put_nonempty tag (b ∷ bs) tail h = omega (arith, length-put_len tag (b ∷ bs) tail h)

pub length-put_nonzero :
    (tag v : ℕ) (tail : Bytes)
    → v < 2 ^ 64
    → length (put_nonzero tag v tail) ≡ size_int v + length tail
unfolding put_nonzero size_int
length-put_nonzero tag zero tail h = omega arith
length-put_nonzero tag (suc v) tail h = omega (arith, length-encode (suc v) tail h)

-- A short field is far below the lengths that Go can count.
pub size_len-le : (s : Bytes) → length s < 2 ^ 32 → size_len s ≤ 2 ^ 32 + 11
unfolding size_len
size_len-le [] h = omega arith
size_len-le (b ∷ bs) h = omega (arith, sov-le (length (b ∷ bs)) (omega arith))

pub size_int-le : (v : ℕ) → v < 2 ^ 64 → size_int v ≤ 11
unfolding size_int
size_int-le zero h = omega arith
size_int-le (suc v) h = omega (arith, sov-le (suc v) h)

-- `for _, e := range m.F { l = e.Size(); n += 1 + l + sov(uint64(l)) }`
unfoldable pub size_all : {A : Type 0} → (A → ℕ) → List A → ℕ
size_all size [] = 0
size_all size (x ∷ xs) = 1 + size x + sov (size x) + size_all size xs

pub length-put_all :
    {A : Type 0} (tag : ℕ) (encode : A → Bytes) (size : A → ℕ) (xs : List A) (tail : Bytes)
    → All (λ x. (length (encode x) ≡ size x) × (size x < 2 ^ 32)) xs
    → length (put_all tag encode xs tail) ≡ size_all size xs + length tail
unfolding put_all size_all
length-put_all tag encode size [] tail h = omega arith
length-put_all tag encode size (x ∷ xs) tail ((same, small), h) =
    rw (length-put_len tag (encode x) (put_all tag encode xs tail) (rw same small), same)
      (omega (arith, length-put_all tag encode size xs tail h))

pub size_len-small : (s : Bytes) → length s < 2 ^ 30 → size_len s ≤ 2 ^ 30 + 11
unfolding size_len
size_len-small [] h = omega arith
size_len-small (b ∷ bs) h = omega (arith, sov-le (length (b ∷ bs)) (omega arith))
