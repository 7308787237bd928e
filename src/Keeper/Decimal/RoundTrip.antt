-- ===== src/Keeper/Decimal/RoundTrip.antt =====
-- Atoi reads what Itoa wrote.
use wordle.Prelude.{
  ℕ, zero, suc, ◌+◌, ◌-◌, ◌*◌, ◌/◌, ◌%◌, ◌^◌, ◌≤◌, ◌<◌, ◌≡◌, refl, ap, ◌∙◌, arith, some,
}
use wordle.Prelude.{Bytes, [], ◌∷◌, ◌++◌, ltb, Bool-cases, inl, inr}
use wordle.Prelude.Int.{ℤ, pos, negsuc, IsInt}
use wordle.Keeper.Decimal.{digits, itoa, read_digits, read_number, atoi}

read_digits-append :
    (xs : Bytes) (acc n c : ℕ)
    → read_digits acc xs ≡ some n
    → c < 10
    → read_digits acc (xs ++ (48 + c) ∷ []) ≡ some (n * 10 + c)
unfolding read_digits
read_digits-append [] acc n c h k = ground arith
read_digits-append (x ∷ xs) acc n c h k =
    ground (arith, read_digits-append xs (acc * 10 + (x - 48)) n c)

read_digits-digits : (k n : ℕ) → n < 10 ^ suc k → read_digits 0 (digits k n) ≡ some n
unfolding digits
read_digits-digits zero n h = unfold read_digits in ground arith
read_digits-digits (suc k) n h = elim (Bool-cases (ltb n 10)) [
  | inl t ↦ rw t (unfold read_digits in ground arith)
  | inr f ↦ rw f (
      read_digits-append (digits k (n / 10)) 0 (n / 10) (n % 10)
        (read_digits-digits k (n / 10) (omega arith)) (omega arith)
      ∙ ap some (omega arith))
]

digits_cons :
    (k n : ℕ)
    → n < 10 ^ suc k
    → (c : ℕ) × (rest : Bytes) × (digits k n ≡ c ∷ rest) × (48 ≤ c) × (c ≤ 57)
unfolding digits
digits_cons zero n h = (48 + n, [], refl, omega arith, omega arith)
digits_cons (suc k) n h = elim (Bool-cases (ltb n 10)) [
  | inl t ↦ (48 + n, [], rw t, omega arith, ground arith)
  | inr f ↦
      let (c, rest, e, lo, hi) = digits_cons k (n / 10) (omega arith) in
      (c, rest ++ (48 + n % 10) ∷ [], rw (f, e), lo, hi)
]

read_number-digits : (n : ℕ) → n < 10 ^ 20 → read_number (digits 19 n) ≡ some n
unfolding read_number
read_number-digits n h =
    let (c, rest, e, lo, hi) = digits_cons 19 n h in rw e (rw e at (read_digits-digits 19 n h))

unsigned :
    (n c : ℕ) (rest : Bytes)
    → digits 19 n ≡ c ∷ rest
    → 48 ≤ c
    → n < 2 ^ 63
    → atoi (c ∷ rest) ≡ some (pos n)
unfolding atoi
unsigned n c rest e lo h = ground (arith, ap read_number e, read_number-digits n (omega arith))

-- Atoi gives back every int64 that Itoa has written.
pub atoi-itoa : (z : ℤ) → IsInt 64 z → atoi (itoa z) ≡ some z
unfolding itoa
atoi-itoa (pos n) h =
    let (c, rest, e, lo, hi) = digits_cons 19 n (omega arith) in
    rw e (unsigned n c rest e lo (omega arith))
atoi-itoa (negsuc n) h = unfold atoi in rw (read_number-digits (suc n) (omega arith)) (ground arith)
