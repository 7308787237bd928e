-- ===== src/Ante/Fees.antt =====
-- The required fee in closed form, and that it grows with the size.
use wordle.Prelude.{
  ℕ, ◌+◌, ◌-◌, ◌*◌, ◌^◌, ◌<◌, ◌≤◌, ◌≡◌, refl, ap, ◌∙◌, arith, leb, if◌then◌else◌, Bool-cases, inl,
  inr, [], ◌∷◌, ◌==◌,
}
use wordle.Prelude.Int.{pos, wrap, leb_ℤ, ◌-ℤ◌}
use wordle.Exec.{ok, reply_bind}
use wordle.Ante.{Sdk, FeeCalculator, required_amount, calculate_required_fee}

abbrev pub fee_calculator : ℕ → ℕ → ℕ → FeeCalculator
fee_calculator rate threshold multiplier = record {
  base_rate = pos rate;
  threshold_size = pos threshold;
  large_transaction_multiplier = pos multiplier;
}

-- Bytes up to the threshold at the base rate, the others at a multiple of it.
unfoldable pub fee_of : ℕ → ℕ → ℕ → ℕ → ℕ
fee_of rate threshold multiplier size =
    if leb size threshold
    then rate * size
    else rate * threshold + rate * multiplier * (size - threshold)

tests_agree : (n t : ℕ) → leb_ℤ (pos n) (pos t) ≡ leb n t
tests_agree n t = ground arith

extra : (n t : ℕ) → t < n → n < 2 ^ 63 → wrap 64 (pos n -ℤ pos t) ≡ pos (n - t)
unfolding ◌-ℤ◌
extra n t h b = ground arith

product_grows : (a b c : ℕ) → b ≤ c → a * b ≤ a * c
product_grows a b c h = let e : c ≡ b + (c - b) = omega arith in rw e (omega arith)

fee_of_grows : (r t m n k : ℕ) → n ≤ k → fee_of r t m n ≤ fee_of r t m k
unfolding fee_of
fee_of_grows r t m n k h = ground (
  arith,
  product_grows r n k h,
  product_grows r n t,
  product_grows (r * m) (n - t) (k - t) (omega arith),
)

fee_of_small :
    (r t m n : ℕ) → r * t + r * m * (n - t) + r * n + r * m < 2 ^ 255 → fee_of r t m n < 2 ^ 255
unfolding fee_of
fee_of_small r t m n h = ground arith

module _ (sdk : Sdk) where
  open sdk use {mul, add, Coins, amounts, new_coins, mul_small, add_small, new_coins_small}

  -- Where the fee fits 255 bits, the required amount is the closed form.
  pub required_amount_exact :
      (rate threshold multiplier size : ℕ)
      → size < 2 ^ 63
      → rate * threshold + rate * multiplier * (size - threshold) + rate * size + rate * multiplier
        < 2 ^ 255
      → required_amount sdk (fee_calculator rate threshold multiplier) (pos size)
        ≡ ok (pos (fee_of rate threshold multiplier size))
  unfolding required_amount fee_of
  required_amount_exact r t m n b f = elim (Bool-cases (leb n t)) [
    | inl e ↦ rw (tests_agree n t, e, mul_small r n (omega arith)) refl
    | inr e ↦
        rw
          (
            tests_agree n t,
            e,
            mul_small r t (omega arith),
            extra n t (ground arith) b,
            mul_small r m (omega arith),
            mul_small (r * m) (n - t) (omega arith),
            add_small (r * t) (r * m * (n - t)) (omega arith),
          )
          refl
  ]

  -- Where the fee fits 255 bits, the required fee is one coin of the closed form, or none for a zero fee.
  pub required_fee_exact :
      (rate threshold multiplier size : ℕ)
      → size < 2 ^ 63
      → rate * threshold + rate * multiplier * (size - threshold) + rate * size + rate * multiplier
        < 2 ^ 255
      → (c : Coins) × (calculate_required_fee sdk
            (fee_calculator rate threshold multiplier)
            (pos size)
          ≡ ok c)
        × (amounts c ≡ (
            if fee_of rate threshold multiplier size == 0
            then []
            else pos (fee_of rate threshold multiplier size) ∷ []))
  unfolding calculate_required_fee
  required_fee_exact r t m n b f =
      let (c, e, a, z, v) = new_coins_small (fee_of r t m n) (fee_of_small r t m n f) in
      (c, ap (λ x. reply_bind x new_coins) (required_amount_exact r t m n b f) ∙ e, a)

  -- Where the fees fit 255 bits, the required amounts of two transactions are the base rate for the
  -- bytes up to the threshold and a multiple of it for the others, and the longer one needs at least as
  -- much as the shorter one.
  pub required_amount_grows :
      (rate threshold multiplier size longer : ℕ)
      → size ≤ longer
      → longer < 2 ^ 63
      → rate * threshold + rate * multiplier * (size - threshold) + rate * size + rate * multiplier
        < 2 ^ 255
      → rate * threshold
          + rate * multiplier * (longer - threshold)
          + rate * longer
          + rate * multiplier
        < 2 ^ 255
      → (required_amount sdk (fee_calculator rate threshold multiplier) (pos size)
          ≡ ok (pos (fee_of rate threshold multiplier size)))
        × (required_amount sdk (fee_calculator rate threshold multiplier) (pos longer)
            ≡ ok (pos (fee_of rate threshold multiplier longer)))
        × (fee_of rate threshold multiplier size ≤ fee_of rate threshold multiplier longer)
  required_amount_grows r t m n k h b f g = (
    required_amount_exact r t m n (omega arith) f,
    required_amount_exact r t m k b g,
    fee_of_grows r t m n k h,
  )
