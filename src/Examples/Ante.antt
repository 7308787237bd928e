-- ===== src/Examples/Ante.antt =====
-- Runs of the fee handler over a purse for all accounts.
use wordle.Prelude.{
  ℕ, zero, suc, ◌+◌, ◌-◌, ◌*◌, ◌/◌, ◌≡◌, ◌≤◌, refl, arith, Bool, true, false, ◌==◌, Option, none,
  some, List, Bytes, codes, [], ◌∷◌, leb, beq, if◌then◌else◌,
}
use wordle.Prelude.Int.{ℤ, pos, negsuc, quot_ℤ, ltb_ℤ, ◌+ℤ◌, ◌*ℤ◌}
use wordle.Exec.{Reply, ok, err, panic, external, Exec}
use wordle.Ante.{
  Sdk, FeeCalculator, FeeTx, Keepers, AnteContext, required_amount, calculate_required_fee,
  deduct_fees, ante_handle,
}
use wordle.Ante.Fees.{fee_calculator, fee_of, required_amount_grows}
use wordle.Ante.Handling.{simulation_without_gas_panics}

abbrev coins_of : ℤ → Reply (List ℤ)
coins_of (pos zero) = ok []
coins_of (pos (suc n)) = ok (pos (suc n) ∷ [])
coins_of (negsuc n) = panic

abbrev divide : ℤ → ℤ → Reply ℤ
divide a (pos zero) = panic
divide a (pos (suc b)) = ok (quot_ℤ a (pos (suc b)))
divide a (negsuc b) = ok (quot_ℤ a (negsuc b))

abbrev no_coins : List ℤ → Bool
no_coins [] = true
no_coins (c ∷ cs) = false

-- Whether the one amount is below the other.
abbrev is_below : List ℤ → List ℤ → Bool
is_below [] [] = false
is_below [] (d ∷ ds) = true
is_below (c ∷ cs) [] = false
is_below (c ∷ cs) (d ∷ ds) = ltb_ℤ c d

sdk_coins :
    (n : ℕ)
    → (c : List ℤ) × (coins_of (pos n) ≡ ok c)
      × (c ≡ (if n == 0 then [] else pos n ∷ []))
      × (no_coins c ≡ (n == 0))
      × (true ≡ true)
sdk_coins zero = ([], refl, refl, refl, refl)
sdk_coins (suc n) = (pos (suc n) ∷ [], refl, ground arith, ground arith, refl)

sdk_divide : (a b : ℕ) → divide (pos a) (pos (suc b)) ≡ ok (pos (a / suc b))
sdk_divide a b = ground arith

sdk_mul : (a b : ℕ) → ◌≡◌ {A = Reply ℤ} (ok (pos a *ℤ pos b)) (ok (pos (a * b)))
unfolding ◌*ℤ◌
sdk_mul a b = ground arith

sdk_add : (a b : ℕ) → ◌≡◌ {A = Reply ℤ} (ok (pos a +ℤ pos b)) (ok (pos (a + b)))
unfolding ◌+ℤ◌
sdk_add a b = ground arith

abbrev sdk : Sdk
sdk = record {
  mul = λ a b. ok (a *ℤ b);
  add = λ a b. ok (a +ℤ b);
  quo = divide;
  Coins = List ℤ;
  new_coins = coins_of;
  amounts = λ c. c;
  is_all_lt = is_below;
  is_zero_coins = no_coins;
  is_valid_coins = λ c. true;
  mul_small = λ a b h. sdk_mul a b;
  add_small = λ a b h. sdk_add a b;
  quo_small = λ a b h. sdk_divide a b;
  quo_zero = λ a. refl;
  new_coins_small = λ n h. sdk_coins n;
}

abbrev take_from : Bytes → List ℤ → Exec ℕ (Unit {0})
take_from account (pos n ∷ []) s = if leb n s then (ok tt, s - n) else (err (external 2), s)
take_from account [] s = (ok tt, s)
take_from account (negsuc n ∷ cs) s = (err (external 2), s)
take_from account (pos n ∷ c ∷ cs) s = (err (external 2), s)

abbrev keepers : Keepers sdk
keepers = record {
  State = ℕ;
  fee_collector = some (codes "fees");
  has_account = λ s a. true;
  grants_enabled = true;
  use_granted_fees = λ granter payer fee s. (ok tt, s);
  send_to_collector = take_from;
}

abbrev transaction : ℕ → Option Bytes → FeeTx sdk
transaction gas granter = record {
  gas = gas;
  fee = pos 10000 ∷ [];
  fee_payer = codes "alice";
  fee_granter = granter;
  encoded = ok (codes "12345");
}

abbrev rates : FeeCalculator
rates = fee_calculator 1000 1000 2

abbrev context : AnteContext
context = record { block_height = pos 3; priority = pos 0 }

abbrev rest : AnteContext → Exec ℕ AnteContext
rest ctx s = (ok ctx, s)

required_amount_grows_example :
    (required_amount sdk rates (pos 900) ≡ ok (pos (fee_of 1000 1000 2 900)))
    × (required_amount sdk rates (pos 1500) ≡ ok (pos (fee_of 1000 1000 2 1500)))
    × (fee_of 1000 1000 2 900 ≤ fee_of 1000 1000 2 1500)
required_amount_grows_example =
    required_amount_grows sdk 1000 1000 2 900 1500 (omega arith) (omega arith) (omega arith)
      (omega arith)

granter_differs : beq (codes "bob") (codes "alice") ≡ false
unfolding beq
granter_differs = refl

fee_required : calculate_required_fee sdk rates (pos 5) ≡ ok (pos 5000 ∷ [])
unfolding calculate_required_fee ◌*ℤ◌
fee_required = refl

paid :
    (gas : ℕ) → deduct_fees sdk keepers (transaction gas none) (pos 5000 ∷ []) 7000 ≡ (ok tt, 2000)
unfolding deduct_fees
paid gas = refl

simulation_without_gas_panics_example :
    ante_handle sdk keepers rates context (some (transaction 0 none)) true rest 7000 ≡ (panic, 2000)
simulation_without_gas_panics_example =
    simulation_without_gas_panics sdk keepers rates context (transaction 0 none) rest
      (codes "12345") (pos 5000 ∷ []) 5000 7000 2000 refl refl fee_required refl refl (paid 0)
