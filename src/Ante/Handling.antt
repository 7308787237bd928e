-- ===== src/Ante/Handling.antt =====
-- AnteHandle: who pays, the priority, and the simulation without gas.
use wordle.Prelude.{ℕ, ◌≡◌, refl, ap, ◌∙◌, true, false, none, some, Bytes, [], ◌∷◌, length, beq}
use wordle.Prelude.Int.{pos, signed}
use wordle.Exec.{Reply, ok, panic, Exec}
use wordle.Ante.{
  Sdk, FeeCalculator, FeeTx, Keepers, AnteContext, calculate_required_fee, get_tx_priority,
  priority_loop, deduct_fees, deduct, pay_from, funds_error, ante_handle,
}

module _ (sdk : Sdk) (keepers : Keepers sdk) where
  open sdk use {Coins, amounts, is_all_lt, is_zero_coins, is_valid_coins, quo, quo_small, quo_zero}
  open keepers use {
    State, fee_collector, has_account, grants_enabled, use_granted_fees, send_to_collector,
  }

  -- Where there is a fee collector and no granter, a payer with an account pays a valid fee other than
  -- zero itself; an error of the bank is reported as insufficient funds.
  pub deduct_fees_from_payer :
      (tx : FeeTx sdk) (fee : Coins) (collector : Bytes) (s s' : State) (r : Reply (Unit {0}))
      → fee_collector ≡ some collector
      → tx.fee_granter ≡ none
      → has_account s tx.fee_payer ≡ true
      → is_zero_coins fee ≡ false
      → is_valid_coins fee ≡ true
      → send_to_collector tx.fee_payer fee s ≡ (r, s')
      → deduct_fees sdk keepers tx fee s ≡ (funds_error r, s')
  unfolding deduct_fees pay_from deduct
  deduct_fees_from_payer tx fee collector s s' r fc g known z v sent =
      rw (fc, g, known, z, v) (ap (λ t. (funds_error t.0, t.1)) sent)

  -- Where there is a fee collector, grants are enabled, and the granter is not the payer, the granter
  -- pays a valid fee other than zero once the grant has been used without an error, if the granter then
  -- has an account; an error of the bank is reported as insufficient funds.
  pub deduct_fees_from_granter :
      (tx : FeeTx sdk) (fee : Coins) (collector granter : Bytes) (s s₁ s' : State)
      (r : Reply (Unit {0}))
      → fee_collector ≡ some collector
      → tx.fee_granter ≡ some granter
      → grants_enabled ≡ true
      → beq granter tx.fee_payer ≡ false
      → use_granted_fees granter tx.fee_payer fee s ≡ (ok tt, s₁)
      → has_account s₁ granter ≡ true
      → is_zero_coins fee ≡ false
      → is_valid_coins fee ≡ true
      → send_to_collector granter fee s₁ ≡ (r, s')
      → deduct_fees sdk keepers tx fee s ≡ (funds_error r, s')
  unfolding deduct_fees pay_from deduct
  deduct_fees_from_granter tx fee collector granter s s₁ s' r fc g on other used known z v sent =
      rw (fc, g, on, other, used, known, z, v) (ap (λ t. (funds_error t.0, t.1)) sent)

  no_gas :
      (fee : Coins) (n : ℕ) → amounts fee ≡ pos n ∷ [] → get_tx_priority sdk fee (pos 0) ≡ panic
  unfolding get_tx_priority priority_loop
  no_gas fee n a = rw (a, quo_zero (pos n)) refl

  -- A simulation without gas panics, on the division by the gas, where the required fee is one coin, the
  -- offered fee is not below it, and the fee is deducted without an error.
  pub simulation_without_gas_panics :
      (fc : FeeCalculator) (ctx : AnteContext) (tx : FeeTx sdk)
      (next : AnteContext → Exec State (AnteContext)) (bytes : Bytes) (fee : Coins) (n : ℕ)
      (s s' : State)
      → tx.gas ≡ 0
      → tx.encoded ≡ ok bytes
      → calculate_required_fee sdk fc (pos (length bytes)) ≡ ok fee
      → amounts fee ≡ pos n ∷ []
      → is_all_lt tx.fee fee ≡ false
      → deduct_fees sdk keepers tx fee s ≡ (ok tt, s')
      → ante_handle sdk keepers fc ctx (some tx) true next s ≡ (panic, s')
  unfolding ante_handle
  simulation_without_gas_panics fc ctx tx next bytes fee n s s' gas enc calc a enough deducted =
      let unpriced : get_tx_priority sdk fee (signed 64 tx.gas) ≡ panic =
        ap (λ k. get_tx_priority sdk fee (signed 64 k)) gas ∙ no_gas fee n a in
      rw (enc, calc, enough, deducted, unpriced) refl
