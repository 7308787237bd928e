-- ===== src/Ante.antt =====
-- app/ante/fee_handler.go: the fee of a transaction by its size, and its deduction.
pub mod Fees
pub mod Handling
use wordle.Prelude.{
  ℕ, ◌+◌, ◌-◌, ◌*◌, ◌^◌, ◌/◌, ◌<◌, ◌≤◌, ◌≡◌, zero, suc, Bool, true, false, not, ◌&&◌, ◌||◌, ◌==◌,
  Option, none, some, List, Bytes, [], ◌∷◌, length, beq, leb, ltb, if◌then◌else◌,
}
use wordle.Prelude.Int.{ℤ, pos, negsuc, wrap, signed, leb_ℤ, ltb_ℤ, is_zero, ◌-ℤ◌}
use wordle.Exec
use wordle.Exec.{Reply, ok, err, panic, Exec, continue, ◌>>=◌, ◌>>◌}

-- What the handler takes from the SDK: math.Int, whose operations panic beyond 256 bits, and Coins.
pub record Sdk : Type 1 where
  pub mul : ℤ → ℤ → Reply ℤ
  pub add : ℤ → ℤ → Reply ℤ
  pub quo : ℤ → ℤ → Reply ℤ
  pub Coins : Type 0
  -- `sdk.NewCoins(sdk.NewCoin(sdk.DefaultBondDenom, fee))`, which panics on a negative amount
  pub new_coins : ℤ → Reply Coins
  pub amounts : Coins → List ℤ
  pub is_all_lt : Coins → Coins → Bool
  pub is_zero_coins : Coins → Bool
  pub is_valid_coins : Coins → Bool
  pub mul_small : (a b : ℕ) → a * b < 2 ^ 255 → mul (pos a) (pos b) ≡ ok (pos (a * b))
  pub add_small : (a b : ℕ) → a + b < 2 ^ 255 → add (pos a) (pos b) ≡ ok (pos (a + b))
  pub quo_small : (a b : ℕ) → a < 2 ^ 255 → quo (pos a) (pos (suc b)) ≡ ok (pos (a / suc b))
  pub quo_zero : (a : ℤ) → quo a (pos 0) ≡ panic
  pub new_coins_small :
      (n : ℕ)
      → n < 2 ^ 255
      → (c : Coins) × (new_coins (pos n) ≡ ok c)
        × (amounts c ≡ (if n == 0 then [] else pos n ∷ []))
        × (is_zero_coins c ≡ (n == 0))
        × (is_valid_coins c ≡ true)

pub record FeeCalculator : Type 0 where
  pub base_rate : ℤ
  pub threshold_size : ℤ
  pub large_transaction_multiplier : ℤ

-- `p` for one coin: its gas price, or MaxInt64 where that is no int64.
unfoldable pub gas_price : ℤ → ℤ
gas_price (pos n) = if ltb n (2 ^ 63) then pos n else pos (2 ^ 63 - 1)
gas_price (negsuc n) = if ltb n (2 ^ 63) then negsuc n else pos (2 ^ 63 - 1)

pub record AnteContext : Type 0 where
  pub block_height : ℤ
  pub priority : ℤ

abbrev pub with_priority : AnteContext → ℤ → AnteContext
with_priority ctx p = record ctx { priority = p }

-- DeductFees: an error of the bank is wrapped.
abbrev pub funds_error : Reply (Unit {0}) → Reply (Unit {0})
funds_error (ok t) = ok tt
funds_error (err e) = err Exec.insufficient_funds
funds_error panic = panic

module _ (sdk : Sdk) where
  open sdk use {mul, add, quo, Coins, new_coins, amounts, is_all_lt, is_zero_coins, is_valid_coins}

  -- The amount: the base rate up to the threshold, a multiple of it for what exceeds it.
  unfoldable pub required_amount : FeeCalculator → ℤ → Reply ℤ
  unfolding ◌-ℤ◌
  required_amount fc tx_size =
      if leb_ℤ tx_size fc.threshold_size
      then mul fc.base_rate tx_size
      else (Exec.reply_bind (mul fc.base_rate fc.threshold_size) λ base_fee.
          let extra_size = wrap 64 (tx_size -ℤ fc.threshold_size) in
          Exec.reply_bind (mul fc.base_rate fc.large_transaction_multiplier)
            λ rate. Exec.reply_bind (mul rate extra_size) λ extra_fee. add base_fee extra_fee)

  unfoldable pub calculate_required_fee : FeeCalculator → ℤ → Reply Coins
  unfolding required_amount
  calculate_required_fee fc tx_size = Exec.reply_bind (required_amount fc tx_size) new_coins

  unfoldable pub priority_loop : ℤ → List ℤ → ℤ → Reply ℤ
  unfolding gas_price
  priority_loop priority [] gas = ok priority
  priority_loop priority (amount ∷ rest) gas = Exec.reply_bind (quo amount gas) λ price.
      let p = gas_price price in
      priority_loop (if is_zero priority || ltb_ℤ p priority then p else priority) rest gas

  unfoldable pub get_tx_priority : Coins → ℤ → Reply ℤ
  unfolding priority_loop
  get_tx_priority fee gas = priority_loop (pos 0) (amounts fee) gas

  -- A fee transaction, its encoding by amino included; `fee_granter` is none for nil.
  pub record FeeTx : Type 0 where
    pub gas : ℕ
    pub fee : Coins
    pub fee_payer : Bytes
    pub fee_granter : Option Bytes
    pub encoded : Reply Bytes

  -- The keepers, and what they change.
  pub record Keepers : Type 1 where
    pub State : Type 0
    pub fee_collector : Option Bytes
    pub has_account : State → Bytes → Bool
    pub grants_enabled : Bool
    pub use_granted_fees : Bytes → Bytes → Coins → Exec State (Unit {0})
    pub send_to_collector : Bytes → Coins → Exec State (Unit {0})

  module _ (keepers : Keepers) where
    open keepers use {
      State, fee_collector, has_account, grants_enabled, use_granted_fees, send_to_collector,
    }

    unfoldable pub deduct : Bytes → Coins → Exec State (Unit {0})
    deduct account fees = do
      Exec.guard (is_valid_coins fees) Exec.insufficient_fee
      λ s. let (r, s') = send_to_collector account fees s in (funds_error r, s')

    -- Who pays: the granter, where there is one, after the grant has been used.
    unfoldable pub pay_from : FeeTx → Coins → Exec State Bytes
    pay_from tx fee = elim (tx.fee_granter) [
      | none ↦ Exec.pure tx.fee_payer
      | some granter ↦
          if not grants_enabled
          then Exec.fail Exec.grants_disabled
          else if not (beq granter tx.fee_payer)
          then (do use_granted_fees granter tx.fee_payer fee; Exec.pure granter)
          else Exec.pure granter
    ]

    unfoldable pub deduct_fees : FeeTx → Coins → Exec State (Unit {0})
    unfolding pay_from deduct
    deduct_fees tx fee = do
      Exec.lift (elim fee_collector [ none ↦ err Exec.no_fee_collector | some a ↦ ok tt ])
      payer ← pay_from tx fee
      known ← Exec.gets (λ s. has_account s payer)
      Exec.guard known Exec.unknown_address
      if is_zero_coins fee then Exec.pure tt else deduct payer fee

    -- AnteHandle; `tx` is none for a transaction that is no FeeTx, and `next` the rest of the chain.
    unfoldable pub ante_handle :
        FeeCalculator
        → AnteContext
        → Option FeeTx
        → Bool
        → (AnteContext → Exec State AnteContext)
        → Exec State AnteContext
    unfolding deduct_fees calculate_required_fee get_tx_priority
    ante_handle fc ctx none simulate next = Exec.fail Exec.tx_decode
    ante_handle fc ctx (some tx) simulate next = do
      Exec.guard (not (not simulate && (ltb_ℤ (pos 0) ctx.block_height && (tx.gas == 0))))
          Exec.invalid_gas
      bytes ← Exec.lift tx.encoded
      required ← Exec.lift (calculate_required_fee fc (pos (length bytes)))
      Exec.guard (not (is_all_lt tx.fee required)) Exec.insufficient_fee
      deduct_fees tx required
      priority ← Exec.lift (get_tx_priority required (signed 64 tx.gas))
      next (with_priority ctx priority)

-- HandlerOptions: which of the keepers are there.
pub record HandlerOptions : Type 0 where
  pub account_keeper : Bool
  pub bank_keeper : Bool
  pub sign_mode_handler : Bool
  pub feegrant_keeper : Bool

-- The decorators of the chain; all but the fee decorator are the SDK's.
pub data Decorator : Type 0 where
  set_up_context validate_basic validate_memo consume_gas_for_tx_size : Decorator
  size_based_deduct_fee : FeeCalculator → Decorator
  set_pub_key validate_sig_count sig_gas_consume sig_verification increment_sequence : Decorator

unfoldable pub new_ante_handler : HandlerOptions → Reply (List Decorator)
new_ante_handler options =
    if not options.account_keeper
    then err Exec.missing_keeper
    else if not options.bank_keeper
    then err Exec.missing_keeper
    else if not options.sign_mode_handler
    then err Exec.missing_keeper
    else if not options.feegrant_keeper
    then err Exec.missing_keeper
    else ok (
        set_up_context
        ∷ validate_basic
        ∷ validate_memo
        ∷ consume_gas_for_tx_size
        ∷ size_based_deduct_fee (record {
          base_rate = pos 1000;
          threshold_size = pos 1000;
          large_transaction_multiplier = pos 2;
        })
        ∷ set_pub_key
        ∷ validate_sig_count
        ∷ sig_gas_consume
        ∷ sig_verification
        ∷ increment_sequence
        ∷ [])
