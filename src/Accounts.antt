-- ===== src/Accounts.antt =====
-- app/genesis_account.go: the accounts of a genesis state, with vesting and module fields.
use wordle.Prelude.{
  ◌≡◌, ◌⊎◌, ◌↔◌, arith, Bool, true, false, not, ◌&&◌, List, Bytes, [], ◌∷◌, if◌then◌else◌,
}
use wordle.Prelude.Int.{ℤ, leb_ℤ}
use wordle.Exec
use wordle.Exec.{Reply, ok, err, panic, reply_bind}

-- The SDK's coins, and the checks of its base and module accounts.
pub record AccountSdk : Type 1 where
  pub Coins : Type 0
  pub is_zero : Coins → Bool
  pub BaseAccount : Type 0
  pub validate_base : BaseAccount → Reply (Unit {0})
  pub validate_module : BaseAccount → Bytes → List Bytes → Reply (Unit {0})

module _ (sdk : AccountSdk) where
  open sdk use {Coins, is_zero, BaseAccount, validate_base, validate_module}

  pub record GenesisAccount : Type 0 where
    pub base_account : BaseAccount
    pub original_vesting : Coins
    pub delegated_free : Coins
    pub delegated_vesting : Coins
    pub start_time : ℤ
    pub end_time : ℤ
    pub module_name : Bytes
    pub module_permissions : List Bytes

  -- `if sga.ModuleName != "" { … }`
  unfoldable pub validate_module_part : GenesisAccount → Bytes → Reply (Unit {0})
  validate_module_part sga [] = ok tt
  validate_module_part sga (b ∷ bs) =
      validate_module sga.base_account (b ∷ bs) sga.module_permissions

  unfoldable pub validate_account : GenesisAccount → Reply (Unit {0})
  unfolding validate_module_part
  validate_account sga =
      if not (is_zero sga.original_vesting) && leb_ℤ sga.end_time sga.start_time
      then err Exec.vesting_times
      else reply_bind (validate_module_part sga sga.module_name) λ _. validate_base sga.base_account

  -- An account is accepted exactly when its vesting, if there is any, starts before it ends, and the
  -- checks of its module part and of its base account accept it.
  pub validate_account_iff :
      (sga : GenesisAccount)
      → (validate_account sga ≡ ok tt) ↔ (
          ((is_zero sga.original_vesting ≡ true) ⊎ (leb_ℤ sga.end_time sga.start_time ≡ false))
          × (validate_module_part sga sga.module_name ≡ ok tt)
          × (validate_base sga.base_account ≡ ok tt))
  unfolding validate_account
  validate_account_iff sga = ground arith
