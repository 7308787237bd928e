-- ===== src/Keeper/MsgServer/Rewards.antt =====
-- The reward that a wordle puts in escrow and a right guess takes out: 100 into or out of the module
-- account, and no change of the store.
use wordle.Prelude.{◌≡◌, refl, ap, ◌+◌, Bytes, []}
use wordle.Exec.{Reply, ok, err, panic, Exec, continue}
use wordle.Types.Keys.{module_name}
use wordle.Env.{Env}
use wordle.Keeper.MsgServer.{on_coins, escrow, reward, or_no_address}

module _ (env : Env) where
  open env use {
    Store, Coins, module_balance, to_module, to_module-balance, from_module, from_module-balance,
    parse_address,
  }

  pay_store :
      {A : Type 0} (r : Reply Bytes) (f : Bytes → Exec Coins A) (s : Store) (c : Coins)
      → (continue r (λ a. on_coins env (f a)) (s, c)).1.0 ≡ s
  pay_store (ok a) f s c = refl
  pay_store (err e) f s c = refl
  pay_store panic f s c = refl

  pub escrow_store : (creator : Bytes) (s : Store) (c : Coins) → (escrow env creator (s, c)).1.0 ≡ s
  unfolding escrow
  escrow_store creator s c =
      pay_store (or_no_address (parse_address creator)) (λ a. to_module a module_name 100) s c

  escrow_from :
      (r : Reply Bytes) (s s' : Store) (c c' : Coins)
      → continue (or_no_address r) (λ a. on_coins env (to_module a module_name 100)) (s, c)
        ≡ (ok tt, (s', c'))
      → module_balance c' module_name ≡ module_balance c module_name + 100
  unfolding or_no_address
  escrow_from (ok a) s s' c c' h =
      to_module-balance a module_name 100 c c' (ap (λ t. (t.0, t.1.1)) h)
  escrow_from (err e) s s' c c' h =
      to_module-balance [] module_name 100 c c' (ap (λ t. (t.0, t.1.1)) h)
  escrow_from panic s s' c c' h = absurd (cc)

  pub escrow_balance :
      (creator : Bytes) (s s' : Store) (c c' : Coins)
      → escrow env creator (s, c) ≡ (ok tt, (s', c'))
      → module_balance c' module_name ≡ module_balance c module_name + 100
  unfolding escrow
  escrow_balance creator s s' c c' h = escrow_from (parse_address creator) s s' c c' h

  reward_from :
      (r : Reply Bytes) (s s' : Store) (c c' : Coins)
      → continue (or_no_address r) (λ a. on_coins env (from_module module_name a 100)) (s, c)
        ≡ (ok tt, (s', c'))
      → module_balance c' module_name + 100 ≡ module_balance c module_name
  unfolding or_no_address
  reward_from (ok a) s s' c c' h =
      from_module-balance module_name a 100 c c' (ap (λ t. (t.0, t.1.1)) h)
  reward_from (err e) s s' c c' h =
      from_module-balance module_name [] 100 c c' (ap (λ t. (t.0, t.1.1)) h)
  reward_from panic s s' c c' h = absurd (cc)

  pub reward_balance :
      (creator : Bytes) (s s' : Store) (c c' : Coins)
      → reward env creator (s, c) ≡ (ok tt, (s', c'))
      → module_balance c' module_name + 100 ≡ module_balance c module_name
  unfolding reward
  reward_balance creator s s' c c' h = reward_from (parse_address creator) s s' c c' h

  pub reward_store : (creator : Bytes) (s : Store) (c : Coins) → (reward env creator (s, c)).1.0 ≡ s
  unfolding reward
  reward_store creator s c =
      pay_store (or_no_address (parse_address creator)) (λ a. from_module module_name a 100) s c
