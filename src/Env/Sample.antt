-- ===== src/Env/Sample.antt =====
-- An environment for tests and examples: an association list for the store, one purse for all accounts,
-- the generated code for the codec, and the first 32 bytes in place of the hash.
pub mod Assoc
pub mod Paging
use wordle.Prelude.{
  ℕ, zero, suc, length, ◌+◌, ◌-◌, ◌<◌, ◌≡◌, refl, ap, lt→ltb, arith, Bool, true, false, Bytes, [],
  ◌∷◌, beq, beq_refl,
}
use wordle.Prelude.{leb, ltb, if◌then◌else◌}
use wordle.Exec.{Reply, ok, err, external, Exec}
use wordle.Types.{no_block_state}
use wordle.Env.{Env, Bank, ascii_letter}
use wordle.Env.Generated.{guess_codec, wordle_codec, info_codec, state_codec, params_codec}
use Assoc.{assoc_store}

pub record Purses : Type 0 where
  pub accounts : ℕ
  pub modules : Bytes → ℕ

unfoldable pub pay_in : Bytes → Bytes → ℕ → Exec Purses (Unit {0})
pay_in sender name n c =
    if leb n c.accounts
    then (
      ok tt,
      record {
        accounts = c.accounts - n;
        modules = λ m. if beq m name then c.modules m + n else c.modules m;
      },
    )
    else (err (external 5), c)

unfoldable pub pay_out : Bytes → Bytes → ℕ → Exec Purses (Unit {0})
pay_out name receiver n c =
    if leb n (c.modules name)
    then (
      ok tt,
      record {
        accounts = c.accounts + n;
        modules = λ m. if beq m name then c.modules m - n else c.modules m;
      },
    )
    else (err (external 5), c)

pub pay_in-balance :
    (sender name : Bytes) (n : ℕ) (c c' : Purses)
    → pay_in sender name n c ≡ (ok tt, c')
    → c'.modules name ≡ c.modules name + n
unfolding pay_in
pay_in-balance sender name n c c' h = ground (arith, beq_refl name, ap (λ t. t.1.modules name) h)

pub pay_out-balance :
    (name receiver : Bytes) (n : ℕ) (c c' : Purses)
    → pay_out name receiver n c ≡ (ok tt, c')
    → c'.modules name + n ≡ c.modules name
unfolding pay_out
pay_out-balance name receiver n c c' h = ground (arith, beq_refl name, ap (λ t. t.1.modules name) h)

abbrev sample_bank : Bank
sample_bank = record {
  Coins = Purses;
  module_balance = λ c m. c.modules m;
  to_module = pay_in;
  from_module = pay_out;
  to_module-balance = pay_in-balance;
  from_module-balance = pay_out-balance;
}

-- No address is empty.
unfoldable pub address_of : Bytes → Reply Bytes
address_of [] = err (external 7)
address_of (b ∷ bs) = ok (b ∷ bs)

abbrev sample_letter : ℕ → Bool
sample_letter c = if ltb c 128 then ascii_letter c else false

pub sample_letter_lem : (c : ℕ) → c < 128 → sample_letter c ≡ ascii_letter c
sample_letter_lem c h = rw (lt→ltb c 128 h)

-- The first bytes of a text, with zeros behind them, in place of a hash.
unfoldable pub fill : ℕ → Bytes → Bytes
fill zero bz = []
fill (suc n) [] = 0 ∷ fill n []
fill (suc n) (b ∷ bz) = b ∷ fill n bz

pub length-fill : (n : ℕ) (bz : Bytes) → length (fill n bz) ≡ n
unfolding fill
length-fill zero bz = refl
length-fill (suc n) [] = rw (length-fill n [])
length-fill (suc n) (b ∷ bz) = rw (length-fill n bz)

abbrev pub sample : Env
sample = record {
  kv = assoc_store;
  bank = sample_bank;
  guess_codec = guess_codec;
  wordle_codec = wordle_codec;
  info_codec = info_codec;
  state_codec = state_codec;
  partial_state = λ bz. no_block_state;
  params_codec = params_codec;
  parse_address = address_of;
  sha256 = fill 32;
  sha256_size = length-fill 32;
  letter = sample_letter;
  letter_ascii = sample_letter_lem;
}
