-- ===== src/Env.antt =====
-- What the module takes from its dependencies: the KV store, the codec, the bank, address parsing and
-- the letter and hash functions. Each is an operation with the laws that its documentation states.
pub mod Kv
pub mod Pages
pub mod Generated
pub mod Sample
use wordle.Prelude.{ℕ, ◌+◌, ◌≤◌, ◌<◌, ◌≡◌, Bool, Option, Bytes, List, length, ltb, leb, ◌&&◌, ◌||◌}
use wordle.Exec.{Reply, ok, Error, Exec}
use wordle.Types.{Wordle, Guess, Params, params, BlockState, ConsensusInfo}
use wordle.Types.{IsWireGuess, IsWireWordle, IsWireInfo}
use wordle.Pb.StatePb.{IsWireState}
use wordle.Env.Kv.{KvStore}

-- codec.BinaryCodec at one message type: what Marshal wrote, Unmarshal reads back.
pub record Codec (A : Type 0) (IsWire : A → Type 0) : Type 0 where
  pub marshal : A → Reply Bytes
  pub unmarshal : Bytes → Reply A
  pub read_back : (a : A) → IsWire a → (bz : Bytes) × (marshal a ≡ ok bz) × (unmarshal bz ≡ ok a)

-- The bank keeper, at transfers of the "token" denomination. A transfer that returns no error has
-- moved the amount into or out of the module account.
pub record Bank : Type 1 where
  pub Coins : Type 0
  pub module_balance : Coins → Bytes → ℕ
  pub to_module : Bytes → Bytes → ℕ → Exec Coins (Unit {0})
  pub from_module : Bytes → Bytes → ℕ → Exec Coins (Unit {0})
  pub to_module-balance :
      (sender name : Bytes) (n : ℕ) (c c' : Coins)
      → to_module sender name n c ≡ (ok tt, c')
      → module_balance c' name ≡ module_balance c name + n
  pub from_module-balance :
      (name receiver : Bytes) (n : ℕ) (c c' : Coins)
      → from_module name receiver n c ≡ (ok tt, c')
      → module_balance c' name + n ≡ module_balance c name

-- The letters below 128.
abbrev pub ascii_letter : ℕ → Bool
ascii_letter c = (leb 65 c && leb c 90) || (leb 97 c && leb c 122)

pub record Env : Type 1 where
  pub kv : KvStore
  pub open kv use *
  pub bank : Bank
  pub open bank use *
  pub guess_codec : Codec Guess IsWireGuess
  pub wordle_codec : Codec Wordle IsWireWordle
  pub info_codec : Codec ConsensusInfo IsWireInfo
  pub state_codec : Codec BlockState IsWireState
  -- What Unmarshal leaves in its target beside an error.
  pub partial_state : Bytes → BlockState
  pub params_codec : Codec Params (λ p. Unit {0})
  -- sdk.AccAddressFromBech32
  pub parse_address : Bytes → Reply Bytes
  -- sha256.Sum256, a [32]byte
  pub sha256 : Bytes → Bytes
  pub sha256_size : (bz : Bytes) → length (sha256 bz) ≡ 32
  -- unicode.IsLetter
  pub letter : ℕ → Bool
  pub letter_ascii : (c : ℕ) → c < 128 → letter c ≡ ascii_letter c
