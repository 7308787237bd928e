-- ===== src/Types.antt =====
-- The stored types of x/wordle/types (*.pb.go) and the functions over them. A Go `string` and a
-- `[]byte` are byte lists; a `[]byte` that the code compares with nil is an `Option`, `none` for nil.
pub mod Keys
pub mod Consensus
pub mod Genesis
pub mod Messages
use wordle.Prelude.{ℕ, ◌<◌, ◌^◌, ◌≡◌, ◌≢◌, refl, Bool, false, Option, none, some, List, [], ◌∷◌}
use wordle.Prelude.{Bytes, length, All}
use wordle.Prelude.Int.{ℤ, pos, IsInt}

pub record Wordle : Type 0 where
  pub index : Bytes
  pub word : Bytes
  pub submitter : Bytes

pub record Guess : Type 0 where
  pub index : Bytes
  pub word : Bytes
  pub submitter : Bytes
  pub count : Bytes

-- The module has no parameters.
pub data Params : Type 0 where
  params : Params

pub record StateChange : Type 0 where
  pub key : Option Bytes
  pub value : Option Bytes
  pub is_deleted : Bool

-- `votes` is the map in the order in which it is walked.
pub record BlockState : Type 0 where
  pub height : ℤ
  pub validators : List Bytes
  pub votes : List (Bytes × Bool)
  pub changes : List StateChange

pub record ConsensusInfo : Type 0 where
  pub total_validators : ℤ
  pub voted_yes : ℤ
  pub height : ℤ

-- Go's zero values, `var state types.BlockState` and `var info types.ConsensusInfo`.
abbrev pub no_block_state : BlockState
no_block_state = record { height = pos 0; validators = []; votes = []; changes = [] }

abbrev pub no_consensus_info : ConsensusInfo
no_consensus_info = record { total_validators = pos 0; voted_yes = pos 0; height = pos 0 }

-- Texts shorter than 2 ^ 32 bytes, each below 256.
abbrev pub IsGoString : Bytes → Type 0
IsGoString s = (length s < 2 ^ 32) × All (λ b. b < 256) s

-- A nil slice reads as an empty one; only a nil or a non-empty one comes back from the store.
abbrev pub slice : Option Bytes → Bytes
slice none = []
slice (some s) = s

abbrev pub IsCanonical : Option Bytes → Type 0
IsCanonical none = Unit {0}
IsCanonical (some []) = ⊥
IsCanonical (some (b ∷ bs)) = Unit {0}

pub record IsWireGuess (g : Guess) : Type 0 where
  pub index : IsGoString g.index
  pub word : IsGoString g.word
  pub submitter : IsGoString g.submitter
  pub count : IsGoString g.count

pub record IsWireWordle (w : Wordle) : Type 0 where
  pub index : IsGoString w.index
  pub word : IsGoString w.word
  pub submitter : IsGoString w.submitter

pub record IsWireInfo (c : ConsensusInfo) : Type 0 where
  pub total_validators : IsInt 32 c.total_validators
  pub voted_yes : IsInt 32 c.voted_yes
  pub height : IsInt 64 c.height

pub record IsWireChange (c : StateChange) : Type 0 where
  pub key : (length (slice c.key) < 2 ^ 30) × IsCanonical c.key
  pub value : (length (slice c.value) < 2 ^ 30) × IsCanonical c.value
