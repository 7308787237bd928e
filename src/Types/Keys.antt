-- ===== src/Types/Keys.antt =====
-- x/wordle/types/keys.go, key_guess.go and key_wordle.go: the keys of the module's store.
use wordle.Prelude.{
  ℕ, zero, suc, ◌/◌, ◌%◌, ◌^◌, ◌<◌, ◌≡◌, refl, sym, ◌∙◌, ap, beq, beq-append, beq_of_iff, [], ◌∷◌,
  ◌++◌,
}
use wordle.Prelude.{Bytes, codes, arith, append_cancel_left, length, length-append}
use wordle.Prelude.Int.{ℤ, pattern_of, IsInt, signed, pattern_of-lt, signed-pattern_of}

abbrev pub module_name : Bytes
module_name = codes "wordle"

abbrev pub params_key : Bytes
params_key = codes "p_wordle"

abbrev pub block_state_prefix : Bytes
block_state_prefix = codes "block_state"

abbrev pub consensus_info_prefix : Bytes
consensus_info_prefix = codes "consensus_info"

abbrev pub guess_key_prefix : Bytes
guess_key_prefix = codes "Guess/value/"

abbrev pub wordle_key_prefix : Bytes
wordle_key_prefix = codes "Wordle/value/"

-- `append(indexBytes, "/"...)`
abbrev pub guess_key : Bytes → Bytes
guess_key index = index ++ codes "/"

abbrev pub wordle_key : Bytes → Bytes
wordle_key index = index ++ codes "/"

-- The `n` low bytes of a number, the highest first (`sdk.Uint64ToBigEndian` for eight).
unfoldable pub big_endian : ℕ → ℕ → Bytes
big_endian zero v = []
big_endian (suc n) v = big_endian n (v / 256) ++ (v % 256) ∷ []

abbrev pub block_state_key : ℤ → Bytes
block_state_key height = block_state_prefix ++ big_endian 8 (pattern_of 64 height)

abbrev pub consensus_info_key : ℤ → Bytes
consensus_info_key height = consensus_info_prefix ++ big_endian 8 (pattern_of 64 height)

snoc_injective : (xs ys : Bytes) (a b : ℕ) → xs ++ a ∷ [] ≡ ys ++ b ∷ [] → (xs ≡ ys) × (a ≡ b)
snoc_injective [] [] a b h = (refl, cc)
snoc_injective [] (y ∷ ys) a b h = absurd (omega (arith, ap length h, length-append ys (b ∷ [])))
snoc_injective (x ∷ xs) [] a b h = absurd (omega (arith, ap length h, length-append xs (a ∷ [])))
snoc_injective (x ∷ xs) (y ∷ ys) a b h = let (p, q) = snoc_injective xs ys a b (cc) in ((cc), q)

-- A guess or wordle key gives its index back.
pub guess_key_injective : (i j : Bytes) → guess_key i ≡ guess_key j → i ≡ j
guess_key_injective i j h = (snoc_injective i j _ _ h).0

-- `n` big-endian bytes determine a number below 256 ^ n.
pub big_endian_injective :
    (n v w : ℕ) → v < 256 ^ n → w < 256 ^ n → big_endian n v ≡ big_endian n w → v ≡ w
unfolding big_endian
big_endian_injective zero v w hv hw h = omega arith
big_endian_injective (suc n) v w hv hw h =
    let (p, q) = snoc_injective (big_endian n (v / 256)) (big_endian n (w / 256)) _ _ h in
    let r : v / 256 ≡ w / 256 =
      big_endian_injective n (v / 256) (w / 256) (omega arith) (omega arith) p in
    omega arith

-- Two entries of one kind have the same key exactly when they have the same index.
pub beq-guess_key :
    (i j : Bytes)
    → beq (guess_key_prefix ++ guess_key i) (guess_key_prefix ++ guess_key j) ≡ beq i j
beq-guess_key i j =
    beq-append guess_key_prefix (guess_key i) (guess_key j)
    ∙ beq_of_iff _ _ i j (guess_key_injective i j) (ap guess_key)

pub beq-wordle_key :
    (i j : Bytes)
    → beq (wordle_key_prefix ++ wordle_key i) (wordle_key_prefix ++ wordle_key j) ≡ beq i j
beq-wordle_key i j =
    beq-append wordle_key_prefix (wordle_key i) (wordle_key j)
    ∙ beq_of_iff _ _ i j (guess_key_injective i j) (ap wordle_key)

-- Heights in the range of an int64 with the same block state key are equal.
pub block_state_key_injective :
    (h k : ℤ) → IsInt 64 h → IsInt 64 k → block_state_key h ≡ block_state_key k → h ≡ k
block_state_key_injective h k wh wk e =
    let p : pattern_of 64 h ≡ pattern_of 64 k =
      big_endian_injective 8 (pattern_of 64 h) (pattern_of 64 k) (pattern_of-lt h) (pattern_of-lt k)
        (append_cancel_left block_state_prefix _ _ e) in
    sym (signed-pattern_of h wh) ∙ ap (signed 64) p ∙ signed-pattern_of k wk
