-- ===== src/Pb/Varint.antt =====
-- Variable-length integers: encodeVarintGuess, sovGuess and the reading loop of Unmarshal.
pub mod RoundTrip
use wordle.Prelude.{ℕ, zero, suc, ◌+◌, ◌*◌, ◌/◌, ◌%◌, ◌^◌, [], ◌∷◌, ◌++◌}
use wordle.Prelude.{Bytes, ltb, leb, if◌then◌else◌}

-- The error values of the generated code.
pub data PbError : Type 0 where
  int_overflow unexpected_eof invalid_length : PbError
  wrong_wire_type end_group illegal_tag unexpected_end_of_group illegal_wire_type : PbError

-- Go's (value, error) pair. `stuck` is no Go value: a loop of the model ran out of fuel.
pub data Decoded {ℓ} (A : Type ℓ) : Type ℓ where
  ok : A → Decoded A
  err : PbError → Decoded A
  stuck : Decoded A

infixl 5 ◌>>=◌
abbrev pub ◌>>=◌ {ℓ κ} : {A : Type ℓ} {B : Type κ} → Decoded A → (A → Decoded B) → Decoded B
ok a >>= f = f a
err e >>= f = err e
stuck >>= f = stuck

-- math/bits.Len64, for a number below 2 ^ fuel.
unfoldable pub bit_length : ℕ → ℕ → ℕ
bit_length zero v = 0
bit_length (suc fuel) zero = 0
bit_length (suc fuel) (suc v) = suc (bit_length fuel (suc v / 2))

-- `(math_bits.Len64(x|1) + 6) / 7`, where `x|1` is `x / 2 * 2 + 1`.
unfoldable pub sov : ℕ → ℕ
sov x = (bit_length 64 (x / 2 * 2 + 1) + 6) / 7

-- The bytes that encodeVarint writes: `uint8(v&0x7f | 0x80)` is `v % 128 + 128`. A uint64 has ten
-- groups of seven bits at most.
unfoldable pub groups : ℕ → ℕ → Bytes
groups zero v = v ∷ []
groups (suc k) v =
    let rest = groups k (v / 128) in if ltb v 128 then v ∷ [] else (v % 128 + 128) ∷ rest

-- The slice from the offset that encodeVarint returns on; `tail` is the slice from its offset on.
unfoldable pub encode_varint : ℕ → Bytes → Bytes
encode_varint v tail = groups 9 v ++ tail

-- The loop `for shift := uint(0); ; shift += 7`, at what is left of the buffer. The groups do not
-- overlap, so that `|=` adds; the shift drops what passes 64 bits.
unfoldable pub read_varint : Bytes → ℕ → ℕ → Decoded (ℕ × Bytes)
read_varint [] shift acc = if leb 64 shift then err int_overflow else err unexpected_eof
read_varint (b ∷ rest) shift acc =
    let acc' = acc + b % 128 * 2 ^ shift % 2 ^ 64 in
    let more = read_varint rest (shift + 7) acc' in
    if leb 64 shift then err int_overflow else if ltb b 128 then ok (acc', rest) else more
