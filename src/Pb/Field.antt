-- ===== src/Pb/Field.antt =====
-- Fields and messages: the loop of Unmarshal over a buffer, the fields that it reads, and skipGuess.
-- A buffer is what is left of it; `l` is its whole length, so that the index is `l - length rest`.
-- Go's lengths and indices are int64: what passes 2 ^ 63 is negative there.
pub mod Parses
pub mod Sizes
pub mod Ends
pub mod Nested
use wordle.Prelude.{
  ℕ, zero, suc, ◌+◌, ◌-◌, ◌/◌, ◌%◌, ◌^◌, Bool, true, ◌||◌, Option, none, some, List,
}
use wordle.Prelude.{Bytes, [], ◌∷◌, ◌++◌, length, take, drop, ltb, leb, ◌==◌, if◌then◌else◌}
use wordle.Pb.Varint.{Decoded, ok, err, stuck, ◌>>=◌, read_varint, encode_varint}
use wordle.Pb.Varint.{unexpected_eof, invalid_length, wrong_wire_type, end_group, illegal_tag}
use wordle.Pb.Varint.{unexpected_end_of_group, illegal_wire_type}

-- A length, the slice of that many bytes and what follows it.
unfoldable pub read_len : ℕ → Bytes → Decoded (Bytes × Bytes)
read_len l buffer = do
  (n, rest) ← read_varint buffer 0 0
  if leb (2 ^ 63) n
      then err invalid_length
      else if leb (2 ^ 63) (l - length rest + n)
      then err invalid_length
      else if ltb (length rest) n
      then err unexpected_eof
      else ok (take n rest, drop n rest)

-- The switch over the wire type in skipGuess: the new index and depth. `buffer` follows the tag.
unfoldable pub skip_value : ℕ → ℕ → Bytes → ℕ → Decoded (ℕ × ℕ)
skip_value l wire_type buffer depth =
    let i = l - length buffer in
    if wire_type == 0
    then (do (_, rest) ← read_varint buffer 0 0; ok (l - length rest, depth))
    else if wire_type == 1
    then ok (i + 8, depth)
    else if wire_type == 2
    then (do
      (n, rest) ← read_varint buffer 0 0
      if leb (2 ^ 63) n then err invalid_length else ok (l - length rest + n, depth))
    else if wire_type == 3
    then ok (i, depth + 1)
    else if wire_type == 4
    then (if depth == 0 then err unexpected_end_of_group else ok (i, depth - 1))
    else if wire_type == 5
    then ok (i + 4, depth)
    else err illegal_wire_type

-- The loop of skipGuess from index `i` on.
unfoldable pub skip_loop : ℕ → Bytes → ℕ → ℕ → Decoded ℕ
skip_loop zero buffer i depth = stuck
skip_loop (suc fuel) buffer i depth =
    let round : Decoded ℕ = (do
      (wire, rest) ← read_varint (drop i buffer) 0 0
      (j, depth') ← skip_value (length buffer) (wire % 8) rest depth
      let more = skip_loop fuel buffer j depth'
      if leb (2 ^ 63) j then err invalid_length else if depth' == 0 then ok j else more) in
    if leb (length buffer) i then err unexpected_eof else round

-- Each round takes a byte at least.
unfoldable pub skip : Bytes → Decoded ℕ
skip buffer = skip_loop (suc (length buffer)) buffer 0 0

-- The cases of the switch over the field number; `none` is its default.
abbrev pub Fields : Type 0 → Type 0
Fields M = ℕ → ℕ → ℕ → Bytes → M → Option (Decoded (M × Bytes))

-- The default of the switch, on the buffer from the field's tag on.
abbrev pub Unknown : Type 0 → Type 0
Unknown M = ℕ → (Bytes → M → Decoded M) → Bytes → M → Decoded M

module _ {M : Type 0} where
  -- `case N: if wireType != 2 { … }` and a length-delimited value
  unfoldable pub len_field : ℕ → ℕ → Bytes → (Bytes → M) → Decoded (M × Bytes)
  len_field l wire_type buffer put =
      if wire_type == 2
      then (do (s, rest) ← read_len l buffer; ok (put s, rest))
      else err wrong_wire_type

  -- `case N: if wireType != 0 { … }` and an integer
  unfoldable pub int_field : ℕ → Bytes → (ℕ → M) → Decoded (M × Bytes)
  int_field wire_type buffer put =
      if wire_type == 0
      then (do (v, rest) ← read_varint buffer 0 0; ok (put v, rest))
      else err wrong_wire_type

  -- The default of the switch: the field is skipped from its tag on.
  unfoldable pub skip_field : Unknown M
  skip_field l again buffer m = do
    n ← skip buffer
    if leb (2 ^ 63) (l - length buffer + n)
        then err invalid_length
        else if ltb (length buffer) n
        then err unexpected_eof
        else again (drop n buffer) m

  unfoldable pub select :
      Option (Decoded (M × Bytes)) → (Bytes → M → Decoded M) → Decoded M → Decoded M
  select (some r) again default = do (m, rest) ← r; again rest m
  select none again default = default

  -- One round, behind the tag: `fieldNum` is an int32, and group ends and numbers below 1 are
  -- refused. `again` is the next round.
  unfoldable pub dispatch :
      Fields M → Unknown M → ℕ → (Bytes → M → Decoded M) → Bytes → ℕ → Bytes → M → Decoded M
  dispatch fields unknown l again buffer wire rest m =
      let number = wire / 8 % 2 ^ 32 in
      if wire % 8 == 4
      then err end_group
      else if number == 0 || leb (2 ^ 31) number
      then err illegal_tag
      else select (fields l number (wire % 8) rest m) again (unknown l again buffer m)

  -- `for iNdEx < l { … }`, with one unit of fuel for a round.
  unfoldable pub read_fields : Fields M → Unknown M → ℕ → ℕ → Bytes → M → Decoded M
  read_fields fields unknown l zero [] m = ok m
  read_fields fields unknown l zero (b ∷ bs) m = stuck
  read_fields fields unknown l (suc fuel) [] m = ok m
  read_fields fields unknown l (suc fuel) (b ∷ bs) m = do
    (wire, rest) ← read_varint (b ∷ bs) 0 0
    dispatch fields unknown l (read_fields fields unknown l fuel) (b ∷ bs) wire rest m

  -- Unmarshal of a whole buffer into `m`.
  unfoldable pub unmarshal : Fields M → M → Bytes → Decoded M
  unmarshal fields m buffer = read_fields fields skip_field (length buffer) (length buffer) buffer m

-- One `if len(m.F) > 0 { … }` of MarshalToSizedBuffer, which writes towards the front of the
-- buffer: the value, its length and the tag stand before `tail`.
unfoldable pub put_len : ℕ → Bytes → Bytes → Bytes
put_len tag s tail = tag ∷ encode_varint (length s) (s ++ tail)

unfoldable pub put_nonempty : ℕ → Bytes → Bytes → Bytes
unfolding put_len
put_nonempty tag [] tail = tail
put_nonempty tag (b ∷ bs) tail = put_len tag (b ∷ bs) tail

-- One `if m.F != 0 { … }` of an integer.
unfoldable pub put_nonzero : ℕ → ℕ → Bytes → Bytes
put_nonzero tag zero tail = tail
put_nonzero tag (suc v) tail = tag ∷ encode_varint (suc v) tail

-- A loop over a repeated field, from the last element to the first.
unfoldable pub put_all : {A : Type 0} → ℕ → (A → Bytes) → List A → Bytes → Bytes
put_all tag encode [] tail = tail
put_all tag encode (x ∷ xs) tail = put_len tag (encode x) (put_all tag encode xs tail)
