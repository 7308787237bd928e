-- ===== src/Pb/StatePb.antt =====
-- x/wordle/types/state.pb.go: the BlockState message, with its repeated fields and its map of votes.
pub mod Votes
pub mod RoundTrip
pub mod Ends
use wordle.Prelude.{ℕ, zero, suc, ◌+◌, ◌-◌, ◌/◌, ◌%◌, ◌^◌, ◌<◌, ◌≡◌, Bool, true, false, not}
use wordle.Prelude.{
  Option, some, none, Bytes, List, [], ◌∷◌, ◌++◌, length, drop, beq, ltb, leb, ◌==◌,
}
use wordle.Prelude.{if◌then◌else◌, All}
use wordle.Prelude.Int.{pos, pattern_of, signed, IsInt}
use wordle.Types.{StateChange, BlockState, no_block_state, IsWireChange}
use wordle.Pb.Varint.{Decoded, ok, err, stuck, ◌>>=◌, read_varint, sov}
use wordle.Pb.Varint.{unexpected_eof, invalid_length, wrong_wire_type}
use wordle.Pb.Field.{
  read_len, len_field, int_field, skip, Fields, unmarshal, put_len, put_nonzero, put_all,
}
use wordle.Pb.Field.Sizes.{size_int, size_all}
use wordle.Pb.ChangePb.{flag, marshal_change, size_change, unmarshal_change}

-- A map entry: the key and the value are always written.
unfoldable pub marshal_vote : Bytes × Bool → Bytes
marshal_vote (k, v) = put_len 0xa k (0x10 ∷ flag v ∷ [])

unfoldable pub size_vote : Bytes × Bool → ℕ
size_vote (k, v) = 1 + length k + sov (length k) + 1 + 1

unfoldable pub marshal_state : BlockState → Bytes
marshal_state m = put_nonzero 0x8 (pattern_of 64 m.height) (
    put_all 0x12 (λ s. s) m.validators
      (put_all 0x1a marshal_vote m.votes (put_all 0x22 marshal_change m.changes [])))

unfoldable pub size_state : BlockState → ℕ
size_state m =
    size_int (pattern_of 64 m.height)
    + size_all (λ s. length s) m.validators
    + size_all size_vote m.votes
    + size_all size_change m.changes

-- `m.Votes[mapkey] = mapvalue`
unfoldable pub put_vote : List (Bytes × Bool) → Bytes × Bool → List (Bytes × Bool)
put_vote [] (k, v) = (k, v) ∷ []
put_vote ((j, w) ∷ votes) (k, v) =
    if beq j k then (k, v) ∷ votes else (j, w) ∷ put_vote votes (k, v)

-- One round of the loop over a map entry. `after` is the length of what follows the entry.
unfoldable pub entry_field :
    (Bytes → Bytes × Bool → Decoded (Bytes × Bool))
    → ℕ
    → ℕ
    → Bytes
    → ℕ
    → Bytes
    → Bytes × Bool
    → Decoded (Bytes × Bool)
entry_field again l after buffer number rest (k, v) =
    if number == 1
    then (do (k', rest') ← read_len l rest; again rest' (k', v))
    else if number == 2
    then (do (n, rest') ← read_varint rest 0 0; again rest' (k, not (n == 0)))
    else (do
      n ← skip buffer
      if leb (2 ^ 63) (l - length buffer + n)
          then err invalid_length
          else if ltb (length buffer - after) n
          then err unexpected_eof
          else again (drop n buffer) (k, v))

-- `for iNdEx < postIndex { … }`
unfoldable pub entry_loop : ℕ → ℕ → ℕ → Bytes → Bytes × Bool → Decoded (Bytes × Bool)
entry_loop zero l after buffer kv = if ltb after (length buffer) then stuck else ok kv
entry_loop (suc fuel) l after buffer kv =
    let round : Decoded (Bytes × Bool) = (do
      (wire, rest) ← read_varint buffer 0 0
      entry_field (entry_loop fuel l after) l after buffer (wire / 8 % 2 ^ 32) rest kv) in
    if ltb after (length buffer) then round else ok kv

abbrev pub add_validator : BlockState → Bytes → BlockState
add_validator m s = record m { validators = m.validators ++ s ∷ [] }

abbrev pub add_vote : BlockState → Bytes × Bool → BlockState
add_vote m kv = record m { votes = put_vote m.votes kv }

abbrev pub add_change : BlockState → StateChange → BlockState
add_change m c = record m { changes = m.changes ++ c ∷ [] }

unfoldable pub vote_field : ℕ → ℕ → Bytes → BlockState → Decoded (BlockState × Bytes)
vote_field l wire_type buffer m =
    if wire_type == 2
    then (do
      (s, rest) ← read_len l buffer
      kv ← entry_loop (suc (length s)) l (length rest) (s ++ rest) ([], false)
      ok (add_vote m kv, rest))
    else err wrong_wire_type

unfoldable pub change_field : ℕ → ℕ → Bytes → BlockState → Decoded (BlockState × Bytes)
change_field l wire_type buffer m =
    if wire_type == 2
    then (do (s, rest) ← read_len l buffer; c ← unmarshal_change s; ok (add_change m c, rest))
    else err wrong_wire_type

unfoldable pub state_fields : Fields BlockState
state_fields l number wire_type rest m =
    if number == 1
    then some (int_field wire_type rest (λ v. record m { height = signed 64 v }))
    else if number == 2
    then some (len_field l wire_type rest (add_validator m))
    else if number == 3
    then some (vote_field l wire_type rest m)
    else if number == 4
    then some (change_field l wire_type rest m)
    else none

unfoldable pub unmarshal_state : Bytes → Decoded BlockState
unmarshal_state = unmarshal state_fields no_block_state

-- The keys of a map are distinct.
abbrev pub IsDistinct : List (Bytes × Bool) → Type 0
IsDistinct [] = Unit {0}
IsDistinct ((k, v) ∷ votes) = All (λ p. beq k p.0 ≡ false) votes × IsDistinct votes

-- A block state that fits Go's lengths.
pub record IsWireState (m : BlockState) : Type 0 where
  pub height : IsInt 64 m.height
  pub validators : All (λ s. length s < 2 ^ 32) m.validators
  pub votes : All (λ p. length p.0 < 2 ^ 30) m.votes
  pub distinct : IsDistinct m.votes
  pub changes : All IsWireChange m.changes
  pub fits : length (marshal_state m) < 2 ^ 63
