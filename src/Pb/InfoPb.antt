-- ===== src/Pb/InfoPb.antt =====
-- x/wordle/types/state.pb.go: the ConsensusInfo message. A signed field travels as the uint64 that
-- Go's conversion makes of it, which is 0 for 0 alone.
use wordle.Prelude.{ℕ, ◌+◌, ◌%◌, ◌≡◌, ◌<◌, ◌^◌, refl, arith, some, none, Bytes, [], length, ◌==◌}
use wordle.Prelude.{if◌then◌else◌}
use wordle.Prelude.Int.{
  pos, pattern_of, signed, pattern_of-lt, signed-pattern_of, signed_low-pattern_of,
}
use wordle.Types.{ConsensusInfo, no_consensus_info, IsWireInfo}
use wordle.Pb.Varint.{Decoded, ok}
use wordle.Pb.Field.{skip_field, int_field, Fields, unmarshal, put_nonzero}
use wordle.Pb.Field.Sizes.{size_int, length-put_nonzero, size_int-le}
use wordle.Pb.Field.Parses.{Parses, Parses-end, nonzero-Parses}

unfoldable pub marshal_info : ConsensusInfo → Bytes
marshal_info m =
    put_nonzero 0x8 (pattern_of 64 m.total_validators)
      (put_nonzero 0x10 (pattern_of 64 m.voted_yes) (put_nonzero 0x18 (pattern_of 64 m.height) []))

unfoldable pub size_info : ConsensusInfo → ℕ
size_info m =
    size_int (pattern_of 64 m.total_validators)
    + size_int (pattern_of 64 m.voted_yes)
    + size_int (pattern_of 64 m.height)

-- An int32 keeps the 32 low bits of the groups that are read, an int64 all 64.
unfoldable pub info_fields : Fields ConsensusInfo
info_fields l number wire_type rest m =
    if number == 1
    then some
        (int_field wire_type rest (λ v. record m { total_validators = signed 32 (v % 2 ^ 32) }))
    else if number == 2
    then some (int_field wire_type rest (λ v. record m { voted_yes = signed 32 (v % 2 ^ 32) }))
    else if number == 3
    then some (int_field wire_type rest (λ v. record m { height = signed 64 v }))
    else none

unfoldable pub unmarshal_info : Bytes → Decoded ConsensusInfo
unmarshal_info = unmarshal info_fields no_consensus_info

-- Size is the length of what Marshal writes, so the buffer of Size bytes is filled exactly.
pub length-marshal_info : (m : ConsensusInfo) → length (marshal_info m) ≡ size_info m
unfolding marshal_info size_info
length-marshal_info m = omega (
  arith,
  length-put_nonzero 0x8 (pattern_of 64 m.total_validators)
      (put_nonzero 0x10 (pattern_of 64 m.voted_yes) (put_nonzero 0x18 (pattern_of 64 m.height) []))
      (pattern_of-lt m.total_validators),
  length-put_nonzero 0x10 (pattern_of 64 m.voted_yes) (put_nonzero 0x18 (pattern_of 64 m.height) [])
      (pattern_of-lt m.voted_yes),
  length-put_nonzero 0x18 (pattern_of 64 m.height) [] (pattern_of-lt m.height),
)

-- Unmarshal gives back the message that Marshal wrote, negative numbers included, where each number
-- fits its field.
pub unmarshal-marshal_info :
    (m : ConsensusInfo) → IsWireInfo m → unmarshal_info (marshal_info m) ≡ ok m
unfolding unmarshal_info unmarshal marshal_info size_info info_fields
unmarshal-marshal_info m w = parses (length (marshal_info m)) (omega arith) (omega arith)
  where
    l : ℕ
    l = length (marshal_info m)

    long : l < 2 ^ 63
    long = omega (
      arith,
      length-marshal_info m,
      size_int-le (pattern_of 64 m.total_validators) (pattern_of-lt m.total_validators),
      size_int-le (pattern_of 64 m.voted_yes) (pattern_of-lt m.voted_yes),
      size_int-le (pattern_of 64 m.height) (pattern_of-lt m.height),
    )

    read : ConsensusInfo
    read = record {
      total_validators = signed 32 (pattern_of 64 m.total_validators % 2 ^ 32);
      voted_yes = signed 32 (pattern_of 64 m.voted_yes % 2 ^ 32);
      height = signed 64 (pattern_of 64 m.height);
    }

    same : read ≡ m
    same = λ i. record {
      total_validators = signed_low-pattern_of m.total_validators w.total_validators i;
      voted_yes = signed_low-pattern_of m.voted_yes w.voted_yes i;
      height = signed-pattern_of m.height w.height i;
    }

    parses : Parses info_fields skip_field l (marshal_info m) no_consensus_info m
    parses =
        nonzero-Parses info_fields skip_field l 0x8 (omega arith) (omega arith) long
          (λ v. record no_consensus_info { total_validators = signed 32 (v % 2 ^ 32) })
          (pattern_of 64 m.total_validators) _ no_consensus_info m refl (λ rest. refl) refl
          (pattern_of-lt m.total_validators)
          (nonzero-Parses info_fields skip_field l 0x10 (omega arith) (omega arith) long
            (λ v. record read { voted_yes = signed 32 (v % 2 ^ 32); height = pos 0 })
            (pattern_of 64 m.voted_yes) _ _ m refl (λ rest. refl) refl (pattern_of-lt m.voted_yes)
            (nonzero-Parses info_fields skip_field l 0x18 (omega arith) (omega arith) long
              (λ v. record read { height = signed 64 v }) (pattern_of 64 m.height) _ _ m refl
              (λ rest. refl) refl (pattern_of-lt m.height) (rw same (Parses-end _ _ _ m))))
