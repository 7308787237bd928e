-- ===== src/Pb/WordlePb.antt =====
-- x/wordle/types/wordle.pb.go: the Wordle message.
use wordle.Prelude.{ℕ, ◌+◌, ◌≡◌, ◌<◌, ◌^◌, refl, arith, some, none, Bytes, [], length, ◌==◌}
use wordle.Prelude.{if◌then◌else◌}
use wordle.Types.{Wordle, IsWireWordle}
use wordle.Pb.Varint.{Decoded, ok}
use wordle.Pb.Field.{skip_field, len_field, Fields, unmarshal, put_nonempty}
use wordle.Pb.Field.Sizes.{size_len, length-put_nonempty, size_len-le}
use wordle.Pb.Field.Parses.{Parses, Parses-end, nonempty-Parses}

-- `Reset`: every field empty.
abbrev pub empty_wordle : Wordle
empty_wordle = record { index = []; word = []; submitter = [] }

unfoldable pub marshal_wordle : Wordle → Bytes
marshal_wordle m =
    put_nonempty 0xa m.index (put_nonempty 0x12 m.word (put_nonempty 0x1a m.submitter []))

unfoldable pub size_wordle : Wordle → ℕ
size_wordle m = size_len m.index + size_len m.word + size_len m.submitter

unfoldable pub wordle_fields : Fields Wordle
wordle_fields l number wire_type rest m =
    if number == 1
    then some (len_field l wire_type rest (λ s. record m { index = s }))
    else if number == 2
    then some (len_field l wire_type rest (λ s. record m { word = s }))
    else if number == 3
    then some (len_field l wire_type rest (λ s. record m { submitter = s }))
    else none

unfoldable pub unmarshal_wordle : Bytes → Decoded Wordle
unmarshal_wordle = unmarshal wordle_fields empty_wordle

-- Size is the length of what Marshal writes, so the buffer of Size bytes is filled exactly.
pub length-marshal_wordle :
    (m : Wordle) → IsWireWordle m → length (marshal_wordle m) ≡ size_wordle m
unfolding marshal_wordle size_wordle
length-marshal_wordle m w = omega (
  arith,
  length-put_nonempty 0xa m.index (put_nonempty 0x12 m.word (put_nonempty 0x1a m.submitter []))
      w.index.0,
  length-put_nonempty 0x12 m.word (put_nonempty 0x1a m.submitter []) w.word.0,
  length-put_nonempty 0x1a m.submitter [] w.submitter.0,
)

-- Unmarshal gives back the message that Marshal wrote, with texts of fewer than 2 ^ 32 bytes.
pub unmarshal-marshal_wordle :
    (m : Wordle) → IsWireWordle m → unmarshal_wordle (marshal_wordle m) ≡ ok m
unfolding unmarshal_wordle unmarshal marshal_wordle size_wordle wordle_fields
unmarshal-marshal_wordle m w = parses (length (marshal_wordle m)) (omega arith) (omega arith)
  where
    l : ℕ
    l = length (marshal_wordle m)

    long : l < 2 ^ 63
    long = omega (
      arith,
      length-marshal_wordle m w,
      size_len-le m.index w.index.0,
      size_len-le m.word w.word.0,
      size_len-le m.submitter w.submitter.0,
    )

    m0 : Wordle
    m0 = record { index = []; word = []; submitter = [] }

    m1 : Wordle
    m1 = record { index = m.index; word = []; submitter = [] }

    m2 : Wordle
    m2 = record { index = m.index; word = m.word; submitter = [] }

    parses : Parses wordle_fields skip_field l (marshal_wordle m) m0 m
    parses =
        nonempty-Parses wordle_fields skip_field l 0xa (omega arith) (omega arith) long
          (λ s. record m0 { index = s }) m.index _ m0 m refl (λ rest. refl) refl w.index.0
          (nonempty-Parses wordle_fields skip_field l 0x12 (omega arith) (omega arith) long
            (λ s. record m1 { word = s }) m.word _ m1 m refl (λ rest. refl) refl w.word.0
            (nonempty-Parses wordle_fields skip_field l 0x1a (omega arith) (omega arith) long
              (λ s. record m2 { submitter = s }) m.submitter _ m2 m refl (λ rest. refl) refl
              w.submitter.0 (Parses-end _ _ _ m)))
