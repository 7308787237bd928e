-- ===== src/Pb/GuessPb.antt =====
-- x/wordle/types/guess.pb.go: the Guess message.
use wordle.Prelude.{ℕ, ◌+◌, ◌≡◌, ◌<◌, ◌^◌, refl, arith, some, none, Bytes, [], length, ◌==◌}
use wordle.Prelude.{if◌then◌else◌}
use wordle.Types.{Guess, IsWireGuess}
use wordle.Pb.Varint.{Decoded, ok}
use wordle.Pb.Field.{skip_field, len_field, Fields, unmarshal, put_nonempty}
use wordle.Pb.Field.Sizes.{size_len, length-put_nonempty, size_len-le}
use wordle.Pb.Field.Parses.{Parses, Parses-end, nonempty-Parses}

-- `Reset`: every field empty.
abbrev pub empty_guess : Guess
empty_guess = record { index = []; word = []; submitter = []; count = [] }

unfoldable pub marshal_guess : Guess → Bytes
marshal_guess m =
    put_nonempty 0xa m.index
      (put_nonempty 0x12 m.word (put_nonempty 0x1a m.submitter (put_nonempty 0x22 m.count [])))

unfoldable pub size_guess : Guess → ℕ
size_guess m = size_len m.index + size_len m.word + size_len m.submitter + size_len m.count

unfoldable pub guess_fields : Fields Guess
guess_fields l number wire_type rest m =
    if number == 1
    then some (len_field l wire_type rest (λ s. record m { index = s }))
    else if number == 2
    then some (len_field l wire_type rest (λ s. record m { word = s }))
    else if number == 3
    then some (len_field l wire_type rest (λ s. record m { submitter = s }))
    else if number == 4
    then some (len_field l wire_type rest (λ s. record m { count = s }))
    else none

unfoldable pub unmarshal_guess : Bytes → Decoded Guess
unmarshal_guess = unmarshal guess_fields empty_guess

-- Size is the length of what Marshal writes, so the buffer of Size bytes is filled exactly.
pub length-marshal_guess : (m : Guess) → IsWireGuess m → length (marshal_guess m) ≡ size_guess m
unfolding marshal_guess size_guess
length-marshal_guess m w = omega (
  arith,
  length-put_nonempty 0xa m.index
      (put_nonempty 0x12 m.word (put_nonempty 0x1a m.submitter (put_nonempty 0x22 m.count [])))
      w.index.0,
  length-put_nonempty 0x12 m.word (put_nonempty 0x1a m.submitter (put_nonempty 0x22 m.count []))
      w.word.0,
  length-put_nonempty 0x1a m.submitter (put_nonempty 0x22 m.count []) w.submitter.0,
  length-put_nonempty 0x22 m.count [] w.count.0,
)

-- Unmarshal gives back the message that Marshal wrote, with texts of fewer than 2 ^ 32 bytes.
pub unmarshal-marshal_guess : (m : Guess) → IsWireGuess m → unmarshal_guess (marshal_guess m) ≡ ok m
unfolding unmarshal_guess unmarshal marshal_guess size_guess guess_fields
unmarshal-marshal_guess m w = parses (length (marshal_guess m)) (omega arith) (omega arith)
  where
    l : ℕ
    l = length (marshal_guess m)

    long : l < 2 ^ 63
    long = omega (
      arith,
      length-marshal_guess m w,
      size_len-le m.index w.index.0,
      size_len-le m.word w.word.0,
      size_len-le m.submitter w.submitter.0,
      size_len-le m.count w.count.0,
    )

    m0 : Guess
    m0 = record { index = []; word = []; submitter = []; count = [] }

    m1 : Guess
    m1 = record { index = m.index; word = []; submitter = []; count = [] }

    m2 : Guess
    m2 = record { index = m.index; word = m.word; submitter = []; count = [] }

    m3 : Guess
    m3 = record { index = m.index; word = m.word; submitter = m.submitter; count = [] }

    parses : Parses guess_fields skip_field l (marshal_guess m) m0 m
    parses =
        nonempty-Parses guess_fields skip_field l 0xa (omega arith) (omega arith) long
          (λ s. record m0 { index = s }) m.index _ m0 m refl (λ rest. refl) refl w.index.0
          (nonempty-Parses guess_fields skip_field l 0x12 (omega arith) (omega arith) long
            (λ s. record m1 { word = s }) m.word _ m1 m refl (λ rest. refl) refl w.word.0
            (nonempty-Parses guess_fields skip_field l 0x1a (omega arith) (omega arith) long
              (λ s. record m2 { submitter = s }) m.submitter _ m2 m refl (λ rest. refl) refl
              w.submitter.0
              (nonempty-Parses guess_fields skip_field l 0x22 (omega arith) (omega arith) long
                (λ s. record m3 { count = s }) m.count _ m3 m refl (λ rest. refl) refl w.count.0
                (Parses-end _ _ _ m))))
