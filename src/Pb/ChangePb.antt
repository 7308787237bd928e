-- ===== src/Pb/ChangePb.antt =====
-- x/wordle/types/state.pb.go: the StateChange message.
use wordle.Prelude.{ℕ, ◌+◌, ◌≡◌, ◌<◌, ◌^◌, refl, arith, Bool, true, false, not, some, none}
use wordle.Prelude.{Bytes, [], length, ◌==◌, if◌then◌else◌}
use wordle.Types.{StateChange, slice, IsWireChange}
use wordle.Pb.Varint.{Decoded, ok, encode_varint, groups}
use wordle.Pb.Field.{skip_field, len_field, int_field, Fields, unmarshal, put_nonempty, put_nonzero}
use wordle.Pb.Field.Sizes.{size_len, length-put_nonempty, size_len-small}
use wordle.Pb.Field.Parses.{Parses, Parses-end, optional-Parses, nonzero-Parses}

abbrev pub empty_change : StateChange
empty_change = record { key = none; value = none; is_deleted = false }

-- A Boolean is written as 1 and left out when it is false; any number but 0 reads as true.
abbrev pub flag : Bool → ℕ
flag b = if b then 1 else 0

unfoldable pub marshal_change : StateChange → Bytes
marshal_change m =
    put_nonempty 0xa (slice m.key)
      (put_nonempty 0x12 (slice m.value) (put_nonzero 0x18 (flag m.is_deleted) []))

unfoldable pub size_change : StateChange → ℕ
size_change m = size_len (slice m.key) + size_len (slice m.value) + (if m.is_deleted then 2 else 0)

unfoldable pub change_fields : Fields StateChange
change_fields l number wire_type rest m =
    if number == 1
    then some (len_field l wire_type rest (λ s. record m { key = some s }))
    else if number == 2
    then some (len_field l wire_type rest (λ s. record m { value = some s }))
    else if number == 3
    then some (int_field wire_type rest (λ v. record m { is_deleted = not (v == 0) }))
    else none

unfoldable pub unmarshal_change : Bytes → Decoded StateChange
unmarshal_change = unmarshal change_fields empty_change

length-flag : (b : Bool) → length (put_nonzero 0x18 (flag b) []) ≡ (if b then 2 else 0)
unfolding put_nonzero encode_varint groups
length-flag true = refl
length-flag false = refl

-- Size is the length of what Marshal writes.
pub length-marshal_change :
    (m : StateChange) → IsWireChange m → length (marshal_change m) ≡ size_change m
unfolding marshal_change size_change
length-marshal_change m w = omega (
  arith,
  length-put_nonempty 0xa (slice m.key)
      (put_nonempty 0x12 (slice m.value) (put_nonzero 0x18 (flag m.is_deleted) [])) (omega arith),
  length-put_nonempty 0x12 (slice m.value) (put_nonzero 0x18 (flag m.is_deleted) []) (omega arith),
  length-flag m.is_deleted,
)

pub size_change-le : (m : StateChange) → IsWireChange m → size_change m < 2 ^ 32
unfolding size_change
size_change-le m w =
    ground (arith, size_len-small (slice m.key) w.key.0, size_len-small (slice m.value) w.value.0)

pub length-marshal_change-le :
    (m : StateChange) → IsWireChange m → length (marshal_change m) < 2 ^ 32
length-marshal_change-le m w = omega (arith, length-marshal_change m w, size_change-le m w)

pub flag_read : (b : Bool) → not (flag b == 0) ≡ b
flag_read true = refl
flag_read false = refl

-- Unmarshal gives back the change that Marshal wrote, with a key and a value of fewer than 2 ^ 30
-- bytes each, nil where empty.
pub unmarshal-marshal_change :
    (m : StateChange) → IsWireChange m → unmarshal_change (marshal_change m) ≡ ok m
unfolding unmarshal_change unmarshal marshal_change change_fields
unmarshal-marshal_change m w = parses (length (marshal_change m)) (omega arith) (omega arith)
  where
    l : ℕ
    l = length (marshal_change m)

    long : l < 2 ^ 63
    long = omega (arith, length-marshal_change-le m w)

    same : record m { is_deleted = not (flag m.is_deleted == 0) } ≡ m
    same = λ i. record m { is_deleted = flag_read m.is_deleted i }

    parses : Parses change_fields skip_field l (marshal_change m) empty_change m
    parses =
        optional-Parses change_fields skip_field l 0xa (omega arith) (omega arith) long
          (λ o. record empty_change { key = o }) m.key _ m refl (λ rest. refl) w.key.1
          (omega (arith, w.key.0))
          (optional-Parses change_fields skip_field l 0x12 (omega arith) (omega arith) long
            (λ o. record m { value = o; is_deleted = false }) m.value _ m refl (λ rest. refl)
            w.value.1 (omega (arith, w.value.0))
            (nonzero-Parses change_fields skip_field l 0x18 (omega arith) (omega arith) long
              (λ v. record m { is_deleted = not (v == 0) }) (flag m.is_deleted) _ _ m refl
              (λ rest. refl) refl (ground arith) (rw same (Parses-end _ _ _ m))))

pub flag-lt : (b : Bool) → flag b < 128
flag-lt true = omega arith
flag-lt false = omega arith
