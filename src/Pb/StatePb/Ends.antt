-- ===== src/Pb/StatePb/Ends.antt =====
-- The loops of BlockState.Unmarshal on their fuel, also the one over a map entry.
use wordle.Prelude.{ℕ, zero, suc, ◌+◌, ◌-◌, ◌/◌, ◌%◌, ◌^◌, ◌≤◌, ◌<◌, arith, Bool, false, not}
use wordle.Prelude.{Bytes, [], ◌++◌, length, length-append, length-drop, drop, ltb, leb, ◌==◌}
use wordle.Types.{BlockState}
use wordle.Pb.Varint.{Decoded, read_varint}
use wordle.Pb.Field.{read_len, skip, unmarshal}
use wordle.Pb.Field.Ends.{
  Ends, bind-Ends, if-Ends, read_varint-Ends, read_len-Ends, skip-Ends, Leaves, FieldsEnd,
  case-SomeLeaves, len_field-Leaves, int_field-Leaves, unmarshal-Ends,
}
use wordle.Pb.ChangePb.{change_fields, empty_change, unmarshal_change}
use wordle.Pb.StatePb.{entry_field, entry_loop, vote_field, change_field, state_fields}

-- The next round of the entry comes to an end on every shorter buffer.
abbrev EntryEnds : Bytes → (Bytes → Bytes × Bool → Decoded (Bytes × Bool)) → Type 0
EntryEnds buffer again =
    (rest : Bytes) (kv : Bytes × Bool)
    → length rest < length buffer
    → Ends (λ p. Unit {0}) (again rest kv)

entry_field-Ends :
    (again : Bytes → Bytes × Bool → Decoded (Bytes × Bool)) (l after : ℕ) (buffer : Bytes)
    (number : ℕ) (rest : Bytes) (kv : Bytes × Bool)
    → length rest < length buffer
    → EntryEnds buffer again
    → Ends (λ p. Unit {0}) (entry_field again l after buffer number rest kv)
unfolding entry_field
entry_field-Ends again l after buffer number rest (k, v) less next =
    if-Ends _ (number == 1) _ _
      (λ t.
        bind-Ends _ _ (read_len l rest) _ (read_len-Ends l rest)
          (λ (k', rest') h. next rest' (k', v) (omega (arith, h, less))))
      (λ f.
        if-Ends _ (number == 2) _ _
          (λ t.
            bind-Ends _ _ (read_varint rest 0 0) _ (read_varint-Ends rest 0 0)
              (λ (n, rest') h. next rest' (k, not (n == 0)) (omega (arith, h, less))))
          (λ g. bind-Ends _ _ (skip buffer) _ (skip-Ends buffer) (λ n moved.
            if-Ends _ (leb (2 ^ 63) (l - length buffer + n)) _ _ (λ t. tt)
              (λ h.
                if-Ends _ (ltb (length buffer - after) n) _ _ (λ t. tt)
                  (λ i.
                    next (drop n buffer) (k, v)
                      (omega (arith, length-drop n buffer, moved, less)))))))

entry_loop-Ends :
    (fuel l after : ℕ) (buffer : Bytes) (kv : Bytes × Bool)
    → length buffer ≤ after + fuel
    → Ends (λ p. Unit {0}) (entry_loop fuel l after buffer kv)
unfolding entry_loop
entry_loop-Ends zero l after buffer kv h =
    if-Ends _ (ltb after (length buffer)) _ _ (λ t. absurd (ground (arith, t))) (λ f. tt)
entry_loop-Ends (suc fuel) l after buffer kv h =
    if-Ends _ (ltb after (length buffer)) _ _
      (λ t.
        bind-Ends _ _ (read_varint buffer 0 0) _ (read_varint-Ends buffer 0 0) (λ (wire, rest) less.
          entry_field-Ends (entry_loop fuel l after) l after buffer (wire / 8 % 2 ^ 32) rest kv less
            (λ rest' kv' shorter. entry_loop-Ends fuel l after rest' kv' (omega (arith, shorter)))))
      (λ f. tt)

vote_field-Leaves :
    (l wire_type : ℕ) (buffer : Bytes) (m : BlockState)
    → Leaves buffer (vote_field l wire_type buffer m)
unfolding vote_field
vote_field-Leaves l wire_type buffer m =
    if-Ends _ (wire_type == 2) _ _
      (λ t. bind-Ends _ _ (read_len l buffer) _ (read_len-Ends l buffer) (λ (s, rest) less.
        bind-Ends _ _ (entry_loop (suc (length s)) l (length rest) (s ++ rest) ([], false)) _
          (entry_loop-Ends (suc (length s)) l (length rest) (s ++ rest) ([], false)
            (omega (arith, length-append s rest)))
          (λ kv u. omega (arith, less))))
      (λ f. tt)

pub change_fields-End : FieldsEnd change_fields
unfolding change_fields
change_fields-End l number wire_type rest m =
    case-SomeLeaves rest (number == 1) _ _ (len_field-Leaves l wire_type rest _) (
      case-SomeLeaves rest (number == 2) _ _ (len_field-Leaves l wire_type rest _)
        (case-SomeLeaves rest (number == 3) _ _ (int_field-Leaves wire_type rest _) tt))

change_field-Leaves :
    (l wire_type : ℕ) (buffer : Bytes) (m : BlockState)
    → Leaves buffer (change_field l wire_type buffer m)
unfolding change_field unmarshal_change
change_field-Leaves l wire_type buffer m =
    if-Ends _ (wire_type == 2) _ _
      (λ t. bind-Ends _ _ (read_len l buffer) _ (read_len-Ends l buffer) (λ (s, rest) less.
        bind-Ends _ _ (unmarshal change_fields empty_change s) _
          (unmarshal-Ends change_fields change_fields-End empty_change s)
          (λ c u. omega (arith, less))))
      (λ f. tt)

pub state_fields-End : FieldsEnd state_fields
unfolding state_fields
state_fields-End l number wire_type rest m =
    case-SomeLeaves rest (number == 1) _ _ (int_field-Leaves wire_type rest _) (
      case-SomeLeaves rest (number == 2) _ _ (len_field-Leaves l wire_type rest _) (
        case-SomeLeaves rest (number == 3) _ _ (vote_field-Leaves l wire_type rest m)
          (case-SomeLeaves rest (number == 4) _ _ (change_field-Leaves l wire_type rest m) tt)))
