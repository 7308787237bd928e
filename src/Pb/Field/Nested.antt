-- ===== src/Pb/Field/Nested.antt =====
-- Messages inside messages, and messages of two texts: Unmarshal of what Marshal wrote.
use wordle.Prelude.{
  ℕ, ◌/◌, ◌%◌, ◌^◌, ◌≤◌, ◌<◌, ◌≡◌, refl, ap, ◌∙◌, arith, some, List, Bytes, [], ◌∷◌, ◌++◌, length,
  All, ◌==◌, if◌then◌else◌,
}
use wordle.Pb.Varint.{encode_varint, Decoded, ok, err, wrong_wire_type, ◌>>=◌}
use wordle.Pb.Field.{read_len, len_field, skip_field, Fields, unmarshal, put_nonempty}
use wordle.Pb.Field.Sizes.{length-put_nonempty, size_len-le}
use wordle.Pb.Field.Ends.{Ends, bind-Ends, if-Ends, read_len-Ends, Leaves}
use wordle.Pb.Field.Parses.{Parses, Parses-end, nonempty-Parses, read_len-encode, Reads}

-- `case N:` of a message: its bytes are read by its own Unmarshal.
unfoldable pub message_field :
    {M A : Type 0} → ℕ → ℕ → Bytes → (Bytes → Decoded A) → (A → M) → Decoded (M × Bytes)
message_field l wire_type buffer read put =
    if wire_type == 2
    then (do (s, rest) ← read_len l buffer; x ← read s; ok (put x, rest))
    else err wrong_wire_type

-- The reading of a message comes to an end where that of the inner one does.
pub message_field-Leaves :
    {M A : Type 0} (l wire_type : ℕ) (buffer : Bytes) (read : Bytes → Decoded A) (put : A → M)
    → ((s : Bytes) → Ends (λ x. Unit {0}) (read s))
    → Leaves buffer (message_field l wire_type buffer read put)
unfolding message_field
message_field-Leaves l wire_type buffer read put ends =
    if-Ends _ (wire_type == 2) _ _
      (λ t.
        bind-Ends _ _ (read_len l buffer) _ (read_len-Ends l buffer)
          (λ (s, rest) less. bind-Ends _ _ (read s) _ (ends s) (λ x u. omega (arith, less))))
      (λ f. tt)

pub message_field-put :
    {M A : Type 0} (l : ℕ) (read : Bytes → Decoded A) (put : A → M) (s tail : Bytes) (x : A)
    → l < 2 ^ 63
    → length s < 2 ^ 32
    → length (s ++ tail) ≤ l
    → read s ≡ ok x
    → message_field l 2 (encode_varint (length s) (s ++ tail)) read put ≡ ok (put x, tail)
unfolding message_field
message_field-put l read put s tail x long small inside e =
    rw (read_len-encode l s tail small inside long, e)

-- A repeated message: each element is added in its turn.
pub messages-Reads :
    {M A : Type 0} (fields : Fields M) (l t : ℕ) (encode : A → Bytes) (read : Bytes → Decoded A)
    (add : M → A → M)
    → l < 2 ^ 63
    → ((rest : Bytes) (m : M)
        → fields l (t / 8) (t % 8) rest m ≡ some (message_field l 2 rest read (add m)))
    → (xs : List A) (m : M) → All (λ x. (read (encode x) ≡ ok x) × (length (encode x) < 2 ^ 32)) xs
    → Reads fields skip_field l t encode add xs m
messages-Reads fields l t encode read add long case [] m h = tt
messages-Reads fields l t encode read add long case (x ∷ xs) m ((e, small), h) = (
  (λ tail inside.
      case _ m ∙ ap some (message_field-put l read (add m) (encode x) tail x long small inside e)),
  messages-Reads fields l t encode read add long case xs (add m x) h,
)

-- A message of two texts.
pub two_texts :
    {M : Type 0} (fields : Fields M) (make : Bytes → Bytes → M)
    → ((l : ℕ) (rest : Bytes)
        → fields l 1 2 rest (make [] []) ≡ some (len_field l 2 rest (λ s. make s [])))
    → ((l : ℕ) (a rest : Bytes)
        → fields l 2 2 rest (make a []) ≡ some (len_field l 2 rest (λ s. make a s)))
    → (a b : Bytes) → length a < 2 ^ 32
    → length b < 2 ^ 32
    → unmarshal fields (make [] []) (put_nonempty 0xa a (put_nonempty 0x12 b [])) ≡ ok (make a b)
unfolding unmarshal
two_texts fields make first second a b ha hb =
    parses (length (put_nonempty 0xa a (put_nonempty 0x12 b []))) (omega arith) (omega arith)
  where
    l : ℕ
    l = length (put_nonempty 0xa a (put_nonempty 0x12 b []))

    long : l < 2 ^ 63
    long = omega (
      arith,
      length-put_nonempty 0xa a (put_nonempty 0x12 b []) ha,
      length-put_nonempty 0x12 b [] hb,
      size_len-le a ha,
      size_len-le b hb,
    )

    parses :
        Parses fields skip_field l
          (put_nonempty 0xa a (put_nonempty 0x12 b []))
          (make [] [])
          (make a b)
    parses =
        nonempty-Parses fields skip_field l 0xa (omega arith) (omega arith) long (λ s. make s []) a
          _ (make [] []) (make a b) refl (first l) refl ha
          (nonempty-Parses fields skip_field l 0x12 (omega arith) (omega arith) long (λ s. make a s)
            b _ (make a []) (make a b) refl (second l a) refl hb (Parses-end _ _ _ _))
