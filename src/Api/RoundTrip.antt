-- ===== src/Api/RoundTrip.antt =====
-- Unmarshal reads back what Marshal of the same table of text fields wrote, and Size counts its bytes.
use wordle.Prelude.{
  ℕ, ◌+◌, ◌*◌, ◌/◌, ◌%◌, ◌^◌, ◌<◌, ◌≤◌, ◌≡◌, refl, ap, arith, Bool, some, List, Bytes, [], ◌∷◌,
  ◌++◌, length, All, length-append,
}
use wordle.Pb.Varint
use wordle.Pb.Field.{len_field, put_nonempty, put_len}
use wordle.Pb.Field.Sizes.{size_len, length-put_nonempty, size_len-le}
use wordle.Pb.Field.Parses.{Parses, Parses-end, nonempty-Parses}
use wordle.Api.{
  Runtime, TextField, Message, size_text, size_fields, size, put_text, put_fields, marshal,
  text_cases, keep_unknown, unmarshal,
}

module _ (runtime : Runtime) where
  -- The code that pulsar writes for a text agrees with the gogoproto code of x/wordle/types.
  pub put_text-put_nonempty :
      (tag : ℕ) (s tail : Bytes)
      → length s < 2 ^ 32
      → put_text runtime tag s tail ≡ put_nonempty tag s tail
  unfolding put_text put_nonempty put_len
  put_text-put_nonempty tag [] tail h = refl
  put_text-put_nonempty tag (b ∷ bs) tail h =
      ap (λ r. tag ∷ r)
        (runtime.encode_varint_lem (length (b ∷ bs)) ((b ∷ bs) ++ tail) (omega arith))

  pub size_text-size_len : (s : Bytes) → length s < 2 ^ 32 → size_text runtime s ≡ size_len s
  unfolding size_text size_len
  size_text-size_len [] h = refl
  size_text-size_len (b ∷ bs) h =
      ap (λ n. 1 + length (b ∷ bs) + n) (runtime.sov_lem (length (b ∷ bs)) (omega arith))

  pub size_text-le : (s : Bytes) → length s < 2 ^ 32 → size_text runtime s ≤ 2 ^ 32 + 11
  size_text-le s h = rw (size_text-size_len s h) (size_len-le s h)

module _ {M : Type 0} where
  -- Every text is short enough for Go.
  abbrev pub HasGoStrings : List (TextField M) → M → Type 0
  HasGoStrings fields x = All (λ (f : TextField M). length (f.read x) < 2 ^ 32) fields

  -- Each row has a tag of one byte, and the switch finds it by its number.
  abbrev pub IsSwitch : List (TextField M) → List (TextField M) → Type 0
  IsSwitch all fields =
      All
        (λ (f : TextField M).
          (0 < f.number)
          × ((f.number < 16)
              × ((l wire_type : ℕ) (rest : Bytes) (x : Message M)
                  → text_cases all l f.number wire_type rest x
                    ≡ some (
                        len_field l wire_type rest (λ s. record x { known = f.write s x.known })))))
        fields

  -- The fields of `x` written one after the other over `m`.
  abbrev pub fill : List (TextField M) → M → M → M
  fill [] x m = m
  fill (f ∷ fields) x m = fill fields x (f.write (f.read x) m)

  -- No field is set before its turn.
  abbrev pub IsBlank : List (TextField M) → M → M → Type 0
  IsBlank [] x m = Unit {0}
  IsBlank (f ∷ fields) x m = (f.write [] m ≡ m) × IsBlank fields x (f.write (f.read x) m)

  module _ (runtime : Runtime) where
    pub length-put_fields :
        (fields : List (TextField M)) (x : M) (tail : Bytes)
        → HasGoStrings fields x
        → length (put_fields runtime fields x tail) ≡ size_fields runtime fields x + length tail
    unfolding put_fields size_fields
    length-put_fields [] x tail h = omega arith
    length-put_fields (f ∷ fields) x tail (h, hs) =
        rw
          (
            put_text-put_nonempty runtime (8 * f.number + 2) (f.read x)
                (put_fields runtime fields x tail) h,
            size_text-size_len runtime (f.read x) h,
          )
          (omega (
            arith,
            length-put_nonempty (8 * f.number + 2) (f.read x) (put_fields runtime fields x tail) h,
            length-put_fields fields x tail hs,
          ))

    put_fields-Parses :
        (all fields : List (TextField M)) (discard : Bool) (l : ℕ) (x m : M) (unknown : Bytes)
        → l < 2 ^ 63
        → IsSwitch all fields
        → IsBlank fields x m
        → HasGoStrings fields x
        → Parses
            (text_cases all)
            (keep_unknown runtime discard)
            l
            (put_fields runtime fields x [])
            (record { known = m; unknown_fields = unknown })
            (record { known = fill fields x m; unknown_fields = unknown })
    unfolding put_fields
    put_fields-Parses all [] discard l x m unknown long w b h = Parses-end _ _ _ _
    put_fields-Parses all (f ∷ fields) discard l x m unknown long ((n0, (n1, c)), w) (b, bs)
          (h, hs) =
        rw
          (put_text-put_nonempty runtime (8 * f.number + 2) (f.read x)
            (put_fields runtime fields x []) h)
          (nonempty-Parses (text_cases all) (keep_unknown runtime discard) l (8 * f.number + 2)
            (omega arith) (omega arith) long
            (λ s. record { known = f.write s m; unknown_fields = unknown }) (f.read x) _
            (record { known = m; unknown_fields = unknown }) _ (omega arith) (λ rest. found rest)
            (ap (λ k. record { known = k; unknown_fields = unknown }) b) h
            (put_fields-Parses all fields discard l x (f.write (f.read x) m) unknown long w bs hs))
      where
        number : (8 * f.number + 2) / 8 ≡ f.number
        number = omega arith

        wire : (8 * f.number + 2) % 8 ≡ 2
        wire = omega arith

        found :
            (rest : Bytes)
            → text_cases all l
                ((8 * f.number + 2) / 8)
                ((8 * f.number + 2) % 8)
                rest
                (record { known = m; unknown_fields = unknown })
              ≡ some (
                  len_field l 2 rest
                    (λ s. record { known = f.write s m; unknown_fields = unknown }))
        found rest = rw (number, wire) (c l 2 rest (record { known = m; unknown_fields = unknown }))

    size_fields-le :
        (fields : List (TextField M)) (x : M)
        → HasGoStrings fields x
        → size_fields runtime fields x ≤ length fields * (2 ^ 32 + 11)
    unfolding size_fields
    size_fields-le [] x h = omega arith
    size_fields-le (f ∷ fields) x (h, hs) =
        omega (arith, size_text-le runtime (f.read x) h, size_fields-le fields x hs)

    -- The message that stands alone and fills the table: what Unmarshal reads into an empty message.
    pub unmarshal-marshal :
        (fields : List (TextField M)) (discard : Bool) (x m : M)
        → IsSwitch fields fields
        → IsBlank fields x m
        → HasGoStrings fields x
        → length fields < 16
        → unmarshal runtime fields discard
            (marshal runtime fields [] (some (record { known = x; unknown_fields = [] })))
            (some (record { known = m; unknown_fields = [] }))
          ≡ Varint.ok (some (record { known = fill fields x m; unknown_fields = [] }))
    unfolding unmarshal marshal
    unmarshal-marshal fields discard x m w b h small =
        let long : length (put_fields runtime fields x []) < 2 ^ 63 =
          omega (arith, length-put_fields fields x [] h, size_fields-le fields x h) in
        rw
          (put_fields-Parses fields fields discard (length (put_fields runtime fields x [])) x m []
            long w b h (length (put_fields runtime fields x [])) (omega arith) (omega arith))
          refl

    -- Marshal adds to the buffer as many bytes as Size says.
    pub length-marshal :
        (fields : List (TextField M)) (buf : Bytes) (x : M) (unknown : Bytes)
        → HasGoStrings fields x
        → length
            (marshal runtime fields buf (some (record { known = x; unknown_fields = unknown })))
          ≡ length buf + size runtime fields (some (record { known = x; unknown_fields = unknown }))
    unfolding marshal size
    length-marshal fields buf x unknown h = omega (
      arith,
      length-append buf (put_fields runtime fields x unknown),
      length-put_fields fields x unknown h,
    )
