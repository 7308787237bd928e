-- ===== src/Api.antt =====
-- The generated API types (api/wordle/wordle/*.pulsar.go) with text fields: their fast reflection, and
-- Size, Marshal and Unmarshal of ProtoMethods. A table lists the fields of a message, in the order of
-- their numbers; the functions of each message are those of its table.
pub mod Reflection
pub mod GuessApi
pub mod WordleApi
pub mod ParamsApi
pub mod RoundTrip
pub mod Tables
pub mod Tx
pub mod Query
use wordle.Prelude.{
  ℕ, zero, suc, ◌+◌, ◌-◌, ◌*◌, ◌^◌, ◌<◌, ◌≡◌, Bool, true, false, not, Option, none, some, List,
  Bytes, [], ◌∷◌, ◌++◌, length, take, drop, beq, leb, ltb, ◌==◌, if◌then◌else◌,
}
use wordle.Prelude.Int.{ℤ, pos, negsuc}
use wordle.Exec.{Reply, ok, err, panic}
use wordle.Pb.Varint
use wordle.Pb.Varint.{Decoded, ◌>>=◌, invalid_length, unexpected_eof}
use wordle.Pb.Field.{Fields, Unknown, len_field, read_fields}

-- github.com/cosmos/cosmos-proto/runtime
pub record Runtime : Type 0 where
  pub sov : ℕ → ℕ
  -- EncodeVarint, in front of what has been written
  pub encode_varint : ℕ → Bytes → Bytes
  pub skip : Bytes → Decoded ℤ
  pub sov_lem : (v : ℕ) → v < 2 ^ 64 → sov v ≡ Varint.sov v
  pub encode_varint_lem :
      (v : ℕ) (tail : Bytes) → v < 2 ^ 64 → encode_varint v tail ≡ Varint.encode_varint v tail

-- A text field: its full name, its number, and how a message holds it.
pub record TextField (M : Type 0) : Type 0 where
  pub name : Bytes
  pub number : ℕ
  pub read : M → Bytes
  pub write : Bytes → M → M

-- A message of the API, which keeps the fields that it does not know.
pub record Message (M : Type 0) : Type 0 where
  pub known : M
  pub unknown_fields : Bytes

-- protoreflect.Value, of which the setters take the texts.
pub data Value : Type 0 where
  string_value : Bytes → Value
  other_value : ℕ → Value

abbrev pub is_populated : Bytes → Bool
is_populated [] = false
is_populated (b ∷ bs) = true

module _ (runtime : Runtime) where
  -- `l = len(x.F); if l > 0 { n += 1 + l + runtime.Sov(uint64(l)) }`
  unfoldable pub size_text : Bytes → ℕ
  size_text [] = 0
  size_text (b ∷ bs) = 1 + length (b ∷ bs) + runtime.sov (length (b ∷ bs))

  -- `if len(x.F) > 0 { … }` of marshal: the value, its length and the tag, in front of the tail.
  unfoldable pub put_text : ℕ → Bytes → Bytes → Bytes
  put_text tag [] tail = tail
  put_text tag (b ∷ bs) tail = tag ∷ runtime.encode_varint (length (b ∷ bs)) ((b ∷ bs) ++ tail)

module _ {M : Type 0} where
  -- The case of a `switch fd.FullName()`; its default panics.
  unfoldable pub field_named : List (TextField M) → Bytes → Reply (TextField M)
  field_named [] name = panic
  field_named (f ∷ fs) name =
      let rest = field_named fs name in if beq f.name name then ok f else rest

  abbrev pub on_field : {A : Type 0} → Reply (TextField M) → (TextField M → Reply A) → Reply A
  on_field (ok f) k = k f
  on_field (err e) k = err e
  on_field panic k = panic

  unfoldable pub has : List (TextField M) → Message M → Bytes → Reply Bool
  unfolding field_named
  has fields x name = on_field (field_named fields name) λ f. ok (is_populated (f.read x.known))

  unfoldable pub clear : List (TextField M) → Message M → Bytes → Reply (Message M)
  unfolding field_named
  clear fields x name =
      on_field (field_named fields name) λ f. ok (record x { known = f.write [] x.known })

  unfoldable pub get : List (TextField M) → Message M → Bytes → Reply Value
  unfolding field_named
  get fields x name = on_field (field_named fields name) λ f. ok (string_value (f.read x.known))

  -- `value.Interface().(string)` panics on any other value.
  unfoldable pub set_value : TextField M → Message M → Value → Reply (Message M)
  set_value f x (string_value s) = ok (record x { known = f.write s x.known })
  set_value f x (other_value n) = panic

  unfoldable pub set : List (TextField M) → Message M → Bytes → Value → Reply (Message M)
  unfolding field_named set_value
  set fields x name value = on_field (field_named fields name) λ f. set_value f x value

  unfoldable pub new_field : List (TextField M) → Bytes → Reply Value
  unfolding field_named
  new_field fields name = on_field (field_named fields name) λ f. ok (string_value [])

  -- No text is mutable.
  unfoldable pub mutable : List (TextField M) → Bytes → Reply Value
  mutable fields name = panic

  -- Range: the callback gets each populated field, until it answers false.
  unfoldable pub range :
      {S : Type 0} → List (TextField M) → Message M → (Bytes → Value → S → Bool × S) → S → S
  range [] x f s = s
  range (field ∷ fields) x f s =
      let (more, s') = f field.name (string_value (field.read x.known)) s in
      let next = range fields x f s' in
      let others = range fields x f s in
      if is_populated (field.read x.known) then (if more then next else s') else others

  -- The cases of the switch over the field number.
  unfoldable pub text_cases : List (TextField M) → Fields (Message M)
  text_cases [] l number wire_type rest x = none
  text_cases (f ∷ fs) l number wire_type rest x =
      let others = text_cases fs l number wire_type rest x in
      if number == f.number
      then some (len_field l wire_type rest (λ s. record x { known = f.write s x.known }))
      else others

  module _ (runtime : Runtime) where
    unfoldable pub size_fields : List (TextField M) → M → ℕ
    unfolding size_text
    size_fields [] x = 0
    size_fields (f ∷ fs) x = size_text runtime (f.read x) + size_fields fs x

    -- Size; a nil message has none.
    unfoldable pub size : List (TextField M) → Option (Message M) → ℕ
    unfolding size_fields
    size fields none = 0
    size fields (some x) = size_fields fields x.known + length x.unknown_fields

    unfoldable pub put_fields : List (TextField M) → M → Bytes → Bytes
    unfolding put_text
    put_fields [] x tail = tail
    put_fields (f ∷ fs) x tail =
        put_text runtime (8 * f.number + 2) (f.read x) (put_fields fs x tail)

    -- Marshal behind a buffer; a nil message adds nothing.
    unfoldable pub marshal : List (TextField M) → Bytes → Option (Message M) → Bytes
    unfolding put_fields
    marshal fields buf none = buf
    marshal fields buf (some x) = buf ++ put_fields fields x.known x.unknown_fields

    -- The default of the switch, with the option DiscardUnknown.
    unfoldable pub keep_unknown : Bool → Unknown (Message M)
    keep_unknown discard l again buffer x = do
      skippy ← runtime.skip buffer
      elim skippy [
        | negsuc n ↦ Varint.err invalid_length
        | pos n ↦
            if leb (2 ^ 63) (l - length buffer + n)
            then Varint.err invalid_length
            else if ltb (length buffer) n
            then Varint.err unexpected_eof
            else again (drop n buffer) (
                if discard
                then x
                else record x { unknown_fields = x.unknown_fields ++ take n buffer })
      ]

    -- Unmarshal of a buffer into a message; a nil message reads nothing.
    unfoldable pub unmarshal :
        List (TextField M) → Bool → Bytes → Option (Message M) → Decoded (Option (Message M))
    unfolding text_cases keep_unknown
    unmarshal fields discard buf none = Varint.ok none
    unmarshal fields discard buf (some x) = do
      y ← read_fields (text_cases fields) (keep_unknown discard) (length buf) (length buf) buf x
      Varint.ok (some y)
