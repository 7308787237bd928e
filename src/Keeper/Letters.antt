-- ===== src/Keeper/Letters.antt =====
-- IsLetter of x/wordle/keeper/msg_server_submit_wordle.go: the runes of a string, as `range` decodes
-- its UTF-8, and the test on each.
use wordle.Prelude.{
  ℕ, zero, suc, ◌+◌, ◌-◌, ◌*◌, Bool, true, false, ◌&&◌, not, Bytes, [], ◌∷◌, leb, ltb,
}
use wordle.Prelude.{if◌then◌else◌}
use wordle.Env.{Env}

-- A continuation byte in a range; 128 to 191 unless the first byte narrows it.
abbrev within : ℕ → ℕ → ℕ → Bool
within lo hi b = leb lo b && leb b hi

-- Go's utf8.DecodeRune: the rune and its width. A malformed byte is U+FFFD of width 1.
abbrev bad_rune : ℕ × ℕ
bad_rune = (0xfffd, 1)

unfoldable pub decode_2 : ℕ → Bytes → ℕ × ℕ
decode_2 a (b ∷ _) = if within 128 191 b then ((a - 192) * 64 + (b - 128), 2) else bad_rune
decode_2 a [] = bad_rune

unfoldable pub decode_3 : ℕ → Bytes → ℕ × ℕ
decode_3 a (b ∷ c ∷ _) =
    let lo : ℕ = (if leb a 224 then 160 else 128) in
    let hi : ℕ = (if leb 237 a && leb a 237 then 159 else 191) in
    if within lo hi b && within 128 191 c
    then ((a - 224) * 4096 + (b - 128) * 64 + (c - 128), 3)
    else bad_rune
decode_3 a _ = bad_rune

unfoldable pub decode_4 : ℕ → Bytes → ℕ × ℕ
decode_4 a (b ∷ c ∷ d ∷ _) =
    let lo : ℕ = (if leb a 240 then 144 else 128) in
    let hi : ℕ = (if leb 244 a then 143 else 191) in
    if within lo hi b && within 128 191 c && within 128 191 d
    then ((a - 240) * 262144 + (b - 128) * 4096 + (c - 128) * 64 + (d - 128), 4)
    else bad_rune
decode_4 a _ = bad_rune

unfoldable pub decode_rune : ℕ → Bytes → ℕ × ℕ
unfolding decode_2 decode_3 decode_4
decode_rune a rest =
    if ltb a 128
    then (a, 1)
    else if within 194 223 a
    then decode_2 a rest
    else if within 224 239 a
    then decode_3 a rest
    else if within 240 244 a
    then decode_4 a rest
    else bad_rune

module _ (env : Env) where
  open env use {letter}

  -- `for _, r := range s`; `skip` bytes of the last rune are still ahead.
  unfoldable pub all_letters : ℕ → Bytes → Bool
  all_letters skip [] = true
  all_letters zero (a ∷ rest) =
      let (r, width) = decode_rune a rest in
      let others = all_letters (width - 1) rest in if not (letter r) then false else others
  all_letters (suc skip) (a ∷ rest) = all_letters skip rest

  unfoldable pub is_letter : Bytes → Bool
  unfolding all_letters
  is_letter s = all_letters 0 s
