-- ===== src/Keeper/MsgServer/Submit.antt =====
-- SubmitWordle: one wordle a day, stored with its reward in escrow.
use wordle.Prelude.{ℕ, ◌+◌, ◌*◌, ◌/◌, ◌%◌, ◌<◌, ◌≡◌, refl, sym, ap, ◌∙◌, arith, true}
use wordle.Prelude.{
  ==_iff, if◌then◌else◌, Option, none, some, Bytes, [], ◌∷◌, length, All, beq, ◌==◌,
}
use wordle.Exec.{Reply, ok, err, wordle_length, wordle_letters, wordle_submitted}
use wordle.Types.{Wordle, IsGoString, IsWireWordle}
use wordle.Types.Keys.{module_name}
use wordle.Types.Messages.{MsgSubmitWordle}
use wordle.Env.{Env}
use wordle.Keeper.Wordles.{get_wordle, decode_wordle}
use wordle.Keeper.Wordles.Laws.{
  wordle_path, get_wordle_lem, set_wordle_lem, wordle_at, wordle_at_lem, get-set_wordle,
}
use wordle.Keeper.Letters.{is_letter}
use wordle.Keeper.MsgServer.Rewards.{escrow_store, escrow_balance}
use wordle.Keeper.MsgServer.{
  hex, hex_digit, World, day_index, new_wordle, submit_wordle, escrow, refuse_found,
}

pub length-hex : (bs : Bytes) → length (hex bs) ≡ 2 * length bs
unfolding hex
length-hex [] = refl
length-hex (b ∷ bs) = omega (arith, length-hex bs)

hex_digit-lt : (n : ℕ) → n < 16 → hex_digit n < 256
unfolding hex_digit
hex_digit-lt n h = ground arith

hex-All : (bs : Bytes) → All (λ b. b < 256) (hex bs)
unfolding hex
hex-All [] = tt
hex-All (b ∷ bs) =
    (hex_digit-lt (b / 16 % 16) (omega arith), (hex_digit-lt (b % 16) (omega arith), hex-All bs))

module _ (env : Env) where
  open env use {
    Store, Coins, get, set, module_balance, to_module, to_module-balance, sha256, sha256_size,
    parse_address,
  }

  -- A hash in hexadecimal is 64 bytes long.
  pub hash-IsGoString : (bz : Bytes) → IsGoString (hex (sha256 bz))
  hash-IsGoString bz = (omega (arith, length-hex (sha256 bz), sha256_size bz), hex-All (sha256 bz))

  pub new_wordle-IsWireWordle :
      (today : Bytes) (msg : MsgSubmitWordle)
      → IsGoString msg.creator
      → IsWireWordle (new_wordle env today msg)
  new_wordle-IsWireWordle today msg h = record {
    index = hash-IsGoString today;
    word = hash-IsGoString msg.word;
    submitter = h;
  }

  -- A word of five bytes, each rune of which is a letter.
  abbrev pub IsWord : Bytes → Type 0
  IsWord word = (length word ≡ 5) × (is_letter env word ≡ true)

  -- Reading a wordle leaves the store alone.
  pub get_wordle_of :
      (index : Bytes) (s : Store) (r : Reply (Option Wordle))
      → wordle_at env s index ≡ r
      → get_wordle env index s ≡ (r, s)
  get_wordle_of index s r h =
      get_wordle_lem env index s ∙ ap (λ t. (t, s)) (sym (wordle_at_lem env s index) ∙ h)

  pub submit_wordle-first :
      (today : Bytes) (msg : MsgSubmitWordle) (s : Store) (c : Coins)
      → IsWord msg.word
      → IsGoString msg.creator
      → wordle_at env s (day_index env today) ≡ ok none
      → (bz : Bytes) × (submit_wordle env today msg (s, c)
          ≡ escrow env msg.creator (set s (wordle_path (day_index env today)) bz, c))
        × (decode_wordle env (some bz) ≡ ok (some (new_wordle env today msg)))
  unfolding submit_wordle refuse_found
  submit_wordle-first today msg s c (len, letters) g h =
      let (bz, e, d) =
        set_wordle_lem env (new_wordle env today msg) s (new_wordle-IsWireWordle today msg g) in
      (
        bz,
        rw
            (
              (==_iff (length msg.word) 5).1 len,
              letters,
              get_wordle_of (day_index env today) s (ok none) h,
              e,
            )
            refl,
        d,
      )

  -- A word of the wrong length or with another rune, a day that has its wordle: refused, and nothing changes.
  pub submit_wordle-taken :
      (today : Bytes) (msg : MsgSubmitWordle) (s : Store) (c : Coins) (w : Wordle)
      → IsWord msg.word
      → wordle_at env s (day_index env today) ≡ ok (some w)
      → submit_wordle env today msg (s, c) ≡ (err wordle_submitted, (s, c))
  unfolding submit_wordle refuse_found
  submit_wordle-taken today msg s c w (len, letters) h =
      rw
        (
          (==_iff (length msg.word) 5).1 len,
          letters,
          get_wordle_of (day_index env today) s (ok (some w)) h,
        )
        refl

  submit_wordle-ok :
      (today : Bytes) (msg : MsgSubmitWordle) (s s' : Store) (c c' : Coins)
      → submit_wordle env today msg (s, c) ≡ (ok tt, (s', c'))
      → IsWord msg.word × (wordle_at env s (day_index env today) ≡ ok none)
  unfolding submit_wordle refuse_found
  submit_wordle-ok today msg s s' c c' h =
      ground
        (arith, get_wordle_of (day_index env today) s (wordle_at env s (day_index env today)) refl)

  -- A submission that succeeds has a word of five letters and is the first of its day. It stores the
  -- wordle under the hash of the day, touches no other wordle, and moves the reward of 100 to the module.
  pub submit_wordle_effect :
      (today : Bytes) (msg : MsgSubmitWordle) (s s' : Store) (c c' : Coins)
      → IsGoString msg.creator
      → submit_wordle env today msg (s, c) ≡ (ok tt, (s', c'))
      → IsWord msg.word
        × (wordle_at env s (day_index env today) ≡ ok none)
        × ((index : Bytes)
            → wordle_at env s' index ≡ (
                if beq (day_index env today) index
                then ok (some (new_wordle env today msg))
                else wordle_at env s index))
        × (module_balance c' module_name ≡ module_balance c module_name + 100)
  submit_wordle_effect today msg s s' c c' g h =
      let (word, free) = submit_wordle-ok today msg s s' c c' h in
      let (bz, e, d) = submit_wordle-first today msg s c word g free in
      let s₁ : Store = set s (wordle_path (day_index env today)) bz in
      let same : s' ≡ s₁ = ap (λ t. t.1.0) (sym h ∙ e) ∙ escrow_store env msg.creator s₁ c in
      (
        word,
        free,
        (λ index.
            rw
              (
                same,
                wordle_at_lem env s₁ index,
                wordle_at_lem env s index,
                get-set_wordle env s (day_index env today) index bz,
              )
              (ground (arith, d))),
        escrow_balance env msg.creator s₁ s' c c' (sym e ∙ h),
      )

  -- A word that is not five bytes long, or has a rune that is no letter, is refused with its error,
  -- and nothing changes.
  pub submit_wordle-malformed :
      (today : Bytes) (msg : MsgSubmitWordle) (w : World env)
      → ¬ IsWord msg.word
      → submit_wordle env today msg w
        ≡ ((if length msg.word == 5 then err wordle_letters else err wordle_length), w)
  unfolding submit_wordle
  submit_wordle-malformed today msg w n = ground (arith, n)
