-- ===== src/Examples/Game.antt =====
-- Examples of the game.
use wordle.Prelude.{
  ◌+◌, ◌≤◌, ◌≡◌, ◌≢◌, ◌⊎◌, inl, refl, arith, Bytes, codes, false, beq, none, some, if◌then◌else◌,
}
use wordle.Prelude.Int.{pos, ◌+ℤ◌}
use wordle.Exec.{ok}
use wordle.Env.Kv.{find}
use wordle.Env.Sample.{sample, pay_in, pay_out, address_of, fill}
use wordle.Env.Sample.Assoc.{without, insert}
use wordle.Pb.Varint.{groups, encode_varint, read_varint}
use wordle.Pb.Field.{read_len, len_field, skip_field, select, dispatch, read_fields}
use wordle.Pb.Field.{unmarshal, put_len, put_nonempty}
use wordle.Pb.WordlePb.{marshal_wordle, unmarshal_wordle, wordle_fields}
use wordle.Pb.GuessPb.{marshal_guess, unmarshal_guess, guess_fields}
use wordle.Keeper.Letters.{is_letter, all_letters, decode_rune}
use wordle.Keeper.Decimal.{itoa, atoi, digits, read_digits, read_number, positive}
use wordle.Keeper.Wordles.{get_wordle, decode_wordle, set_wordle}
use wordle.Keeper.Guesses.{get_guess, decode_guess, set_guess, remove_guess}
use wordle.Keeper.MsgServer.{
  hex, hex_digit, refuse_found, escrow, or_no_address, todays_wordle, count_so_far,
}
use wordle.Keeper.MsgServer.{current_count, reward, answer, attempt}
use wordle.Keeper.MsgServer.{World, submit_wordle, submit_guess, correct, wrong_answer}
use wordle.Types.{Wordle, IsGoString}
use wordle.Types.Messages.{MsgSubmitWordle}
use wordle.Types.Keys.{module_name}
use wordle.Keeper.Guesses.Laws.{guess_path, guess_at}
use wordle.Keeper.Wordles.Laws.{wordle_path, wordle_at}
use wordle.Keeper.MsgServer.{day_index, solution_hash, guesser_index, new_wordle, new_guess}
use wordle.Keeper.MsgServer.Submit.{IsWord, submit_wordle_effect}
use wordle.Keeper.MsgServer.Guessing.{HasTried}
use wordle.Keeper.MsgServer.Game.{guess_counted}
use wordle.Keeper.MsgServer.Frame.{submit_guess_frame}
use wordle.Keeper.MsgServer.Days.{morning, submitted, guessed, six_guesses, accepted_answer}
use wordle.Examples.Inputs.{today, alice, bob, empty_world, apple, guess_apple, guess_melon}

abbrev pub apple_world : World sample
apple_world = (submit_wordle sample today apple empty_world).1

abbrev pub melon_world : World sample
melon_world = (submit_guess sample today guess_melon apple_world).1

abbrev pub solved_world : World sample
solved_world = (submit_guess sample today guess_apple melon_world).1

pub apple_accepted : submit_wordle sample today apple empty_world ≡ (ok tt, apple_world)
unfolding submit_wordle is_letter all_letters decode_rune hex hex_digit get_wordle decode_wordle
    refuse_found set_wordle escrow or_no_address find marshal_wordle pay_in address_of fill
apple_accepted = refl

pub melon_accepted :
    submit_guess sample today guess_melon apple_world ≡ (ok wrong_answer, melon_world)
unfolding submit_wordle is_letter all_letters decode_rune hex hex_digit get_wordle decode_wordle
    refuse_found set_wordle escrow or_no_address find marshal_wordle pay_in address_of fill
    submit_guess todays_wordle count_so_far attempt answer get_guess decode_guess set_guess
    remove_guess without insert unmarshal_wordle wordle_fields unmarshal read_fields dispatch select
    len_field read_len read_varint skip_field put_len put_nonempty encode_varint groups
    marshal_guess beq
melon_accepted = refl

pub apple_solved : submit_guess sample today guess_apple melon_world ≡ (ok correct, solved_world)
unfolding submit_wordle is_letter all_letters decode_rune hex hex_digit get_wordle decode_wordle
    refuse_found set_wordle escrow or_no_address find marshal_wordle pay_in address_of fill
    submit_guess todays_wordle count_so_far attempt answer get_guess decode_guess set_guess
    remove_guess without insert unmarshal_wordle wordle_fields unmarshal read_fields dispatch select
    len_field read_len read_varint skip_field put_len put_nonempty encode_varint groups
    marshal_guess beq unmarshal_guess guess_fields itoa digits atoi read_number read_digits positive
    current_count reward pay_out ◌+ℤ◌
apple_solved = refl

pub melon_IsWord : IsWord sample guess_melon.word
unfolding is_letter all_letters decode_rune
melon_IsWord = (refl, refl)

pub apple_IsWord : IsWord sample apple.word
unfolding is_letter all_letters decode_rune
apple_IsWord = (refl, refl)

pub alice-IsGoString : IsGoString alice
alice-IsGoString = ground arith

pub bob-IsGoString : IsGoString bob
bob-IsGoString = ground arith

-- The wordle of the day after its submission, and no guess of bob's yet.
pub apple_found :
    wordle_at sample apple_world.0 (day_index sample today)
    ≡ ok (some (new_wordle sample today apple))
unfolding submit_wordle is_letter all_letters decode_rune hex hex_digit get_wordle decode_wordle
    refuse_found set_wordle escrow or_no_address find marshal_wordle pay_in address_of fill
    submit_guess todays_wordle count_so_far attempt answer get_guess decode_guess set_guess
    remove_guess without insert unmarshal_wordle wordle_fields unmarshal read_fields dispatch select
    len_field read_len read_varint skip_field put_len put_nonempty encode_varint groups
    marshal_guess beq
apple_found = refl

bob_fresh : guess_at sample apple_world.0 (guesser_index sample today bob) ≡ ok none
unfolding submit_wordle is_letter all_letters decode_rune hex hex_digit get_wordle decode_wordle
    refuse_found set_wordle escrow or_no_address find marshal_wordle pay_in address_of fill
    submit_guess todays_wordle count_so_far attempt answer get_guess decode_guess set_guess
    remove_guess without insert unmarshal_wordle wordle_fields unmarshal read_fields dispatch select
    len_field read_len read_varint skip_field put_len put_nonempty encode_varint groups
    marshal_guess beq
bob_fresh = refl

bob_starts : guess_at sample empty_world.0 (guesser_index sample today bob) ≡ ok none
unfolding submit_wordle is_letter all_letters decode_rune hex hex_digit get_wordle decode_wordle
    refuse_found set_wordle escrow or_no_address find marshal_wordle pay_in address_of fill
    submit_guess todays_wordle count_so_far attempt answer get_guess decode_guess set_guess
    remove_guess without insert unmarshal_wordle wordle_fields unmarshal read_fields dispatch select
    len_field read_len read_varint skip_field put_len put_nonempty encode_varint groups
    marshal_guess beq
bob_starts = refl

six_guesses_example : (2 ≤ 6) × HasTried sample solved_world.0 (guesser_index sample today bob) 2
six_guesses_example =
    six_guesses sample today bob empty_world solved_world 0 2 bob-IsGoString
      (inl (bob_starts, refl)) (omega arith)
      (guessed
        (guessed (submitted morning apple apple_accepted) guess_melon.word wrong_answer
          melon_accepted)
        guess_apple.word correct apple_solved)

guess_counted_example :
    HasTried sample
      (submit_guess sample today guess_melon apple_world).1.0
      (guesser_index sample today bob)
      1
    × ((index : Bytes)
        → guess_at sample (submit_guess sample today guess_melon apple_world).1.0 index ≡ (
            if beq (guesser_index sample today bob) index
            then ok (some (new_guess sample today guess_melon (pos 0)))
            else guess_at sample apple_world.0 index))
    × ((index : Bytes)
        → wordle_at sample (submit_guess sample today guess_melon apple_world).1.0 index
          ≡ wordle_at sample apple_world.0 index)
guess_counted_example =
    guess_counted sample today guess_melon apple_world.0 apple_world.1
      (new_wordle sample today apple) 0 melon_IsWord bob-IsGoString apple_found
      (inl (bob_fresh, refl)) (omega arith)

bob_once : HasTried sample melon_world.0 (guesser_index sample today bob) 1
bob_once = guess_counted_example.0

accepted_answer_example :
    IsWord sample guess_apple.word
    × (w : Wordle) × (wordle_at sample melon_world.0 (day_index sample today) ≡ ok (some w))
    × (((w.word ≡ solution_hash sample guess_apple.word)
          × (correct ≡ correct)
          × (sample.module_balance solved_world.1 module_name + 100
              ≡ sample.module_balance melon_world.1 module_name))
        ⊎ ((w.word ≢ solution_hash sample guess_apple.word)
            × (correct ≡ wrong_answer)
            × (solved_world.1 ≡ melon_world.1)))
accepted_answer_example =
    accepted_answer sample today guess_apple melon_world.0 solved_world.0 melon_world.1
      solved_world.1 1 correct bob-IsGoString bob_once (omega arith) apple_solved

submit_wordle_effect_example :
    IsWord sample apple.word
    × (wordle_at sample empty_world.0 (day_index sample today) ≡ ok none)
    × ((index : Bytes)
        → wordle_at sample apple_world.0 index ≡ (
            if beq (day_index sample today) index
            then ok (some (new_wordle sample today apple))
            else wordle_at sample empty_world.0 index))
    × (sample.module_balance apple_world.1 module_name
        ≡ sample.module_balance empty_world.1 module_name + 100)
submit_wordle_effect_example =
    submit_wordle_effect sample today apple empty_world.0 apple_world.0 empty_world.1 apple_world.1
      alice-IsGoString apple_accepted

other_key : beq (wordle_path (day_index sample today)) (codes "p_wordle") ≡ false
unfolding beq
other_key = refl

other_guess_key : beq (guess_path (guesser_index sample today bob)) (codes "p_wordle") ≡ false
unfolding beq
other_guess_key = refl

submit_guess_frame_example :
    sample.get (submit_guess sample today guess_apple melon_world).1.0 (codes "p_wordle")
    ≡ sample.get melon_world.0 (codes "p_wordle")
submit_guess_frame_example =
    submit_guess_frame sample today guess_apple (codes "p_wordle") melon_world.0 melon_world.1
      other_guess_key

abbrev digits_word : MsgSubmitWordle
digits_word = record { creator = alice; word = codes "app1e" }

not_letters : ¬ IsWord sample digits_word.word
unfolding is_letter all_letters decode_rune
not_letters (len, letters) = absurd (cc)
