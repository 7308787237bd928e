-- ===== src/Examples/History.antt =====
-- Examples of histories: a block with a wordle and two guesses in it.
use wordle.Prelude.{
  ◌+◌, ◌*◌, ◌/◌, ◌≤◌, [], List, take, drop, false, ◌≡◌, refl, arith, inl, some, none, Bytes, All,
}
use wordle.Prelude.Int.{pos}
use wordle.Exec.{ok, err, wordle_submitted}
use wordle.Types.{Guess, Wordle, params}
use wordle.Types.Genesis.{GenesisState}
use wordle.Env.Kv.{find}
use wordle.Env.Sample.{sample}
use wordle.Keeper.Entries.{first_of}
use wordle.Keeper.Guesses.Listing.{guess_index}
use wordle.Keeper.Guesses.Laws.{guess_at}
use wordle.Keeper.Wordles.Listing.{wordle_index}
use wordle.Keeper.Wordles.Laws.{wordle_at}
use wordle.Keeper.Wordles.{get_wordle, decode_wordle}
use wordle.Keeper.Guesses.{get_guess, decode_guess}
use wordle.Keeper.Params.{decode_params}
use wordle.Keeper.Consensus.{begin_block, finalize_block}
use wordle.Keeper.Genesis.{export_genesis}
use wordle.Keeper.MsgServer.{
  World, day_index, submit_wordle, submit_guess, new_wordle, guesser_index, solution_hash,
}
use wordle.Keeper.History.{
  History, start, wordle_message, guess_message, block_begins, block_ends, IsGame,
}
use wordle.Keeper.History.Order.{history-IsGame, IsGame-guesses}
use wordle.Keeper.History.Export.{HasCount, export_after_history}
use wordle.Keeper.History.Rules.{wordle_rule, Board, Shows, guess_rule}
use wordle.Keeper.History.Guessing.{Follows, guess_refines}
use wordle.Keeper.History.Wording.{FollowsWordle, wordle_refines}
use wordle.Keeper.History.Refines.{played, history_refines}
use wordle.Keeper.History.Stays.{solution_stays, one_wordle_a_day}
use wordle.Env.Pages.{PageRequest}
use wordle.Env.Sample.Paging.{sample_pager, page_of}
use wordle.Types.Keys.{guess_key, guess_key_prefix}
use wordle.Keeper.Queries.{query_guess}
use wordle.Keeper.Queries.Pages.{query_guess_all}
use wordle.Keeper.Queries.Pages.Laws.{Each, query_guess_all_lem}
use wordle.Types.Genesis.{validate}
use wordle.Keeper.Genesis.{init_genesis}
use wordle.Keeper.Params.{get_params}
use wordle.Keeper.History.Restart.{restart}
use wordle.Examples.Inputs.{bob, guess_apple, today, empty_world, apple, guess_melon}
use wordle.Types.Keys.{module_name}
use wordle.Keeper.History.Ledger.{
  Ledger, opened, wordle_paid, guess_right, guess_wrong, Ledger-balance,
}
use wordle.Examples.Chain.{nothing_at}
use wordle.Examples.Game.{
  apple_accepted, melon_accepted, apple_solved, solved_world, alice-IsGoString, bob-IsGoString,
  apple_world, apple_found, melon_IsWord, apple_IsWord,
}

abbrev opened_world : World sample
opened_world = ((begin_block sample (pos 7) 3 empty_world.0).1, empty_world.1)

abbrev worded_world : World sample
worded_world = (submit_wordle sample today apple opened_world).1

abbrev tried_world : World sample
tried_world = (submit_guess sample today guess_melon worded_world).1

abbrev closed_world : World sample
closed_world = ((finalize_block sample (pos 7) tried_world.0).1, tried_world.1)

block : History sample empty_world closed_world
block =
    block_ends
      (guess_message
        (wordle_message (block_begins start (pos 7) 3 (omega arith)) today apple alice-IsGoString)
        today guess_melon bob-IsGoString)
      (pos 7)

empty-IsGame : IsGame sample empty_world.0
unfolding find decode_params
empty-IsGame = record {
  guesses = λ k bz e. absurd (cc);
  wordles = λ k bz e. absurd (cc);
  block_states = λ k bz e. absurd (cc);
  parameters = (params, refl);
}

abbrev empty_board : Board
empty_board = record { solution = λ i. none; tries = λ i. 0 }

empty-Shows : Shows sample empty_world.0 empty_board
unfolding get_wordle decode_wordle get_guess decode_guess find
empty-Shows = record {
  wordles = λ i. (none, refl, refl);
  guesses = λ i. inl (refl, refl);
  limit = λ i. omega arith;
}

apple-IsGame : IsGame sample apple_world.0
apple-IsGame =
    history-IsGame sample empty_world apple_world empty-IsGame
      (wordle_message start today apple alice-IsGoString)

history-IsGame_example : IsGame sample closed_world.0
history-IsGame_example = history-IsGame sample empty_world closed_world empty-IsGame block

export_after_history_example :
    (exported : GenesisState) × ((export_genesis sample closed_world.0).0 ≡ ok exported)
    × All HasCount exported.guess_list
    × ((i : Bytes)
        → (guess_at sample closed_world.0 i ≡ ok (first_of guess_index i exported.guess_list))
          × (wordle_at sample closed_world.0 i ≡ ok (first_of wordle_index i exported.wordle_list)))
export_after_history_example =
    export_after_history sample empty_world closed_world empty-IsGame block

history_refines_example : Shows sample closed_world.0 (played sample block empty_board)
history_refines_example =
    history_refines sample empty_world closed_world empty_board block empty-IsGame empty-Shows

wordle_refines_example :
    FollowsWordle sample apple empty_world.0 empty_world.1
      (wordle_rule (day_index sample today) (solution_hash sample apple.word) empty_board)
      (submit_wordle sample today apple empty_world)
wordle_refines_example =
    wordle_refines sample today apple empty_world.0 empty_world.1 empty_board apple_IsWord
      alice-IsGoString empty-Shows

-- The board with the solution of the day.
abbrev apple_board : Board
apple_board = (wordle_rule (day_index sample today) (solution_hash sample apple.word) empty_board).1

apple-Shows : Shows sample apple_world.0 apple_board
apple-Shows =
    (wordle_refines sample today apple empty_world.0 empty_world.1 empty_board apple_IsWord
      alice-IsGoString empty-Shows).0

guess_refines_example :
    Follows sample guess_melon apple_world.0 apple_world.1
      (guess_rule
        (day_index sample today)
        (guesser_index sample today guess_melon.creator)
        (solution_hash sample guess_melon.word)
        apple_board)
      (submit_guess sample today guess_melon apple_world)
guess_refines_example =
    guess_refines sample today guess_melon apple_world.0 apple_world.1 apple_board melon_IsWord
      bob-IsGoString apple-Shows

solution_stays_example :
    (y : Wordle) × (wordle_at sample
        (submit_guess sample today guess_melon apple_world).1.0
        (day_index sample today)
      ≡ ok (some y))
    × (y.word ≡ (new_wordle sample today apple).word)
solution_stays_example =
    solution_stays sample apple_world (submit_guess sample today guess_melon apple_world).1
      (day_index sample today) (new_wordle sample today apple) apple-IsGame
      (guess_message start today guess_melon bob-IsGoString) apple_found

-- A wrong guess lies between the two submissions.
one_wordle_a_day_example :
    submit_wordle sample today
      (record { creator = bob; word = guess_melon.word })
      (submit_guess sample today guess_melon apple_world).1
    ≡ (err wordle_submitted, (submit_guess sample today guess_melon apple_world).1)
one_wordle_a_day_example =
    one_wordle_a_day sample today apple (record { creator = bob; word = guess_melon.word })
      empty_world apple_world (submit_guess sample today guess_melon apple_world).1 empty-IsGame
      alice-IsGoString apple_accepted (guess_message start today guess_melon bob-IsGoString)
      melon_IsWord

-- A page of one entry.
abbrev first : PageRequest
first = record { key = none; offset = 0; limit = 1; count_total = false; reverse = false }

abbrev first_visited : List (Bytes × Bytes)
first_visited = take 1 (drop 0 (sample.entries_in guess_key_prefix closed_world.0))

query_guess_all_lem_example :
    (found : List Guess) × (query_guess_all sample sample_pager (some (some first)) closed_world.0
      ≡ (ok (found, tt), closed_world.0))
    × Each
        (λ entry g.
          (sample.guess_codec.unmarshal entry.1 ≡ ok g)
          × (entry.0 ≡ guess_key g.index)
          × (query_guess sample (some g.index) closed_world.0 ≡ (ok g, closed_world.0)))
        first_visited
        found
unfolding page_of
query_guess_all_lem_example =
    query_guess_all_lem sample sample_pager (some first) first_visited tt closed_world.0
      (IsGame-guesses sample closed_world.0
        (history-IsGame sample empty_world closed_world empty-IsGame block))
      refl

restart_example :
    (exported : GenesisState) × (s : sample.Store) × ((export_genesis sample closed_world.0).0
      ≡ ok exported)
    × (validate exported ≡ ok tt)
    × (init_genesis sample exported [] ≡ (ok tt, s))
    × ((get_params sample s).0 ≡ (get_params sample closed_world.0).0)
    × ((i : Bytes)
        → (guess_at sample s i ≡ guess_at sample closed_world.0 i)
          × (wordle_at sample s i ≡ wordle_at sample closed_world.0 i))
restart_example = restart sample [] nothing_at empty_world closed_world empty-IsGame block

-- A wordle, a wrong guess and a right one.
played-Ledger : Ledger sample empty_world 1 1 solved_world
played-Ledger =
    guess_right
      (guess_wrong (wordle_paid opened today apple alice-IsGoString apple_accepted) today
        guess_melon bob-IsGoString melon_accepted)
      today guess_apple bob-IsGoString apple_solved

Ledger-balance_example :
    IsGame sample solved_world.0
    × (sample.module_balance solved_world.1 module_name + 100 * 1
        ≡ sample.module_balance empty_world.1 module_name + 100 * 1)
    × (1 ≤ 1 + sample.module_balance empty_world.1 module_name / 100)
Ledger-balance_example =
    Ledger-balance sample empty_world solved_world 1 1 empty-IsGame played-Ledger
