-- ===== src/Examples/Chain.antt =====
-- Examples of the keeper: entries, block states, consensus and parameters.
use wordle.Prelude.{
  if◌then◌else◌, ◌*◌, ◌^◌, ◌<◌, ◌≡◌, ◌≢◌, ◌⊎◌, refl, arith, Bytes, codes, [], ◌∷◌, length, false,
}
use wordle.Prelude.{none, some, beq_refl, ap, leb}
use wordle.Prelude.Int.{pos}
use wordle.Exec.{ok, err, invalid_signer}
use wordle.Types.{BlockState, StateChange, params, no_block_state, IsWireChange}
use wordle.Types.Keys.{block_state_key}
use wordle.Types.Consensus.{has_consensus}
use wordle.Types.Consensus.Threshold.{has_consensus_threshold}
use wordle.Types.Messages.{MsgUpdateParams}
use wordle.Pb.Varint.{encode_varint, groups}
use wordle.Pb.Field.{put_len, put_nonempty, put_nonzero, put_all}
use wordle.Pb.ChangePb.{marshal_change}
use wordle.Pb.StatePb.{marshal_state, IsWireState}
use wordle.Pb.StatePb.RoundTrip.{unmarshal-marshal_state}
use wordle.Env.Kv.{find}
use wordle.Env.Sample.Assoc.{insert}
use wordle.Env.Sample.{sample}
use wordle.Keeper.Guesses.{set_guess}
use wordle.Keeper.Guesses.Listing.{IsKept, guess_index}
use wordle.Keeper.Entries.{first_of}
use wordle.Keeper.Guesses.Laws.{guess_at}
use wordle.Keeper.Wordles.Laws.{wordle_at}
use wordle.Keeper.Tracking.{track_state_change, with_change, get_block_state, decode_state}
use wordle.Keeper.Tracking.Laws.{block_state_at, track_misses}
use wordle.Keeper.Consensus.{begin_block, finalize_block, rollback_state}
use wordle.Keeper.Consensus.Rollback.{Tracked, start, save, set_first, besides, rollback_restores}
use wordle.Keeper.Consensus.Votes.{finalize_block-begin_block}
use wordle.Keeper.Params.{update_params, query_params, update_params_lem}
use wordle.Keeper.Genesis.{last_guess, AllWire, init_genesis, export_genesis}
use wordle.Keeper.Genesis.Loading.{last_wordle}
use wordle.Keeper.Genesis.RoundTrip.{export_genesis-init_genesis}
use wordle.Keeper.Wordles.Listing as WordleListing
use wordle.Keeper.Wordles.Listing.{wordle_index}
use wordle.Types.Genesis.{GenesisState}
use wordle.Examples.Inputs.{alice, bob}
use wordle.Examples.Pb.{a_guess, a_guess-IsWire, a_wordle, a_wordle-IsWire}

abbrev guessed_store : sample.Store
guessed_store = (set_guess sample a_guess []).1

has_consensus_threshold_example :
    has_consensus (record { total_validators = pos 3; voted_yes = pos 2; height = pos 9 })
    ≡ leb (66 * 3) (100 * 2)
has_consensus_threshold_example = has_consensus_threshold 3 2 (pos 9) (omega arith)

abbrev an_update : MsgUpdateParams
an_update = record { authority = alice; new_params = params }

update_params_lem_example :
    ((bob ≢ alice) × (update_params sample bob an_update [] ≡ (err invalid_signer, [])))
    ⊎ ((bob ≡ alice)
        × ((update_params sample bob an_update []).0 ≡ ok tt)
        × ((query_params sample (some params) (update_params sample bob an_update []).1).0
            ≡ ok params))
update_params_lem_example = update_params_lem sample bob an_update params []

finalize_block-begin_block_example :
    finalize_block sample (pos 9) (begin_block sample (pos 9) 4 []).1
    ≡ rollback_state sample (pos 9) (begin_block sample (pos 9) 4 []).1
finalize_block-begin_block_example =
    finalize_block-begin_block sample (pos 9) 4 [] (begin_block sample (pos 9) 4 []).1
      (ground arith) refl

-- A block at height 5 that overwrites one key and has the write on record.
abbrev new_key : StateChange
new_key = record { key = some (codes "k"); value = some (codes "v"); is_deleted = false }

abbrev block_five : BlockState
block_five = record { height = pos 5; validators = []; votes = []; changes = new_key ∷ [] }

abbrev five_bytes : Bytes
five_bytes = marshal_state block_five

abbrev store_four : sample.Store
store_four = sample.set [] (codes "k") (codes "u")

abbrev store_five : sample.Store
store_five =
    sample.set (sample.set store_four (codes "k") (codes "v")) (block_state_key (pos 5)) five_bytes

new_key-IsWire : IsWireChange new_key
new_key-IsWire = record { key = (omega arith, tt); value = (omega arith, tt) }

five_fits : length (marshal_state block_five) < 2 ^ 63
unfolding marshal_state marshal_change put_len put_nonempty put_nonzero put_all encode_varint groups
five_fits = ground arith

block_five-IsWire : IsWireState block_five
block_five-IsWire = record {
  height = ground arith;
  validators = tt;
  votes = tt;
  distinct = tt;
  changes = (new_key-IsWire, tt);
  fits = five_fits;
}

five_decoded : decode_state sample (some five_bytes) ≡ (block_five, ok tt)
unfolding decode_state
five_decoded = rw (unmarshal-marshal_state block_five block_five-IsWire, decode_state) refl

five_found : block_state_at sample store_five (pos 5) ≡ ok (block_five, ok tt)
unfolding get_block_state find insert decode_state
five_found = rw (beq_refl (block_state_key (pos 5))) (ap ok five_decoded)

pub nothing_at : (k : Bytes) → sample.get [] k ≡ none
unfolding find
nothing_at k = refl

rollback_restores_example :
    (s : sample.Store) × (rollback_state sample (pos 5) store_five ≡ (ok tt, s))
    × ((j : Bytes)
        → besides sample (pos 5) s j
          ≡ (if set_first j (new_key ∷ []) then none else besides sample (pos 5) store_four j))
rollback_restores_example =
    rollback_restores sample (pos 5) store_four store_five block_five
      (save five_bytes (Tracked.insert 107 [] (codes "v") (some (codes "v")) start)) five_found

abbrev lost_change : BlockState
lost_change = with_change no_block_state (some (codes "k")) none false

lost_fits : length (marshal_state lost_change) < 2 ^ 63
unfolding marshal_state marshal_change put_len put_nonempty put_nonzero put_all encode_varint groups
lost_fits = ground arith

lost_change-IsWire : IsWireState lost_change
lost_change-IsWire = record {
  height = ground arith;
  validators = tt;
  votes = tt;
  distinct = tt;
  changes = (record { key = (omega arith, tt); value = (omega arith, tt) }, tt);
  fits = lost_fits;
}

seven_not_zero : pos 7 ≢ pos 0
seven_not_zero e = absurd (cc)

track_misses_example :
    (block_state_at sample
        (track_state_change sample (pos 7) (some (codes "k")) none false []).1
        (pos 7)
      ≡ ok (no_block_state, ok tt))
    × (block_state_at sample
          (track_state_change sample (pos 7) (some (codes "k")) none false []).1
          (pos 0)
        ≡ ok (lost_change, ok tt))
track_misses_example =
    track_misses sample [] (pos 7) (some (codes "k")) none false (ground arith) seven_not_zero
      (nothing_at (block_state_key (pos 7))) lost_change-IsWire

two_guesses : AllWire sample (a_guess ∷ a_guess ∷ [])
two_guesses = (a_guess-IsWire, (a_guess-IsWire, tt))

empty-IsKept : IsKept sample []
unfolding find
empty-IsKept k bz e = absurd (cc)

empty-IsKept_wordles : WordleListing.IsKept sample []
unfolding find
empty-IsKept_wordles k bz e = absurd (cc)

abbrev a_genesis : GenesisState
a_genesis = record {
  state_params = params;
  wordle_list = a_wordle ∷ [];
  guess_list = a_guess ∷ a_guess ∷ [];
}

export_genesis-init_genesis_example :
    ((init_genesis sample a_genesis []).0 ≡ ok tt)
    × ((exported : GenesisState) × ((export_genesis sample (init_genesis sample a_genesis []).1).0
          ≡ ok exported)
        × (exported.state_params ≡ params)
        × ((i : Bytes)
            → (ok (first_of guess_index i exported.guess_list)
                ≡ last_guess sample i a_genesis.guess_list (guess_at sample [] i))
              × (ok (first_of wordle_index i exported.wordle_list)
                  ≡ last_wordle i a_genesis.wordle_list (wordle_at sample [] i))))
export_genesis-init_genesis_example =
    export_genesis-init_genesis sample a_genesis [] (a_wordle-IsWire, tt) two_guesses
      empty-IsKept_wordles empty-IsKept
