-- ===== src/Examples/Pb.antt =====
-- Examples of the generated code: messages written and read back.
use wordle.Prelude.{
  ◌^◌, ◌<◌, ◌≡◌, ◌≢◌, Bytes, refl, arith, codes, [], ◌∷◌, length, true, false, none, some, beq,
}
use wordle.Prelude.Int.{pos, negsuc}
use wordle.Types.{Wordle, Guess, BlockState, StateChange, ConsensusInfo, IsWireGuess, IsWireWordle}
use wordle.Types.{IsWireInfo, IsWireChange}
use wordle.Pb.Varint.{ok, encode_varint, groups}
use wordle.Pb.GuessPb.{marshal_guess, unmarshal_guess}
use wordle.Pb.InfoPb.{unmarshal_info}
use wordle.Pb.ChangePb.{marshal_change}
use wordle.Pb.StatePb.{marshal_state, unmarshal_state, IsWireState, marshal_vote}
use wordle.Pb.StatePb.RoundTrip.{unmarshal-marshal_state}
use wordle.Pb.Termination.{unmarshal_ends}
use wordle.Pb.Varint.{stuck}
use wordle.Pb.WordlePb.{unmarshal_wordle}
use wordle.Pb.ChangePb.{unmarshal_change}
use wordle.Pb.GenesisPb.{
  marshal_genesis, unmarshal_genesis, unmarshal-marshal_genesis, IsWireGenesis,
}
use wordle.Types.Genesis.{GenesisState}
use wordle.Types.{params}
use wordle.Pb.ParamsPb.{marshal_params}
use wordle.Pb.WordlePb.{marshal_wordle}
use wordle.Pb.TxPb.{unmarshal_submit_wordle, unmarshal_submit_guess, unmarshal_update_params}
use wordle.Pb.Field.{put_len, put_nonempty, put_nonzero, put_all}

abbrev pub a_guess : Guess
a_guess = record {
  index = codes "i1";
  word = codes "w";
  submitter = codes "bob";
  count = codes "3";
}

pub a_guess-IsWire : IsWireGuess a_guess
a_guess-IsWire = record {
  index = ground arith;
  word = ground arith;
  submitter = ground arith;
  count = ground arith;
}

abbrev pub a_wordle : Wordle
a_wordle = record { index = codes "i1"; word = codes "w"; submitter = codes "" }

pub a_wordle-IsWire : IsWireWordle a_wordle
a_wordle-IsWire = record { index = ground arith; word = ground arith; submitter = ground arith }

abbrev pub an_info : ConsensusInfo
an_info = record { total_validators = pos 4; voted_yes = negsuc 0; height = pos 300 }

pub an_info-IsWire : IsWireInfo an_info
an_info-IsWire = ground arith

abbrev pub a_change : StateChange
a_change = record { key = some (codes "k"); value = none; is_deleted = true }

pub a_change-IsWire : IsWireChange a_change
a_change-IsWire = record { key = (omega arith, tt); value = (omega arith, tt) }

abbrev pub a_state : BlockState
a_state = record {
  height = pos 5;
  validators = codes "v1" ∷ [];
  votes = (codes "v1", true) ∷ (codes "v2", false) ∷ [];
  changes = a_change ∷ [];
}

votes_differ : beq (codes "v1") (codes "v2") ≡ false
unfolding beq
votes_differ = refl

state_length : length (marshal_state a_state) < 2 ^ 63
unfolding marshal_state marshal_vote marshal_change put_len put_nonempty put_nonzero put_all
    encode_varint groups
state_length = ground arith

pub a_state-IsWire : IsWireState a_state
a_state-IsWire = record {
  height = ground arith;
  validators = ground arith;
  votes = ground arith;
  distinct = ((votes_differ, tt), (tt, tt));
  changes = (a_change-IsWire, tt);
  fits = state_length;
}

unmarshal-marshal_state_example : unmarshal_state (marshal_state a_state) ≡ ok a_state
unmarshal-marshal_state_example = unmarshal-marshal_state a_state a_state-IsWire

-- A length past the end of the buffer, behind an unknown group.
abbrev torn : Bytes
torn = 0x3b ∷ 0x08 ∷ 0x01 ∷ 0x3c ∷ 0x0a ∷ 0xc8 ∷ []

unmarshal_ends_example :
    (unmarshal_guess torn ≢ stuck)
    × (unmarshal_wordle torn ≢ stuck)
    × (unmarshal_info torn ≢ stuck)
    × (unmarshal_change torn ≢ stuck)
    × (unmarshal_state torn ≢ stuck)
    × (unmarshal_genesis torn ≢ stuck)
    × (unmarshal_submit_wordle torn ≢ stuck)
    × (unmarshal_submit_guess torn ≢ stuck)
    × (unmarshal_update_params torn ≢ stuck)
unmarshal_ends_example = unmarshal_ends torn

-- A wordle and two guesses.
abbrev listed : GenesisState
listed = record {
  state_params = params;
  wordle_list = a_wordle ∷ [];
  guess_list = a_guess ∷ a_guess ∷ [];
}

listed-IsWire : IsWireGenesis listed
unfolding marshal_genesis marshal_params marshal_wordle marshal_guess put_len put_all put_nonempty
    encode_varint groups
listed-IsWire = record {
  wordles = ((a_wordle-IsWire, ground arith), tt);
  guesses = ((a_guess-IsWire, ground arith), ((a_guess-IsWire, ground arith), tt));
  fits = ground arith;
}

unmarshal-marshal_genesis_example : unmarshal_genesis (marshal_genesis listed) ≡ ok listed
unmarshal-marshal_genesis_example = unmarshal-marshal_genesis listed listed-IsWire
