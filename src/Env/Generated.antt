-- ===== src/Env/Generated.antt =====
-- The generated protobuf code as the codec of the module: each message type meets the interface.
use wordle.Prelude.{refl, ap}
use wordle.Exec.{Reply, ok, err, external, panic}
use wordle.Types.{
  Wordle, Guess, Params, BlockState, ConsensusInfo, IsWireGuess, IsWireWordle, IsWireInfo,
}
use wordle.Env.{Codec}
use wordle.Pb.Varint.{Decoded}
use wordle.Pb.GuessPb.{marshal_guess, unmarshal_guess, unmarshal-marshal_guess}
use wordle.Pb.WordlePb.{marshal_wordle, unmarshal_wordle, unmarshal-marshal_wordle}
use wordle.Pb.InfoPb.{marshal_info, unmarshal_info, unmarshal-marshal_info}
use wordle.Pb.ParamsPb.{marshal_params, unmarshal_params, unmarshal-marshal_params}
use wordle.Pb.StatePb.{marshal_state, unmarshal_state, IsWireState}
use wordle.Pb.StatePb.RoundTrip.{unmarshal-marshal_state}

abbrev pub reply_of : {A : Type 0} → Decoded A → Reply A
reply_of (Decoded.ok a) = ok a
reply_of (Decoded.err e) = err (external 2)
reply_of Decoded.stuck = panic

abbrev pub guess_codec : Codec Guess IsWireGuess
guess_codec = record {
  marshal = λ g. ok (marshal_guess g);
  unmarshal = λ bz. reply_of (unmarshal_guess bz);
  read_back = λ g w. (marshal_guess g, refl, ap reply_of (unmarshal-marshal_guess g w));
}

abbrev pub wordle_codec : Codec Wordle IsWireWordle
wordle_codec = record {
  marshal = λ g. ok (marshal_wordle g);
  unmarshal = λ bz. reply_of (unmarshal_wordle bz);
  read_back = λ g w. (marshal_wordle g, refl, ap reply_of (unmarshal-marshal_wordle g w));
}

abbrev pub info_codec : Codec ConsensusInfo IsWireInfo
info_codec = record {
  marshal = λ g. ok (marshal_info g);
  unmarshal = λ bz. reply_of (unmarshal_info bz);
  read_back = λ g w. (marshal_info g, refl, ap reply_of (unmarshal-marshal_info g w));
}

abbrev pub state_codec : Codec BlockState IsWireState
state_codec = record {
  marshal = λ g. ok (marshal_state g);
  unmarshal = λ bz. reply_of (unmarshal_state bz);
  read_back = λ g w. (marshal_state g, refl, ap reply_of (unmarshal-marshal_state g w));
}

abbrev pub params_codec : Codec Params (λ p. Unit {0})
params_codec = record {
  marshal = λ g. ok (marshal_params g);
  unmarshal = λ bz. reply_of (unmarshal_params bz);
  read_back = λ g w. (marshal_params g, refl, ap reply_of (unmarshal-marshal_params g));
}
