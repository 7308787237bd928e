-- ===== src/Types/Messages.antt =====
-- The messages of x/wordle/types (tx.pb.go, message_*.go, msg_update_params.go).
use wordle.Prelude.{Bytes}
use wordle.Types.{Params}

pub record MsgSubmitWordle : Type 0 where
  pub creator : Bytes
  pub word : Bytes

pub record MsgSubmitGuess : Type 0 where
  pub creator : Bytes
  pub word : Bytes

pub record MsgUpdateParams : Type 0 where
  pub authority : Bytes
  pub new_params : Params

pub record MsgSubmitGuessResponse : Type 0 where
  pub title : Bytes
  pub body : Bytes
