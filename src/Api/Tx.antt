-- ===== src/Api/Tx.antt =====
-- The messages of api/wordle/wordle/tx.pulsar.go that consist of texts. The records of the submissions
-- and of the answer are those of the handlers; two answers are empty.
pub mod Tables
pub mod Wire
pub mod SubmitWordleApi
pub mod SubmitGuessApi
pub mod GuessResponseApi
pub mod WordleResponseApi
pub mod UpdateResponseApi

pub data MsgSubmitWordleResponse : Type 0 where
  submit_wordle_response : MsgSubmitWordleResponse

pub data MsgUpdateParamsResponse : Type 0 where
  update_params_response : MsgUpdateParamsResponse
