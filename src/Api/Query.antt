-- ===== src/Api/Query.antt =====
-- The requests of api/wordle/wordle/query.pulsar.go that consist of texts.
pub mod Tables
pub mod WordleRequestApi
pub mod GuessRequestApi
pub mod ParamsRequestApi
use wordle.Prelude.{Bytes}

pub record QueryGetWordleRequest : Type 0 where
  pub index : Bytes

pub record QueryGetGuessRequest : Type 0 where
  pub index : Bytes

pub data QueryParamsRequest : Type 0 where
  query_params_request : QueryParamsRequest
