-- ===== src/Keeper.antt =====
-- The keeper (x/wordle/keeper): the module's reads and writes of its store.
pub mod Entries
pub mod Guesses
pub mod Wordles
pub mod Tracking
pub mod Consensus
pub mod Letters
pub mod Decimal
pub mod MsgServer
pub mod Basic
pub mod Params
pub mod Genesis
pub mod History
pub mod Queries
