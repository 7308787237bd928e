-- ===== src/Examples.antt =====
-- Runs of the model on concrete inputs, in the environment of Env/Sample.antt.
pub mod Inputs
pub mod Game
pub mod History
pub mod Pb
pub mod Chain
pub mod Relay
pub mod Ante
pub mod Api
