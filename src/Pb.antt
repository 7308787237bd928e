-- ===== src/Pb.antt =====
-- The generated protobuf code of x/wordle/types (*.pb.go): sizes, marshalling and unmarshalling.
-- The generated files repeat the same routines; each is modelled once.
pub mod Varint
pub mod Field
pub mod GuessPb
pub mod WordlePb
pub mod InfoPb
pub mod ChangePb
pub mod StatePb
pub mod ParamsPb
pub mod TxPb
pub mod GenesisPb
pub mod Termination
