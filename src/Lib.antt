-- ===== src/Lib.antt =====
-- Verification of the wordle chain: the module x/wordle with its generated protobuf code, the IBC packet
-- relay and the fee handler.
--
-- A day's wordle is submitted by MsgSubmitWordle and guessed by MsgSubmitGuess. The handlers
-- (x/wordle/keeper/msg_server_*.go) read and write the keeper's entries (guess.go, wordle.go), which
-- stand in the module's KV store under the keys of x/wordle/types/key*.go, encoded by the generated
-- Marshal and Unmarshal (*.pb.go). The block hooks of x/wordle/module/module.go save consensus
-- information and commit or roll back a block from its tracked changes (state_tracking.go, consensus.go).
-- Apart from the module stand the relay of pkg/ibc/relay, which queues the packets of each channel and
-- sends them with retries, and the ante handler of app/ante, which takes the fee of each transaction.
--
--   * Prelude: shared names, Boolean tests, lists, signed integers of a width, byte strings.
--   * Exec: functions that may fail or panic, on an explicit state that keeps what was written.
--   * Types: the stored types, keys, messages, HasConsensus and the genesis state's validation.
--   * Pb: varints, the field loop that the generated Unmarshal methods share, and each message type: the
--     stored ones, those of Msg (tx.pb.go) and the genesis state. Termination is about their loops.
--   * Env: what the module takes from its dependencies, as operations with laws: the KV store, the
--     codec, the bank, address parsing, SHA-256, unicode.IsLetter and the pagination of the SDK.
--     Env/Generated makes the codec of the generated code; Env/Sample is a concrete environment.
--   * Keeper: Guesses, Wordles and Params (the entries; Entries has what they share), Genesis and
--     Queries (of one entry, and by pages), Tracking and Consensus (block states and rollback), Letters
--     (IsLetter over UTF-8), Decimal (strconv), MsgServer (the handlers), Basic (ValidateBasic of the
--     messages and NewKeeper). History has the life of the module, messages and block hooks in any
--     order, the rules of the game without a store, the ledger of its coins and the restart from an
--     exported genesis.
--   * Relay: Monitor (block times and the adaptive timeout), Expiry (isPacketTimedOut), Queue
--     (QueuePacket), Process (ProcessPackets down to relayWithRetry) and Middleware (OnRecvPacket).
--   * Ante: app/ante/fee_handler.go; Fees has the required fee, Handling the deduction and AnteHandle.
--   * Accounts: the validation of app/genesis_account.go.
--   * Api: the API types of api/wordle/wordle/*.pulsar.go that consist of texts, each by the table of its
--     fields, which their reflection and their ProtoMethods walk through in order. Api/Tx and Api/Query
--     have the transactions and the requests; Reflection and RoundTrip the laws of every table.
--   * Examples: runs on concrete inputs.
--
-- A Go string or byte slice is a list of bytes. A slice that is compared with nil is an Option. int32
-- and int64 arithmetic wraps around. A date is the text of the clock's day, an argument of the
-- handlers. The fuel of the field loop is the length of its input, since each field takes a byte at
-- least; a varint has at most ten groups; an int64 at most twenty decimal digits.
--
-- ProcessPackets runs a goroutine for each channel, and they write shared maps without a lock. The
-- errgroup that runs them is a parameter, Group in Relay/Process, whose laws are about one goroutine and
-- none; nothing is assumed of several. A packet is sent six times at most, so that the retries need no
-- fuel. The float64 of the adaptive timeout is rounded to 53 bits. What the relay sends over, its
-- context, the SDK's coins, 256-bit integers and keepers, and the runtime of cosmos-proto are parameters
-- with laws.
--
-- Not modelled: the interleavings of several goroutines of ProcessPackets, gRPC transport and
-- registration, the encoding of the queries, events, metrics and logging, the wiring of the application,
-- and the API types with lists, maps or messages inside.
pub mod Prelude
pub mod Exec
pub mod Types
pub mod Pb
pub mod Env
pub mod Keeper
pub mod Relay
pub mod Ante
pub mod Accounts
pub mod Api
pub mod Examples
