-- ===== src/Relay.antt =====
-- The packet relay (pkg/ibc/relay/handler.go): its packets, its state and what it takes from outside.
-- Metrics and telemetry, which nothing reads back, are left out; the mutexes make each of the exported
-- methods one step.
pub mod Monitor
pub mod Expiry
pub mod Queue
pub mod Process
pub mod Middleware
use wordle.Prelude.{ℕ, ◌+◌, ◌^◌, ◌<◌, ◌≡◌, Bool, ◌&&◌, ◌==◌, Option, List, Bytes, []}
use wordle.Prelude.Int.{ℤ, pos}
use wordle.Prelude.Maps.{Map}
use wordle.Exec.{Error, Exec}

-- clienttypes.Height
pub record Height : Type 0 where
  pub revision_number : ℕ
  pub revision_height : ℕ

pub data PacketStatus : Type 0 where
  packet_pending packet_sent packet_acked packet_timed_out : PacketStatus

-- A time is in nanoseconds since 1970; `data` is none for nil.
pub record PacketInfo : Type 0 where
  pub sequence : ℕ
  pub source_port : Bytes
  pub source_chan : Bytes
  pub source_chain_id : Bytes
  pub dest_port : Bytes
  pub dest_chan : Bytes
  pub dest_chain_id : Bytes
  pub payload : Option Bytes
  pub timeout_height : Height
  pub timeout_timestamp : ℕ
  pub retry_count : ℤ
  pub first_attempt : ℤ
  pub status : PacketStatus
  pub last_retry : ℤ

-- The last block times of each chain, and their averages in nanoseconds.
pub record BlockTimeMonitor : Type 0 where
  pub block_times : Map (List ℤ)
  pub avg_block_times : Map ℤ

-- The maps by channel.
pub record RelayHandler : Type 0 where
  pub min_timeout : ℤ
  pub pending_packets : Map (List PacketInfo)
  pub acks : Map (List ℕ)
  pub timeouts : Map (List ℕ)
  pub block_monitor : BlockTimeMonitor

abbrev pub new_relay_handler : ℤ → RelayHandler
new_relay_handler min_timeout = record {
  min_timeout = min_timeout;
  pending_packets = [];
  acks = [];
  timeouts = [];
  block_monitor = record { block_times = []; avg_block_times = [] };
}

-- What the relay reads of an sdk.Context.
pub record Context : Type 0 where
  pub block_height : ℤ
  pub block_time : ℤ

-- The world outside of the handler: the context's Done channel, and `relayPacketFn`.
pub record Network : Type 1 where
  pub Net : Type 0
  pub cancelled : Net → Option Error
  pub send : Context → PacketInfo → ℤ → Exec Net (Unit {0})
  -- clienttypes.Height.IsZero
  pub is_zero_height : Height → Bool
  pub is_zero_height_lem :
      (h : Height) → is_zero_height h ≡ ((h.revision_number == 0) && (h.revision_height == 0))
  -- A float64 beyond int64, converted to int64.
  pub too_big : ℤ
