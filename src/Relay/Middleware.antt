-- ===== src/Relay/Middleware.antt =====
-- pkg/ibc/relay/middleware.go, and relayPacket, the function that a new handler sends with.
pub mod Refuses
pub mod Delivers
pub mod Emptied
pub mod Relayed
use wordle.Prelude.{ℕ, ◌^◌, Bool, false, none, Option, some, List, Bytes, codes, [], ◌∷◌}
use wordle.Prelude.Int.{ℤ, pos, pattern_of}
use wordle.Exec.{Reply, ok, err, panic, Error, Exec, continue, ◌>>=◌, ◌>>◌}
use wordle.Exec
use wordle.Relay.{PacketInfo, packet_pending, Height, RelayHandler, Context, Network}
use wordle.Relay.Queue.{queue_packet}
use wordle.Relay.Process.{World, Group, process_packets}

-- channeltypes.Packet
pub record Packet : Type 0 where
  pub sequence : ℕ
  pub source_port : Bytes
  pub source_channel : Bytes
  pub destination_port : Bytes
  pub destination_channel : Bytes
  pub payload : Option Bytes
  pub timeout_height : Height
  pub timeout_timestamp : ℕ

pub data Acknowledgement : Type 0 where
  error_acknowledgement : Error → Acknowledgement
  result_acknowledgement : Bytes → Acknowledgement

-- The fields that the literal of OnRecvPacket leaves out are zero: both chain IDs are empty.
abbrev pub packet_info : Packet → PacketInfo
packet_info packet = record {
  sequence = packet.sequence;
  source_port = packet.source_port;
  source_chan = packet.source_channel;
  source_chain_id = [];
  dest_port = packet.destination_port;
  dest_chan = packet.destination_channel;
  dest_chain_id = [];
  payload = packet.payload;
  timeout_height = packet.timeout_height;
  timeout_timestamp = packet.timeout_timestamp;
  retry_count = pos 0;
  first_attempt = pos 0;
  status = packet_pending;
  last_retry = pos 0;
}

-- The packet that relayPacket submits.
abbrev pub ibc_packet : PacketInfo → Packet
ibc_packet p = record {
  sequence = p.sequence;
  source_port = p.source_port;
  source_channel = p.source_chan;
  destination_port = p.dest_port;
  destination_channel = p.dest_chan;
  payload = p.payload;
  timeout_height = p.timeout_height;
  timeout_timestamp = p.timeout_timestamp;
}

module _ {Net : Type 0} where
  -- The two stand-ins of the source.
  unfoldable pub query_packet_commitment_proof : PacketInfo → Height → Exec Net Bytes
  query_packet_commitment_proof packet proof_height = Exec.pure (codes "mock proof")

  unfoldable pub submit_recv_packet : Packet → Bytes → Height → Exec Net (Unit {0})
  submit_recv_packet packet proof proof_height = Exec.pure tt

  -- Errors are wrapped with a text, which is left out.
  unfoldable pub relay_packet : Context → PacketInfo → ℤ → Exec Net (Unit {0})
  unfolding query_packet_commitment_proof submit_recv_packet
  relay_packet ctx packet timeout = do
    let proof_height : Height = record {
      revision_number = 0;
      revision_height = pattern_of 64 ctx.block_height;
    }
    proof ← query_packet_commitment_proof packet proof_height
    submit_recv_packet (ibc_packet packet) proof proof_height

-- The acknowledgement of a reply; a panic stays one.
abbrev pub acknowledge : Reply (Unit {0}) → Reply Acknowledgement
acknowledge (ok t) = ok (result_acknowledgement (1 ∷ []))
acknowledge (err e) = ok (error_acknowledgement e)
acknowledge panic = panic

module _ (network : Network) where
  open network use {Net}

  abbrev pub on_handler : {A : Type 0} → Exec RelayHandler A → Exec (World network) A
  on_handler m (h, n) = let (r, h') = m h in (r, (h', n))

  unfoldable pub on_recv_packet :
      Group (World network) → Context → Packet → Exec (World network) Acknowledgement
  unfolding process_packets
  on_recv_packet group ctx packet w =
      let (r, w') =
        (do
          on_handler (queue_packet network ctx (packet_info packet))
          process_packets network group ctx)
          w in
      (acknowledge r, w')

-- The callbacks of the handshake: the version is taken as it is proposed.
unfoldable pub on_chan_open_init : Bytes → Bytes → Bytes → Reply Bytes
on_chan_open_init port channel version = ok version

unfoldable pub on_chan_open_try : Bytes → Bytes → Bytes → Reply Bytes
on_chan_open_try port channel counterparty_version = ok counterparty_version
