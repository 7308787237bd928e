-- ===== src/Relay/Queue.antt =====
-- validatePacket and QueuePacket.
pub mod Laws
pub mod Meaning
use wordle.Prelude.{
  ℕ, ◌≡◌, refl, Bool, true, false, Option, none, some, List, Bytes, codes, [], ◌∷◌, ◌++◌, leb, ◌==◌,
  if◌then◌else◌,
}
use wordle.Prelude.Maps.{Map, lookup, put}
use wordle.Exec
use wordle.Exec.{Reply, ok, err, panic, Error, Exec, ◌>>=◌, ◌>>◌}
use wordle.Relay.{PacketInfo, PacketStatus, packet_pending, RelayHandler, Context, Network}
use wordle.Relay.Monitor.{or_empty}
use wordle.Relay.Expiry.{is_packet_timed_out}

abbrev pub is_empty : Bytes → Bool
is_empty [] = true
is_empty (b ∷ bs) = false

abbrev pub is_nil : Option Bytes → Bool
is_nil none = true
is_nil (some bs) = false

unfoldable pub validate_packet : PacketInfo → Reply (Unit {0})
validate_packet packet =
    if packet.sequence == 0
    then err Exec.bad_sequence
    else if is_empty packet.source_port
    then err Exec.missing_source_port
    else if is_empty packet.source_chan
    then err Exec.missing_source_channel
    else if is_empty packet.source_chain_id
    then err Exec.missing_source_chain
    else if is_empty packet.dest_port
    then err Exec.missing_dest_port
    else if is_empty packet.dest_chan
    then err Exec.missing_dest_channel
    else if is_empty packet.dest_chain_id
    then err Exec.missing_dest_chain
    else if is_nil packet.payload
    then err Exec.missing_data
    else ok tt

-- `fmt.Sprintf("%s/%s", packet.SourcePort, packet.SourceChan)`
abbrev pub channel_id : PacketInfo → Bytes
channel_id packet = packet.source_port ++ codes "/" ++ packet.source_chan

unfoldable pub has_sequence : ℕ → List PacketInfo → Bool
has_sequence n [] = false
has_sequence n (p ∷ ps) = let rest = has_sequence n ps in if p.sequence == n then true else rest

-- `packet.Sequence <= packets[len(packets)-1].Sequence`
unfoldable pub behind_last : ℕ → List PacketInfo → Bool
behind_last n [] = false
behind_last n (p ∷ []) = leb n p.sequence
behind_last n (p ∷ q ∷ ps) = behind_last n (q ∷ ps)

-- The checks against the packets that wait in the channel.
unfoldable pub check_order : ℕ → List PacketInfo → Reply (Unit {0})
unfolding has_sequence behind_last
check_order n packets =
    if has_sequence n packets
    then err Exec.duplicate_packet
    else if behind_last n packets
    then err Exec.packet_out_of_order
    else ok tt

abbrev pub enqueued : Context → PacketInfo → PacketInfo
enqueued ctx packet = record packet { status = packet_pending; first_attempt = ctx.block_time }

abbrev pub waiting : RelayHandler → Bytes → List PacketInfo
waiting h channel = or_empty (lookup channel h.pending_packets)

module _ (network : Network) where
  unfoldable pub queue_packet : Context → PacketInfo → Exec RelayHandler (Unit {0})
  unfolding validate_packet check_order is_packet_timed_out
  queue_packet ctx packet = do
    Exec.lift (validate_packet packet)
    Exec.lift (if is_packet_timed_out network ctx packet then err Exec.packet_expired else ok tt)
    packets ← Exec.gets (λ h. waiting h (channel_id packet))
    Exec.lift (check_order packet.sequence packets)
    Exec.modify (λ h. record h {
      pending_packets =
          put (channel_id packet) (packets ++ enqueued ctx packet ∷ []) h.pending_packets;
    })
