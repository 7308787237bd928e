-- ===== src/Relay/Middleware/Refuses.antt =====
-- OnRecvPacket leaves the chain IDs empty, which QueuePacket requires.
use wordle.Prelude.{◌≡◌, ◌≢◌, inl, inr, arith}
use wordle.Exec.{ok, Error}
use wordle.Relay.{Context, Network}
use wordle.Relay.Queue.{validate_packet}
use wordle.Relay.Queue.Laws.{queue_packet_lem}
use wordle.Relay.Process.{World, Group}
use wordle.Relay.Middleware.{Packet, packet_info, error_acknowledgement, on_recv_packet}

packet_info-invalid : (packet : Packet) → validate_packet (packet_info packet) ≢ ok tt
unfolding validate_packet
packet_info-invalid packet = ground arith

module _ (network : Network) where
  -- OnRecvPacket answers every packet with an error, and queues and relays nothing.
  pub on_recv_packet_refuses :
      (group : Group (World network)) (ctx : Context) (packet : Packet) (w : World network)
      → (e : Error) × (on_recv_packet network group ctx packet w
          ≡ (ok (error_acknowledgement e), w))
  unfolding on_recv_packet
  on_recv_packet_refuses group ctx packet (h, n) =
      elim (queue_packet_lem network ctx (packet_info packet) h) [
        | inl (e, r) ↦ (e, rw r)
        | inr (v, _, _, _) ↦ absurd (packet_info-invalid packet v)
      ]
