-- ===== src/Relay/Queue/Laws.antt =====
-- QueuePacket: what it refuses, what it adds, and the order of each channel.
use wordle.Prelude.{
  ℕ, ◌<◌, ◌≡◌, ◌≢◌, ◌⊎◌, inl, inr, refl, arith, Bool, true, false, Option, some, List, Bytes, [],
  ◌∷◌, ◌++◌, beq, if◌then◌else◌, Bool-cases,
}
use wordle.Prelude.Maps.{lookup, put, lookup-put}
use wordle.Exec
use wordle.Exec.{Reply, ok, err, panic, Error}
use wordle.Relay.{PacketInfo, RelayHandler, Context, Network}
use wordle.Relay.Monitor.{or_empty}
use wordle.Relay.Expiry.{is_packet_timed_out}
use wordle.Relay.Queue.{
  validate_packet, channel_id, behind_last, check_order, enqueued, waiting, queue_packet,
}

-- The sequence numbers of a channel rise.
abbrev pub IsOrdered : List PacketInfo → Type 0
IsOrdered [] = Unit {0}
IsOrdered (p ∷ []) = Unit {0}
IsOrdered (p ∷ q ∷ ps) = (p.sequence < q.sequence) × IsOrdered (q ∷ ps)

append-IsOrdered :
    (ps : List PacketInfo) (p : PacketInfo)
    → IsOrdered ps
    → behind_last p.sequence ps ≡ false
    → IsOrdered (ps ++ p ∷ [])
unfolding behind_last
append-IsOrdered [] p o h = tt
append-IsOrdered (q ∷ []) p o h = (ground arith, tt)
append-IsOrdered (q ∷ r ∷ ps) p (lt, o) h = (lt, append-IsOrdered (r ∷ ps) p o h)

-- Where the packets of each channel stand in order.
abbrev pub IsQueue : RelayHandler → Type 0
IsQueue h = (channel : Bytes) → IsOrdered (waiting h channel)

-- A check that gives an error or lets the packet pass.
abbrev Decides : Reply (Unit {0}) → Type 0
Decides r = ((e : Error) × (r ≡ err e)) ⊎ (r ≡ ok tt)

without_panic : (r : Reply (Unit {0})) → r ≢ panic → Decides r
without_panic (ok tt) n = inr refl
without_panic (err e) n = inl (e, refl)
without_panic panic n = absurd (n refl)

validate_packet-ne-panic : (packet : PacketInfo) → validate_packet packet ≢ panic
unfolding validate_packet
validate_packet-ne-panic packet = ground arith

check_order-ne-panic : (n : ℕ) (packets : List PacketInfo) → check_order n packets ≢ panic
unfolding check_order
check_order-ne-panic n packets = ground arith

check_order-ok :
    (n : ℕ) (packets : List PacketInfo)
    → check_order n packets ≡ ok tt
    → behind_last n packets ≡ false
unfolding check_order
check_order-ok n packets h = ground arith

chosen :
    (b : Bool) (ps : List PacketInfo) (q : Option (List PacketInfo))
    → IsOrdered ps
    → IsOrdered (or_empty q)
    → IsOrdered (or_empty (if b then some ps else q))
chosen true ps q h k = h
chosen false ps q h k = k

module _ (network : Network) where
  -- A packet that is not valid, has expired, is known to its channel or stands behind its last one is
  -- refused, and the handler stays as it is. Any other packet is put at the end of its channel, pending
  -- since the block's time, and the other channels stay as they are.
  pub queue_packet_lem :
      (ctx : Context) (packet : PacketInfo) (h : RelayHandler)
      → ((e : Error) × (queue_packet network ctx packet h ≡ (err e, h)))
        ⊎ ((validate_packet packet ≡ ok tt)
            × (is_packet_timed_out network ctx packet ≡ false)
            × (check_order packet.sequence (waiting h (channel_id packet)) ≡ ok tt)
            × (queue_packet network ctx packet h ≡ (
              ok tt,
              record h {
                pending_packets =
                    put
                      (channel_id packet)
                      (waiting h (channel_id packet) ++ enqueued ctx packet ∷ [])
                      h.pending_packets;
              },
            )))
  unfolding queue_packet
  queue_packet_lem ctx packet h =
      elim (without_panic (validate_packet packet) (validate_packet-ne-panic packet)) [
        | inl (e, v) ↦ inl (e, rw v)
        | inr v ↦ elim (Bool-cases (is_packet_timed_out network ctx packet)) [
          | inl t ↦ inl (Exec.packet_expired, rw (v, t))
          | inr t ↦
              elim (without_panic (check_order packet.sequence (waiting h (channel_id packet)))
                (check_order-ne-panic packet.sequence (waiting h (channel_id packet)))) [
                  | inl (e, c) ↦ inl (e, rw (v, t, c))
                  | inr c ↦ inr (v, t, c, rw (v, t, c))
                ]
        ]
      ]

  -- QueuePacket keeps the packets of every channel in the order of their sequence numbers.
  pub queue_packet-IsQueue :
      (ctx : Context) (packet : PacketInfo) (h : RelayHandler)
      → IsQueue h
      → IsQueue (queue_packet network ctx packet h).1
  queue_packet-IsQueue ctx packet h o channel = elim (queue_packet_lem ctx packet h) [
    | inl (e, same) ↦ rw same (o channel)
    | inr (v, t, c, added) ↦
        let old = waiting h (channel_id packet) in
        rw
          (
            added,
            lookup-put (channel_id packet) channel (old ++ enqueued ctx packet ∷ [])
                h.pending_packets,
          )
          (chosen (beq (channel_id packet) channel) (old ++ enqueued ctx packet ∷ [])
            (lookup channel h.pending_packets)
            (append-IsOrdered old (enqueued ctx packet) (o (channel_id packet))
              (check_order-ok packet.sequence old c))
            (o channel))
  ]
