-- ===== src/Examples/Relay.antt =====
-- Runs of the relay over a network that fails a number of times before it sends.
use wordle.Prelude.{
  ℕ, Bool, if◌then◌else◌, ◌<◌, zero, suc, ◌+◌, ◌≡◌, ◌≢◌, ◌↔◌, ◌⊎◌, ◌≤◌, inl, refl, arith, true,
  false, ◌&&◌, ◌==◌, none, some, List, Bytes, codes, [], ◌-◌, ◌*◌, ◌^◌, ◌∷◌, ◌++◌, All, beq,
}
use mathlib.Core.List.{Perm}
use wordle.Prelude.Int.{ℤ, pos, negsuc}
use wordle.Prelude.Maps.{lookup, put}
use wordle.Exec.{ok, err, Error, external, Exec, ◌>>=◌}
use wordle.Relay.{PacketInfo, packet_pending, RelayHandler, new_relay_handler, Context, Network}
use wordle.Relay.Monitor.{or_empty, calculate_adaptive_timeout}
use wordle.Relay.Monitor.Laws.{adaptive_timeout_exact, slower}
use wordle.Relay.Expiry.{is_packet_timed_out}
use wordle.Relay.Expiry.Laws.{is_packet_timed_out_iff}
use wordle.Relay.Queue.{waiting, queue_packet}
use wordle.Relay.Queue.Laws.{IsQueue, queue_packet-IsQueue}
use wordle.Relay.Process.{
  World, Group, process_packets, process_channel_packets, process_loop, relay_with_retry,
  last_reply,
}
use wordle.Relay.Process.Channel.{process_channel_conserves, besides}
use wordle.Relay.Process.Conserves.{sequences}
use wordle.Relay.Process.Tries.{IsTried, runs_left, process_loop-runs}
use wordle.Relay.Process.Sending.{Failed, no_attempt, failed, relay_with_retry_lem}
use wordle.Relay.Middleware.{Packet, on_recv_packet, error_acknowledgement}
use wordle.Relay.Middleware.Delivers.{default_network, split_sequences}
use wordle.Relay.Middleware.Emptied.{IsSorted, process_channel_delivers}
use wordle.Relay.Middleware.Relayed.{process_packets-queue_packet}
use wordle.Relay.Queue.Meaning.{IsComplete, Wrong, queue_packet_decides}
use wordle.Relay.Middleware.Refuses.{on_recv_packet_refuses}

abbrev flaky : Context → PacketInfo → ℤ → Exec ℕ (Unit {0})
flaky ctx packet timeout zero = (ok tt, 0)
flaky ctx packet timeout (suc n) = (err (external 1), n)

abbrev network : Network
network = record {
  Net = ℕ;
  cancelled = λ n. none;
  send = flaky;
  is_zero_height = λ h. (h.revision_number == 0) && (h.revision_height == 0);
  is_zero_height_lem = λ h. refl;
  too_big = negsuc (2 ^ 63 - 1);
}

abbrev ctx : Context
ctx = record { block_height = pos 10; block_time = pos 1000 }

abbrev packet : ℕ → ℕ → PacketInfo
packet sequence timestamp = record {
  sequence = sequence;
  source_port = codes "p";
  source_chan = codes "c";
  source_chain_id = codes "a";
  dest_port = codes "p";
  dest_chan = codes "d";
  dest_chain_id = codes "b";
  payload = some [];
  timeout_height = record { revision_number = 0; revision_height = 0 };
  timeout_timestamp = timestamp;
  retry_count = pos 0;
  first_attempt = pos 0;
  status = packet_pending;
  last_retry = pos 0;
}

abbrev new_handler : RelayHandler
new_handler = new_relay_handler (pos 5)

abbrev packets : List PacketInfo
packets = packet 2 0 ∷ packet 1 0 ∷ packet 3 999 ∷ []

-- The network fails six times on packet 1, then sends packet 2; packet 3 has expired.
abbrev after_run : RelayHandler
after_run = record {
  min_timeout = pos 5;
  pending_packets = (codes "p/c", record (packet 1 0) { retry_count = pos 1 } ∷ []) ∷ [];
  acks = (codes "p/c", 2 ∷ []) ∷ [];
  timeouts = (codes "p/c", 3 ∷ []) ∷ [];
  block_monitor = new_handler.block_monitor;
}

run :
    process_channel_packets network false ctx (codes "p/c") packets (new_handler, 6)
    ≡ (ok tt, (after_run, 0))
unfolding process_channel_packets beq put lookup
run = refl

process_channel_conserves_example :
    (acked : List ℕ) × (lost : List ℕ) × (or_empty (lookup (codes "p/c") after_run.acks) ≡ acked)
    × (or_empty (lookup (codes "p/c") after_run.timeouts) ≡ lost)
    × Perm (sequences packets) (acked ++ (lost ++ sequences (waiting after_run (codes "p/c"))))
    × ((j : Bytes)
        → (besides (codes "p/c") after_run.acks j ≡ besides (codes "p/c") [] j)
          × (besides (codes "p/c") after_run.timeouts j ≡ besides (codes "p/c") [] j)
          × (besides (codes "p/c") after_run.pending_packets j ≡ besides (codes "p/c") [] j))
unfolding lookup
process_channel_conserves_example =
    process_channel_conserves network false ctx (codes "p/c") packets new_handler after_run 6 0 run

tries_left : All IsTried packets
tries_left = ((0, refl, omega arith), ((0, refl, omega arith), ((0, refl, omega arith), tt)))

abbrev sorted : List PacketInfo
sorted = packet 1 0 ∷ packet 2 0 ∷ packet 3 999 ∷ []

loop_run : process_loop network false ctx (codes "p/c") sorted (new_handler, 6) ≡ (
  ok (record (packet 1 0) { retry_count = pos 1 } ∷ []),
  (record after_run { pending_packets = [] }, 0),
)
unfolding process_loop beq put lookup
loop_run = refl

process_loop-runs_example :
    All IsTried (record (packet 1 0) { retry_count = pos 1 } ∷ [])
    × (runs_left (record (packet 1 0) { retry_count = pos 1 } ∷ []) + 3 ≤ runs_left sorted)
process_loop-runs_example =
    process_loop-runs network false ctx (codes "p/c") sorted
      (record (packet 1 0) { retry_count = pos 1 } ∷ []) new_handler
      (record after_run { pending_packets = [] }) 6 0 tries_left loop_run

-- Two failures, then a success.
two_failures : Failed network ctx (packet 1 0) (pos 5) 2 2 0
two_failures = failed (external 1) refl refl (failed (external 1) refl refl no_attempt)

relay_with_retry_lem_example :
    relay_with_retry network false ctx (packet 1 0) (pos 5) 2 ≡ (last_reply (ok tt), 0)
relay_with_retry_lem_example =
    relay_with_retry_lem network ctx (packet 1 0) (pos 5) 2 2 0 0 (ok tt) two_failures refl refl
      (inl (refl, omega arith))

new_handler-IsQueue : IsQueue new_handler
unfolding lookup
new_handler-IsQueue channel = tt

queue_packet-IsQueue_example : IsQueue (queue_packet network ctx (packet 3 0) new_handler).1
queue_packet-IsQueue_example =
    queue_packet-IsQueue network ctx (packet 3 0) new_handler new_handler-IsQueue

-- Packet 2 waits already.
abbrev busy : RelayHandler
busy = (queue_packet network ctx (packet 2 0) new_handler).1

queue_packet_decides_example :
    ((e : Error) × (queue_packet network ctx (packet 3 0) busy ≡ (err e, busy))
      × Wrong network ctx (packet 3 0) (waiting busy (codes "p/c")) e)
    ⊎ (IsComplete (packet 3 0)
        × (is_packet_timed_out network ctx (packet 3 0) ≡ false)
        × All (λ (q : PacketInfo). q.sequence < 3) (waiting busy (codes "p/c"))
        × (h' : RelayHandler) × (queue_packet network ctx (packet 3 0) busy ≡ (ok tt, h'))
        × ((channel : Bytes)
            → waiting h' channel ≡ (
                if beq (codes "p/c") channel
                then waiting busy (codes "p/c")
                  ++ record (packet 3 0) { first_attempt = ctx.block_time } ∷ []
                else waiting busy channel))
        × (h'.acks ≡ busy.acks)
        × (h'.timeouts ≡ busy.timeouts))
queue_packet_decides_example =
    queue_packet_decides network ctx (packet 3 0) busy
      (queue_packet-IsQueue network ctx (packet 2 0) new_handler new_handler-IsQueue)

abbrev received : Packet
received = record {
  sequence = 1;
  source_port = codes "p";
  source_channel = codes "c";
  destination_port = codes "p";
  destination_channel = codes "d";
  payload = some [];
  timeout_height = record { revision_number = 0; revision_height = 0 };
  timeout_timestamp = 0;
}

-- A group that runs its functions one after the other, up to the first error.
all_in_turn : {W : Type 0} → List (Bool → Exec W (Unit {0})) → Exec W (Unit {0})
all_in_turn [] w = (ok tt, w)
all_in_turn (g ∷ []) w = g false w
all_in_turn (g ∷ g' ∷ gs) w = (g false >>= λ _. all_in_turn (g' ∷ gs)) w

abbrev in_turn : (W : Type 0) → Group W
unfolding all_in_turn
in_turn W = record { wait = all_in_turn; wait_none = λ w. refl; wait_one = λ g w. refl }

on_recv_packet_refuses_example :
    (e : Error) × (on_recv_packet network (in_turn (World network)) ctx received (new_handler, 0)
      ≡ (ok (error_acknowledgement e), (new_handler, 0)))
on_recv_packet_refuses_example =
    on_recv_packet_refuses network (in_turn (World network)) ctx received (new_handler, 0)

is_packet_timed_out_iff_example :
    (is_packet_timed_out network ctx (packet 1 999) ≡ true)
    ↔ ((((0 == 0) && (0 == 0) ≡ false) × (0 ≤ 10)) ⊎ ((◌≢◌ {A = ℕ} 999 0) × (999 ≤ 1000)))
is_packet_timed_out_iff_example =
    is_packet_timed_out_iff network 10 1000 (packet 1 999) (omega arith) (omega arith) (omega arith)
      (omega arith)

adaptive_timeout_exact_example :
    calculate_adaptive_timeout network (pos 5) (pos 100) (pos 130)
    ≡ pos (slower 100 130 + 3 * 30 + 5)
adaptive_timeout_exact_example =
    adaptive_timeout_exact network 5 100 130 (omega arith) (omega arith) (omega arith)

-- The network of a new handler, under a context that is never cancelled.
abbrev the_network : Network
the_network =
    default_network {Net = Unit {0}} (λ n. none) network.is_zero_height network.is_zero_height_lem
      network.too_big

abbrev split : List PacketInfo → List ℕ
split =
    split_sequences {Net = Unit {0}} (λ n. none) network.is_zero_height network.is_zero_height_lem
      network.too_big false ctx

abbrev expired : List PacketInfo → List ℕ
expired =
    split_sequences {Net = Unit {0}} (λ n. none) network.is_zero_height network.is_zero_height_lem
      network.too_big true ctx

process_channel_delivers_example :
    (h' : RelayHandler) × (process_channel_packets the_network false ctx
        (codes "p/c")
        packets
        (new_handler, tt)
      ≡ (ok tt, (h', tt)))
    × (sorted : List PacketInfo) × Perm packets sorted
    × IsSorted sorted
    × (or_empty (lookup (codes "p/c") h'.acks) ≡ split sorted)
    × (or_empty (lookup (codes "p/c") h'.timeouts) ≡ expired sorted)
    × (lookup (codes "p/c") h'.pending_packets ≡ none)
    × ((j : Bytes)
        → (besides (codes "p/c") h'.acks j ≡ besides (codes "p/c") [] j)
          × (besides (codes "p/c") h'.timeouts j ≡ besides (codes "p/c") [] j)
          × (besides (codes "p/c") h'.pending_packets j ≡ besides (codes "p/c") [] j))
unfolding lookup
process_channel_delivers_example =
    process_channel_delivers (λ (n : Unit {0}). none) network.is_zero_height
      network.is_zero_height_lem network.too_big ctx (codes "p/c") packets new_handler tt refl

packet-IsComplete : IsComplete (packet 3 0)
packet-IsComplete = record {
  sequence = λ e. omega (arith, e);
  source_port = λ e. absurd (cc);
  source_chan = λ e. absurd (cc);
  source_chain_id = λ e. absurd (cc);
  dest_port = λ e. absurd (cc);
  dest_chan = λ e. absurd (cc);
  dest_chain_id = λ e. absurd (cc);
  payload = λ e. absurd (cc);
}

process_packets-queue_packet_example :
    (queued : RelayHandler) × (queue_packet the_network ctx (packet 3 0) new_handler
      ≡ (ok tt, queued))
    × (h' : RelayHandler) × (process_packets the_network
          (in_turn (World the_network))
          ctx
          (queued, tt)
        ≡ (ok tt, (h', tt)))
    × (or_empty (lookup (codes "p/c") h'.acks) ≡ 3 ∷ [])
    × (h'.timeouts ≡ [])
    × ((c : Bytes) → waiting h' c ≡ [])
unfolding lookup is_packet_timed_out
process_packets-queue_packet_example =
    process_packets-queue_packet (λ (n : Unit {0}). none) network.is_zero_height
      network.is_zero_height_lem network.too_big (in_turn (World the_network)) ctx (packet 3 0)
      new_handler tt refl refl packet-IsComplete refl
