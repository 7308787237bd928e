-- ===== src/Relay/Process.antt =====
-- ProcessPackets, processChannelPackets and relayWithRetry. What becomes of several goroutines, which
-- share the handler's maps without a lock, is left to Go and its errgroup: see Group.
pub mod Outcome
pub mod Conserves
pub mod Channel
pub mod Sending
pub mod Tries
use wordle.Prelude.{
  ℕ, zero, suc, ◌≡◌, Bool, true, false, Option, none, some, List, Bytes, codes, [], ◌∷◌, ◌++◌, ltb,
  if◌then◌else◌,
}
use wordle.Prelude.Int.{ℤ, pos, wrap, ◌+ℤ◌, leb_ℤ}
use wordle.Prelude.Maps.{Map, lookup, put, discard}
use wordle.Exec
use wordle.Exec.{Reply, ok, err, panic, Error, Exec, continue, ◌>>=◌, ◌>>◌}
use wordle.Relay.{PacketInfo, RelayHandler, Context, Network}
use wordle.Relay.Monitor.{or_empty, get_average_block_time, calculate_adaptive_timeout}
use wordle.Relay.Expiry.{is_packet_timed_out}

abbrev pub max_retries : ℕ
max_retries = 5

-- `sort.Slice` by the sequence number.
unfoldable pub insert_packet : PacketInfo → List PacketInfo → List PacketInfo
insert_packet p [] = p ∷ []
insert_packet p (q ∷ qs) =
    let rest = insert_packet p qs in if ltb q.sequence p.sequence then q ∷ rest else p ∷ q ∷ qs

unfoldable pub sort_packets : List PacketInfo → List PacketInfo
unfolding insert_packet
sort_packets [] = []
sort_packets (p ∷ ps) = insert_packet p (sort_packets ps)

abbrev pub add_to : Bytes → ℕ → Map (List ℕ) → Map (List ℕ)
add_to channel n m = put channel (or_empty (lookup channel m) ++ n ∷ []) m

abbrev pub acknowledged : Bytes → PacketInfo → RelayHandler → RelayHandler
acknowledged channel p h = record h { acks = add_to channel p.sequence h.acks }

abbrev pub given_up : Bytes → PacketInfo → RelayHandler → RelayHandler
given_up channel p h = record h { timeouts = add_to channel p.sequence h.timeouts }

unfoldable pub retried : PacketInfo → PacketInfo
unfolding ◌+ℤ◌
retried p = record p { retry_count = wrap 64 (p.retry_count +ℤ pos 1) }

-- `if len(remainingPackets) > 0 { … } else { delete(…) }`
unfoldable pub keep_remaining : Bytes → List PacketInfo → RelayHandler → RelayHandler
keep_remaining channel [] h = record h { pending_packets = discard channel h.pending_packets }
keep_remaining channel (p ∷ ps) h = record h {
  pending_packets = put channel (p ∷ ps) h.pending_packets;
}

abbrev pub keep_some : Option PacketInfo → List PacketInfo → List PacketInfo
keep_some none ps = ps
keep_some (some p) ps = p ∷ ps

-- `fmt.Errorf("max retries exceeded: %w", lastErr)`
abbrev pub last_reply : Reply (Unit {0}) → Reply (Unit {0})
last_reply (ok t) = ok tt
last_reply (err e) = err (Exec.retries_exceeded e)
last_reply panic = panic

-- golang.org/x/sync/errgroup: what Wait returns for the functions given to Go, each of which takes
-- whether the context of the group is cancelled. One function runs as it would by itself. Nothing is
-- said of several, which Go interleaves, and whose unlocked writes to a map may end the process.
pub record Group (W : Type 0) : Type 0 where
  pub wait : List (Bool → Exec W (Unit {0})) → Exec W (Unit {0})
  pub wait_none : (w : W) → wait [] w ≡ (ok tt, w)
  pub wait_one : (g : Bool → Exec W (Unit {0})) (w : W) → wait (g ∷ []) w ≡ g false w

module _ (network : Network) where
  open network use {Net, cancelled, send}

  abbrev pub World : Type 0
  World = RelayHandler × Net

  -- `case <-ctx.Context().Done()`; `stop` where the group has had an error.
  unfoldable pub check_context : Bool → Exec Net (Unit {0})
  check_context stop n =
      if stop
      then (err Exec.context_cancelled, n)
      else (elim (cancelled n) [ none ↦ ok tt | some e ↦ err e ], n)

  unfoldable pub again : Reply (Unit {0}) → Exec Net (Unit {0}) → Exec Net (Unit {0})
  again (ok t) next n = (ok tt, n)
  again (err e) next n = next n
  again panic next n = (panic, n)

  -- An attempt with `left` more to come.
  unfoldable pub attempts : Bool → Context → PacketInfo → ℤ → ℕ → Exec Net (Unit {0})
  unfolding check_context again
  attempts stop ctx packet timeout zero = do
    check_context stop
    λ n. let (r, n') = send ctx packet timeout n in (last_reply r, n')
  attempts stop ctx packet timeout (suc left) = do
    check_context stop
    λ n.
        let (r, n') = send ctx packet timeout n in
        again r (attempts stop ctx packet timeout left) n'

  unfoldable pub relay_with_retry : Bool → Context → PacketInfo → ℤ → Exec Net (Unit {0})
  unfolding attempts
  relay_with_retry stop ctx packet timeout = attempts stop ctx packet timeout max_retries

  -- What follows the attempts: the packet that remains, if it does.
  unfoldable pub settle : Bytes → PacketInfo → Reply (Unit {0}) → Exec World (Option PacketInfo)
  unfolding retried
  settle channel p (ok t) (h, n) = (ok none, (acknowledged channel p h, n))
  settle channel p (err e) (h, n) =
      if leb_ℤ (pos max_retries) p.retry_count
      then (ok none, (given_up channel p h, n))
      else (ok (some (retried p)), (h, n))
  settle channel p panic w = (panic, w)

  unfoldable pub timeout_for : RelayHandler → PacketInfo → ℤ
  timeout_for h p =
      calculate_adaptive_timeout network h.min_timeout
        (get_average_block_time h.block_monitor p.source_chain_id)
        (get_average_block_time h.block_monitor p.dest_chain_id)

  -- One packet of the loop, behind the test of the context.
  unfoldable pub relay_one : Bool → Context → Bytes → PacketInfo → Exec World (Option PacketInfo)
  unfolding relay_with_retry settle timeout_for is_packet_timed_out
  relay_one stop ctx channel p (h, n) =
      if is_packet_timed_out network ctx p
      then (ok none, (given_up channel p h, n))
      else (let (r, n') = relay_with_retry stop ctx p (timeout_for h p) n in
          settle channel p r (h, n'))

  abbrev pub on_net : {A : Type 0} → Exec Net A → Exec World A
  on_net m (h, n) = let (r, n') = m n in (r, (h, n'))

  -- The loop; it collects what remains.
  unfoldable pub process_loop :
      Bool → Context → Bytes → List PacketInfo → Exec World (List PacketInfo)
  unfolding check_context relay_one
  process_loop stop ctx channel [] = Exec.pure []
  process_loop stop ctx channel (p ∷ ps) = do
    on_net (check_context stop)
    kept ← relay_one stop ctx channel p
    rest ← process_loop stop ctx channel ps
    Exec.pure (keep_some kept rest)

  -- The slice is sorted in place, so the pending packets are sorted with it.
  unfoldable pub process_channel_packets :
      Bool → Context → Bytes → List PacketInfo → Exec World (Unit {0})
  unfolding sort_packets process_loop keep_remaining
  process_channel_packets stop ctx channel packets = do
    Exec.modify (λ (w : World). (
      record (w.0) { pending_packets = put channel (sort_packets packets) w.0.pending_packets },
      w.1,
    ))
    remaining ← process_loop stop ctx channel (sort_packets packets)
    Exec.modify (λ (w : World). (keep_remaining channel remaining w.0, w.1))

  -- The goroutines of ProcessPackets, one for each channel, in the order in which the map is walked.
  unfoldable pub goroutines : Context → Map (List PacketInfo) → List (Bool → Exec World (Unit {0}))
  unfolding process_channel_packets
  goroutines ctx [] = []
  goroutines ctx ((channel, packets) ∷ rest) =
      (λ stop. process_channel_packets stop ctx channel packets) ∷ goroutines ctx rest

  unfoldable pub process_packets : Group World → Context → Exec World (Unit {0})
  unfolding goroutines
  process_packets group ctx w = group.wait (goroutines ctx w.0.pending_packets) w
