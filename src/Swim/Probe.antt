-- ===== src/Swim/Probe.antt =====
-- internal/swim/swim.go, Probe: the failure detector. What wakes the loop is a `Signal`, and the loop
-- stands in one of the phases between two of them. `sent` holds the messages that are given to send,
-- with the peers that they are for; none is a panic of NewMessage.
pub mod Waiting
pub mod Round
pub mod Panic
pub mod Turns
use commute.Prelude.{
  ◌>>=◌, ℕ, ◌+◌, ◌%◌, Str, Option, none, some, List, [], ◌∷◌, ◌++◌, Bool, true, false, ◌&&◌,
  if◌then◌else◌, nat_beq, str_beq, u64,
}
use commute.Swim.Types.{dead, Peer, Rng}
use commute.Swim.Peers.{Peers, next_probe, process}
use commute.Swim.Subgroup.{k_random_peers}
use commute.Swim.Message.{Message, ping, ping_req, new_message}

-- Ack
pub record Ack : Type 0 where
  pub period : ℕ
  pub addr : Str

pub data Phase : Type 0 where
  -- at the top of the loop
  ready : Phase
  -- until the period's timer fires, with no more to do in this period
  resting : Phase
  -- in the loop waitAck, for the peer
  waiting : Peer → Phase
  returned : Phase

-- What a select of the loop takes. `done` is whether ctx.Done() wins against the send in process.
pub data Signal : Type 0 where
  cancelled ack_timeout : Signal
  period_over : (done : Bool) → Signal
  acked : Ack → Signal

-- a.Period == period && a.Addr == peer.udpAddr
abbrev pub answers : Ack → ℕ → Peer → Bool
answers a period p = nat_beq a.period period && str_beq a.addr p.udp_addr

module _ (R : Rng) (self : Str) where
  pub record Probe : Type 0 where
    pub peers : Peers R
    pub period : ℕ
    pub phase : Phase
    pub sent : List (Peer × Message)

  -- m.send(ctx, peer, NewMessage(…)), whose error is handled by the caller
  unfoldable pub post : Peer → Option Message → Probe → Option Probe
  post p none s = none
  post p (some msg) s = some (record s { sent = s.sent ++ (p, msg) ∷ [] })

  -- The loop over the indirect peers.
  unfoldable pub ask : List Peer → Peer → Probe → Option Probe
  unfolding post new_message
  ask [] target s = some s
  ask (p ∷ rest) target s =
      post p (new_message ping_req self s.period target.udp_addr) s >>= ask rest target

  unfoldable pub ask_indirects : Option (List Peer) → Peer → Probe → Option Probe
  unfolding ask
  ask_indirects none target s = some s
  ask_indirects (some indirects) target s = ask indirects target s

  unfoldable pub probe_peer : Bool → Option Peer → Probe → Option Probe
  unfolding post new_message
  probe_peer resolved none s = some (record s { phase = resting })
  probe_peer resolved (some p) s =
      post p (new_message ping self s.period [])
        (record s { phase = if resolved then waiting p else resting })

  -- The loop from its top to the next select: `done` is ctx.Err(), and `resolved` whether the direct
  -- ping is sent without an error.
  unfoldable pub begin : Bool → Bool → Probe → Option Probe
  unfolding probe_peer next_probe
  begin true resolved s = some (record s { phase = returned })
  begin false resolved s =
      let (found, peers) = next_probe R s.peers in
      probe_peer resolved found (record s { peers = peers; period = (s.period + 1) % u64 })

  unfoldable pub on_waiting : Peer → Signal → Probe → Option Probe
  unfolding ask_indirects k_random_peers process
  on_waiting p cancelled s = some (record s { phase = returned })
  on_waiting p ack_timeout s =
      let (indirects, peers) = k_random_peers R p s.peers in
      ask_indirects indirects p (record s { peers = peers })
  on_waiting p (period_over done) s = some (record s {
    peers = process R done (record { kind = dead; node = p.udp_addr }) s.peers;
    phase = ready;
  })
  on_waiting p (acked a) s = some (if answers a s.period p then record s { phase = resting } else s)

  -- While it rests, the loop does not take acks, and the timer for the ack is not waited for.
  unfoldable pub on_resting : Signal → Probe → Probe
  on_resting cancelled s = record s { phase = returned }
  on_resting ack_timeout s = s
  on_resting (period_over done) s = record s { phase = ready }
  on_resting (acked a) s = s

  unfoldable pub on_phase : Phase → Signal → Probe → Option Probe
  unfolding on_waiting on_resting
  on_phase ready sig s = some s
  on_phase resting sig s = some (on_resting sig s)
  on_phase (waiting p) sig s = on_waiting p sig s
  on_phase returned sig s = some s

  -- One select of the loop.
  unfoldable pub take_signal : Signal → Probe → Option Probe
  unfolding on_phase
  take_signal sig s = on_phase s.phase sig s

  unfoldable pub take_signals : List Signal → Probe → Option Probe
  unfolding take_signal
  take_signals [] s = some s
  take_signals (sig ∷ rest) s = take_signal sig s >>= take_signals rest

  -- The loop: what each period takes, the direct pings being sent without an error.
  unfoldable pub periods : List (List Signal) → Probe → Option Probe
  unfolding begin take_signals
  periods [] s = some s
  periods (signals ∷ rest) s = (begin false true s >>= take_signals signals) >>= periods rest
