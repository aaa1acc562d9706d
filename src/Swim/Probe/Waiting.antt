-- ===== src/Swim/Probe/Waiting.antt =====
-- What may happen to Probe while it waits for the answer of a peer.
use commute.Prelude.{
  all, ◌>>=◌, str_eq, ℕ, ◌≤◌, Str, Option, none, some, List, [], ◌∷◌, ◌++◌, Bool, true, false, not,
  ◌≡◌, inl, inr, refl, ◌∙◌, ap, arith, ltb, leb, nat_beq, length, Bool-cases, delete_func,
}
use commute.Swim.Types.{Peer, has_addr, Rng}
use commute.Swim.Peers.{Peers}
use commute.Swim.Subgroup.{k_random_peers}
use commute.Swim.Message.{Message, ping_req, new_message}
use commute.Swim.Probe.{
  waiting, Signal, cancelled, ack_timeout, period_over, acked, answers, Probe, post, ask,
  ask_indirects, on_waiting, on_phase, take_signal, take_signals,
}

-- The signals that leave the loop waiting for the answer of the peer.
abbrev pub undecided : ℕ → Peer → Signal → Bool
undecided period p cancelled = false
undecided period p ack_timeout = true
undecided period p (period_over done) = false
undecided period p (acked a) = not (answers a period p)

-- The signals that a period can bring once the peer has answered, but its end.
abbrev pub within : Signal → Bool
within cancelled = false
within ack_timeout = true
within (period_over done) = false
within (acked a) = true

module _ (R : Rng) (self : Str) where
  -- The member list is the same, with the events and the dead peers; random numbers may be used up.
  pub record Kept (p q : Peers R) : Type 0 where
    pub peers : q.peers ≡ p.peers
    pub cursor : q.probe_cursor ≡ p.probe_cursor
    pub state : q.state ≡ p.state
    pub dead_peers : q.dead_peers ≡ p.dead_peers
    pub events : q.events ≡ p.events

  Kept-refl : (p : Peers R) → Kept p p
  Kept-refl p = record {
    peers = refl;
    cursor = refl;
    state = refl;
    dead_peers = refl;
    events = refl;
  }

  Kept-trans : (p q r : Peers R) → Kept p q → Kept q r → Kept p r
  Kept-trans p q r a b = record {
    peers = b.peers ∙ a.peers;
    cursor = b.cursor ∙ a.cursor;
    state = b.state ∙ a.state;
    dead_peers = b.dead_peers ∙ a.dead_peers;
    events = b.events ∙ a.events;
  }

  Kept-k_random_peers : (exclude : Peer) (p : Peers R) → Kept p (k_random_peers R exclude p).1
  unfolding k_random_peers
  Kept-k_random_peers exclude p =
      elim (Bool-cases (nat_beq (length (delete_func (has_addr exclude.udp_addr) p.peers)) 0)) [
        | inl q ↦ rw q (Kept-refl p)
        | inr q ↦
            elim (Bool-cases
              (leb (length (delete_func (has_addr exclude.udp_addr) p.peers)) p.subgroup_size)) [
                | inl r ↦ rw (q, r) (Kept-refl p)
                | inr r ↦
                    rw (q, r)
                      (record {
                        peers = refl;
                        cursor = refl;
                        state = refl;
                        dead_peers = refl;
                        events = refl;
                      })
              ]
      ]

  -- What may happen to the probe while it waits for `p`.
  pub record Still (p : Peer) (s : Probe R self) (r : Option (Probe R self)) : Type 0 where
    pub next : Probe R self
    pub succeeds : r ≡ some next
    pub phase : next.phase ≡ waiting p
    pub period : next.period ≡ s.period
    pub kept : Kept s.peers next.peers

  pub take_signal-waiting :
      (p : Peer) (sig : Signal) (s : Probe R self)
      → s.phase ≡ waiting p
      → take_signal R self sig s ≡ on_waiting R self p sig s
  unfolding take_signal on_phase
  take_signal-waiting p sig s e = ap (λ x. on_phase R self x sig s) e

  pub take_signals-next :
      (sig : Signal) (rest : List Signal) (s t : Probe R self)
      → take_signal R self sig s ≡ some t
      → take_signals R self (sig ∷ rest) s ≡ take_signals R self rest t
  unfolding take_signals
  take_signals-next sig rest s t e = rw e refl

  pub take_signals-append :
      (xs ys : List Signal) (s : Probe R self)
      → take_signals R self (xs ++ ys) s ≡ (take_signals R self xs s >>= take_signals R self ys)
  unfolding take_signals
  take_signals-append [] ys s = refl
  take_signals-append (sig ∷ xs) ys s =
      elim (take_signal R self sig s)
        as (λ o.
          (o >>= take_signals R self (xs ++ ys))
          ≡ ((o >>= take_signals R self xs) >>= take_signals R self ys)) [
            | none ↦ refl
            | some t ↦ take_signals-append xs ys t
          ]

  module _ (named : 1 ≤ length self) (p : Peer) (short : length p.udp_addr ≤ 47) where
    request :
        (period : ℕ) → (msg : Message) × (new_message ping_req self period p.udp_addr ≡ some msg)
    unfolding new_message
    request period =
        let n : nat_beq (length self) 0 ≡ false = ground arith in
        let f : ltb 47 (length p.udp_addr) ≡ false = ground arith in
        (
          record {
            version = 1;
            kind = ping_req;
            src = self;
            period = period;
            target = p.udp_addr;
            events = [];
          },
          rw (n, f),
        )

    ask-Still :
        (indirects : List Peer) (s : Probe R self)
        → s.phase ≡ waiting p
        → Still p s (ask R self indirects p s)
    unfolding ask post
    ask-Still [] s e = record {
      next = s;
      succeeds = refl;
      phase = e;
      period = refl;
      kept = Kept-refl s.peers;
    }
    ask-Still (q ∷ rest) s e =
        let (msg, f) = request s.period in
        let t = ask-Still rest (record s { sent = s.sent ++ (q, msg) ∷ [] }) e in
        record {
          next = t.next;
          succeeds = rw (f, ask) t.succeeds;
          phase = t.phase;
          period = t.period;
          kept = t.kept;
        }

    pub ask_indirects-Still :
        (o : Option (List Peer)) (s : Probe R self)
        → s.phase ≡ waiting p
        → Still p s (ask_indirects R self o p s)
    unfolding ask_indirects
    ask_indirects-Still none s e = record {
      next = s;
      succeeds = refl;
      phase = e;
      period = refl;
      kept = Kept-refl s.peers;
    }
    ask_indirects-Still (some indirects) s e = ask-Still indirects s e

    on_waiting-Still :
        (sig : Signal) (s : Probe R self)
        → s.phase ≡ waiting p
        → undecided s.period p sig ≡ true
        → Still p s (on_waiting R self p sig s)
    unfolding on_waiting
    on_waiting-Still cancelled s e u = cc
    on_waiting-Still ack_timeout s e u =
        let (indirects, peers) = k_random_peers R p s.peers in
        let t = ask_indirects-Still indirects (record s { peers = peers }) e in
        record {
          next = t.next;
          succeeds = t.succeeds;
          phase = t.phase;
          period = t.period;
          kept = Kept-trans s.peers peers t.next.peers (Kept-k_random_peers p s.peers) t.kept;
        }
    on_waiting-Still (period_over done) s e u = cc
    on_waiting-Still (acked a) s e u =
        let f : answers a s.period p ≡ false = ground arith in
        record { next = s; succeeds = rw f; phase = e; period = refl; kept = Kept-refl s.peers }

    pub take_signals-Still :
        (before : List Signal) (s : Probe R self)
        → s.phase ≡ waiting p
        → all (undecided s.period p) before ≡ true
        → Still p s (take_signals R self before s)
    unfolding take_signals
    take_signals-Still [] s e u = record {
      next = s;
      succeeds = refl;
      phase = e;
      period = refl;
      kept = Kept-refl s.peers;
    }
    take_signals-Still (sig ∷ rest) s e u =
        let t = on_waiting-Still sig s e (ground arith) in
        let u' : all (undecided t.next.period p) rest ≡ true = rw t.period (ground arith) in
        let r = take_signals-Still rest t.next t.phase u' in
        record {
          next = r.next;
          succeeds =
              take_signals-next sig rest s t.next (take_signal-waiting p sig s e ∙ t.succeeds)
              ∙ r.succeeds;
          phase = r.phase;
          period = r.period ∙ t.period;
          kept = Kept-trans s.peers t.next.peers r.next.peers t.kept r.kept;
        }
