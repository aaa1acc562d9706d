-- ===== src/Swim/Probe/Turns.antt =====
-- A peer that gives no answer is declared dead when its turn comes.
use commute.Prelude.{
  str_eq, ℕ, zero, suc, ◌+◌, ◌%◌, ◌<◌, ◌≤◌, Str, some, List, [], ◌∷◌, ◌++◌, map, Bool, true, false,
  ◌≡◌, ◌≢◌, refl, sym, ◌∙◌, ap, subst, arith, leb, nat_beq, length, lookup, is_some, get_elem?,
  drop, str_beq_iff, all, u64,
}
use commute.Swim.Types.{Peer, Rng}
use commute.Swim.Peers.{Peers, next_probe, take_turn}
use commute.Swim.Peers.Join.{members}
use commute.Swim.Peers.Death.{said_dead}
use commute.Swim.Message.{Message, ping, new_message}
use commute.Swim.Probe.{
  Ack, ready, waiting, Signal, period_over, acked, answers, Probe, post, probe_peer, begin,
  take_signals, periods,
}
use commute.Swim.Probe.Waiting.{undecided, within}
use commute.Swim.Probe.Round.{unanswered_dead, answered_kept}

-- A period in which the peer answers.
pub record Answered : Type 0 where
  pub peer : Peer
  pub before : List Signal
  pub reply : Ack
  pub after : List Signal
  pub done : Bool

abbrev pub signals_of : Answered → List Signal
signals_of x = x.before ++ acked x.reply ∷ (x.after ++ period_over x.done ∷ [])

abbrev pub next_period : ℕ → ℕ
next_period n = (n + 1) % u64

-- The period is as it says, with a number and a peer to which a ping-req can be sent.
pub record IsAnswered (period : ℕ) (x : Answered) : Type 0 where
  pub short : length x.peer.udp_addr ≤ 47
  pub undecided_before : all (undecided period x.peer) x.before ≡ true
  pub answered : answers x.reply period x.peer ≡ true
  pub within_after : all within x.after ≡ true

abbrev pub AreAnswered : ℕ → List Answered → Type 0
AreAnswered period [] = Unit
AreAnswered period (x ∷ turns) =
    IsAnswered (next_period period) x × AreAnswered (next_period period) turns

-- The number of the period after those.
abbrev pub period_after : ℕ → List Answered → ℕ
period_after period [] = next_period period
period_after period (x ∷ turns) = period_after (next_period period) turns

abbrev is_nil : {A : Type 0} → List A → Bool
is_nil [] = true
is_nil (x ∷ xs) = false

nil_not_cons : {A : Type 0} (q : A) (rest : List A) → [] ≢ q ∷ rest
nil_not_cons q rest e = let f : true ≡ false = ap is_nil e in cc

get_elem?-drop :
    {A : Type 0} (xs : List A) (c : ℕ) (q : A) (rest : List A)
    → drop c xs ≡ q ∷ rest
    → get_elem? xs c ≡ some q
get_elem?-drop [] zero q rest e = absurd (nil_not_cons q rest e)
get_elem?-drop [] (suc c) q rest e = absurd (nil_not_cons q rest e)
get_elem?-drop (x ∷ xs) zero q rest e = cc
get_elem?-drop (x ∷ xs) (suc c) q rest e = get_elem?-drop xs c q rest e

below-drop :
    {A : Type 0} (xs : List A) (c : ℕ) (q : A) (rest : List A)
    → drop c xs ≡ q ∷ rest
    → c < length xs
below-drop [] zero q rest e = absurd (nil_not_cons q rest e)
below-drop [] (suc c) q rest e = absurd (nil_not_cons q rest e)
below-drop (x ∷ xs) zero q rest e = omega arith
below-drop (x ∷ xs) (suc c) q rest e = omega (arith, below-drop xs c q rest e)

drop-next :
    {A : Type 0} (xs : List A) (c : ℕ) (q : A) (rest : List A)
    → drop c xs ≡ q ∷ rest
    → drop (suc c) xs ≡ rest
drop-next [] zero q rest e = absurd (nil_not_cons q rest e)
drop-next [] (suc c) q rest e = absurd (nil_not_cons q rest e)
drop-next (x ∷ xs) zero q rest e = cc
drop-next (x ∷ xs) (suc c) q rest e = drop-next xs c q rest e

module _ (R : Rng) where
  next_probe-turn :
      (p : Peers R) (q : Peer) (rest : List Peer)
      → drop p.probe_cursor p.peers ≡ q ∷ rest
      → next_probe R p ≡ (some q, record p { probe_cursor = p.probe_cursor + 1 })
  unfolding next_probe take_turn
  next_probe-turn p q rest e =
      let below = below-drop p.peers p.probe_cursor q rest e in
      let n : nat_beq (length p.peers) 0 ≡ false = ground arith in
      let l : leb (length p.peers) p.probe_cursor ≡ false = ground arith in
      rw (n, l, get_elem?-drop p.peers p.probe_cursor q rest e) refl

module _ (R : Rng) (self : Str) (named : 1 ≤ length self) where
  -- A period begins with the turn of the peer at the cursor.
  record Turn (q : Peer) (s : Probe R self) : Type 0 where
    next : Probe R self
    begins : begin R self false true s ≡ some next
    phase : next.phase ≡ waiting q
    period : next.period ≡ next_period s.period
    peers : next.peers ≡ record s.peers { probe_cursor = s.peers.probe_cursor + 1 }

  new_ping :
      (period : ℕ)
      → new_message ping self period []
        ≡ some (record {
          version = 1;
          kind = ping;
          src = self;
          period = period;
          target = [];
          events = [];
        })
  unfolding new_message
  new_ping period = let n : nat_beq (length self) 0 ≡ false = ground arith in rw n refl

  posted :
      (q : Peer) (msg : Message) (s : Probe R self)
      → post R self q (some msg) s ≡ some (record s { sent = s.sent ++ (q, msg) ∷ [] })
  unfolding post
  posted q msg s = refl

  begin-Turn :
      (q : Peer) (rest : List Peer) (s : Probe R self)
      → drop s.peers.probe_cursor s.peers.peers ≡ q ∷ rest
      → Turn q s
  unfolding begin probe_peer
  begin-Turn q rest s e =
      let peers = record s.peers { probe_cursor = s.peers.probe_cursor + 1 } in
      let period = next_period s.period in
      let msg : Message = record {
        version = 1;
        kind = ping;
        src = self;
        period = period;
        target = [];
        events = [];
      } in
      let waits : Probe R self = record {
        peers = peers;
        period = period;
        phase = waiting q;
        sent = s.sent ++ (q, msg) ∷ [];
      } in
      record {
        next = waits;
        begins =
            ap (λ r. probe_peer R self true r.0 (record s { peers = r.1; period = period }))
              (next_probe-turn R s.peers q rest e)
            ∙ ap
                (λ o.
                  post R self q o (record s { peers = peers; period = period; phase = waiting q }))
                (new_ping period)
            ∙ posted q msg (record s { peers = peers; period = period; phase = waiting q });
        phase = refl;
        period = refl;
        peers = refl;
      }

  periods-next :
      (signals : List Signal) (rest : List (List Signal)) (s u t : Probe R self)
      → begin R self false true s ≡ some u
      → take_signals R self signals u ≡ some t
      → periods R self (signals ∷ rest) s ≡ periods R self rest t
  unfolding periods
  periods-next signals rest s u t e f = rw (e, f) refl

  module _ (p : Peer) (short : length p.udp_addr ≤ 47) (later : List Peer) (before : List Signal)
      (done : Bool) where
    abbrev last_period : List Signal
    last_period = before ++ period_over done ∷ []

    record Dead (turns : List Answered) (s : Probe R self) : Type 0 where
      state : Probe R self
      runs : periods R self (map signals_of turns ++ last_period ∷ []) s ≡ some state
      phase : state.phase ≡ ready
      gone : members R p.udp_addr state.peers ≡ 0
      listed : is_some (lookup p.udp_addr state.peers.dead_peers) ≡ true

    last-Dead :
        (s : Probe R self)
        → drop s.peers.probe_cursor s.peers.peers ≡ p ∷ later
        → all (undecided (next_period s.period) p) before ≡ true
        → said_dead (lookup p.udp_addr s.peers.state) ≡ false
        → Dead [] s
    unfolding periods
    last-Dead s e u h =
        let b = begin-Turn p later s e in
        let u' : all (undecided b.next.period p) before ≡ true =
          subst (λ n. all (undecided n p) before ≡ true) (sym b.period) u in
        let h' : said_dead (lookup p.udp_addr b.next.peers.state) ≡ false =
          subst (λ x. said_dead (lookup p.udp_addr x.state) ≡ false) (sym b.peers) h in
        let (t, runs, phase, gone, listed) =
          unanswered_dead R self named p short before done b.next b.phase u' h' in
        record {
          state = t;
          runs = periods-next last_period [] s b.next t b.begins runs;
          phase = phase;
          gone = gone p.udp_addr ∙ rw ((str_beq_iff p.udp_addr p.udp_addr).1 refl) refl;
          listed = listed;
        }

    turns-Dead :
        (turns : List Answered) (s : Probe R self)
        → drop s.peers.probe_cursor s.peers.peers ≡ map (λ x. x.peer) turns ++ p ∷ later
        → AreAnswered s.period turns
        → all (undecided (period_after s.period turns) p) before ≡ true
        → said_dead (lookup p.udp_addr s.peers.state) ≡ false
        → Dead turns s
    turns-Dead [] s e a u h = last-Dead s e u h
    turns-Dead (x ∷ turns) s e (a, others) u h =
        let b = begin-Turn x.peer (map (λ x. x.peer) turns ++ p ∷ later) s e in
        let (t, runs, phase, period, kept) =
          answered_kept R self named x.peer a.short x.before x.reply x.after x.done b.next b.phase
            (rw b.period a.undecided_before) (rw b.period a.answered) a.within_after in
        let number : t.period ≡ next_period s.period = period ∙ b.period in
        let peers : t.peers.peers ≡ s.peers.peers = kept.peers ∙ ap (λ x. x.peers) b.peers in
        let cursor : t.peers.probe_cursor ≡ suc s.peers.probe_cursor =
          kept.cursor ∙ ap (λ x. x.probe_cursor) b.peers ∙ omega arith in
        let state : t.peers.state ≡ s.peers.state = kept.state ∙ ap (λ x. x.state) b.peers in
        let r =
          turns-Dead turns t
            (rw (cursor, peers) (drop-next s.peers.peers s.peers.probe_cursor x.peer _ e))
            (rw number others) (rw number u) (rw state h) in
        record {
          state = r.state;
          runs =
              periods-next (signals_of x) (map signals_of turns ++ last_period ∷ []) s b.next t
                b.begins runs
              ∙ r.runs;
          phase = r.phase;
          gone = r.gone;
          listed = r.listed;
        }

    -- A peer is on the member list, `turns` places after the one whose turn is next. If the peers before
    -- it answer in their periods, and it gives no answer in its own, then after this period no message
    -- made the node panic, the loop is at its top, and the peer is on the dead list and not among the
    -- members. The last event of the peer did not say that it is dead, the addresses are no longer than
    -- a message can carry, the node's own is not empty, and the direct pings are sent without an error.
    pub silent_dead :
        (turns : List Answered) (s : Probe R self)
        → s.phase ≡ ready
        → drop s.peers.probe_cursor s.peers.peers ≡ map (λ x. x.peer) turns ++ p ∷ later
        → AreAnswered s.period turns
        → all (undecided (period_after s.period turns) p) before ≡ true
        → said_dead (lookup p.udp_addr s.peers.state) ≡ false
        → (t : Probe R self) × (periods R self
              (map signals_of turns ++ (before ++ period_over done ∷ []) ∷ [])
              s
            ≡ some t)
          × (t.phase ≡ ready)
          × (members R p.udp_addr t.peers ≡ 0)
          × (is_some (lookup p.udp_addr t.peers.dead_peers) ≡ true)
    silent_dead turns s _ e a u h =
        let d = turns-Dead turns s e a u h in (d.state, d.runs, d.phase, d.gone, d.listed)
