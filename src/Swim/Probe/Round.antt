-- ===== src/Swim/Probe/Round.antt =====
-- One protocol period of Probe: who is declared dead, and who is not.
use commute.Prelude.{
  all, ◌>>=◌, str_eq, ◌≤◌, Str, some, List, [], ◌∷◌, ◌++◌, Bool, true, false, ◌≡◌, refl, ◌∙◌, ap,
  arith, if◌then◌else◌, length, lookup, count, is_some, str_beq,
}
use commute.Swim.Types.{Peer, has_addr, Rng}
use commute.Swim.Peers.{process}
use commute.Swim.Peers.Join.{members}
use commute.Swim.Peers.Death.{said_dead, death, process-death}
use commute.Swim.Probe.{
  Ack, ready, resting, waiting, Signal, cancelled, ack_timeout, period_over, acked, answers, Probe,
  on_waiting, on_resting, on_phase, take_signal, take_signals,
}
use commute.Swim.Probe.Waiting.{
  undecided, within, Kept, take_signal-waiting, take_signals-next, take_signals-append,
  take_signals-Still,
}

module _ (R : Rng) (self : Str) where
  module _ (named : 1 ≤ length self) (p : Peer) (short : length p.udp_addr ≤ 47) where
    period_over-waiting :
        (done : Bool) (s : Probe R self)
        → s.phase ≡ waiting p
        → take_signal R self (period_over done) s
          ≡ some (record s { peers = process R done (death p.udp_addr) s.peers; phase = ready })
    unfolding on_waiting
    period_over-waiting done s e = take_signal-waiting R self p (period_over done) s e

    -- The node waits for the answer of a peer, and gets none while acks come that are not its answer, and
    -- while the time for the ack runs out; the last event of the peer did not say that it is dead. When
    -- the period is over, no message made the node panic, the loop is at its top, and the peer is on the
    -- dead list and not among the members, the other members being what they were. The node's own
    -- address is not empty, and the peer's is no longer than a message can carry.
    pub unanswered_dead :
        (before : List Signal) (done : Bool) (s : Probe R self)
        → s.phase ≡ waiting p
        → all (undecided s.period p) before ≡ true
        → said_dead (lookup p.udp_addr s.peers.state) ≡ false
        → (t : Probe R self) × (take_signals R self (before ++ period_over done ∷ []) s ≡ some t)
          × (t.phase ≡ ready)
          × ((b : Str)
              → members R b t.peers ≡ (if str_beq p.udp_addr b then 0 else members R b s.peers))
          × (is_some (lookup p.udp_addr t.peers.dead_peers) ≡ true)
    unfolding take_signals
    unanswered_dead before done s e u h =
        let r = take_signals-Still R self named p short before s e u in
        let h' : said_dead (lookup p.udp_addr r.next.peers.state) ≡ false = rw r.kept.state h in
        let t : Probe R self = record r.next {
          peers = process R done (death p.udp_addr) r.next.peers;
          phase = ready;
        } in
        let over : take_signals R self (period_over done ∷ []) r.next ≡ some t =
          take_signals-next R self (period_over done) [] r.next t
            (period_over-waiting done r.next r.phase) in
        (
          t,
          take_signals-append R self before (period_over done ∷ []) s
              ∙ ap (λ o. o >>= take_signals R self (period_over done ∷ [])) r.succeeds
              ∙ over,
          refl,
          (λ b.
              (process-death R done p.udp_addr b r.next.peers h').0
              ∙ ap (λ ps. if str_beq p.udp_addr b then 0 else count (has_addr b) ps) r.kept.peers),
          (process-death R done p.udp_addr p.udp_addr r.next.peers h').1,
        )

    acked-waiting :
        (a : Ack) (s : Probe R self)
        → s.phase ≡ waiting p
        → answers a s.period p ≡ true
        → take_signal R self (acked a) s ≡ some (record s { phase = resting })
    unfolding on_waiting
    acked-waiting a s e h = take_signal-waiting R self p (acked a) s e ∙ rw h refl

    on_resting-within :
        (sig : Signal) (s : Probe R self) → within sig ≡ true → on_resting R self sig s ≡ s
    unfolding on_resting
    on_resting-within cancelled s h = cc
    on_resting-within ack_timeout s h = refl
    on_resting-within (period_over done) s h = cc
    on_resting-within (acked a) s h = refl

    take_signal-resting :
        (sig : Signal) (s : Probe R self)
        → s.phase ≡ resting
        → take_signal R self sig s ≡ some (on_resting R self sig s)
    unfolding take_signal on_phase
    take_signal-resting sig s e = ap (λ x. on_phase R self x sig s) e

    take_signals-resting :
        (after : List Signal) (s : Probe R self)
        → s.phase ≡ resting
        → all within after ≡ true
        → take_signals R self after s ≡ some s
    unfolding take_signals
    take_signals-resting [] s e h = refl
    take_signals-resting (sig ∷ after) s e h =
        take_signals-next R self sig after s s
          (take_signal-resting sig s e ∙ ap some (on_resting-within sig s (ground arith)))
        ∙ take_signals-resting after s e (ground arith)

    -- The node waits for the answer of a peer, and gets it before the period is over, perhaps after acks
    -- that are not its answer and after the time for the ack; more acks may come. When the period is
    -- over, no message made the node panic, the loop is at its top, and the period's number, the member
    -- list with the cursor, the events, the last event of each node and the dead list are what they were.
    -- The node's own address is not empty, and the peer's is no longer than a message can carry.
    pub answered_kept :
        (before : List Signal) (a : Ack) (after : List Signal) (done : Bool) (s : Probe R self)
        → s.phase ≡ waiting p
        → all (undecided s.period p) before ≡ true
        → answers a s.period p ≡ true
        → all within after ≡ true
        → (t : Probe R self) × (take_signals R self
              (before ++ acked a ∷ (after ++ period_over done ∷ []))
              s
            ≡ some t)
          × (t.phase ≡ ready)
          × (t.period ≡ s.period)
          × Kept R self s.peers t.peers
    unfolding take_signals
    answered_kept before a after done s e u h w =
        let r = take_signals-Still R self named p short before s e u in
        let rested : Probe R self = record r.next { phase = resting } in
        let t : Probe R self = record r.next { phase = ready } in
        let first : take_signal R self (acked a) r.next ≡ some rested =
          acked-waiting a r.next r.phase (rw r.period h) in
        let over : take_signals R self (period_over done ∷ []) rested ≡ some t =
          take_signals-next R self (period_over done) [] rested t
            (take_signal-resting (period_over done) rested refl) in
        let rest : take_signals R self (after ++ period_over done ∷ []) rested ≡ some t =
          take_signals-append R self after (period_over done ∷ []) rested
          ∙ ap (λ o. o >>= take_signals R self (period_over done ∷ []))
              (take_signals-resting after rested refl w)
          ∙ over in
        (
          t,
          take_signals-append R self before (acked a ∷ (after ++ period_over done ∷ [])) s
              ∙ ap (λ o. o >>= take_signals R self (acked a ∷ (after ++ period_over done ∷ [])))
                  r.succeeds
              ∙ take_signals-next R self (acked a) (after ++ period_over done ∷ []) r.next rested
                  first
              ∙ rest,
          refl,
          r.period,
          r.kept,
        )
