-- ===== src/Store/Acks.antt =====
-- A peer that has acknowledged everything is sent nothing.
use mathlib.Core.Option
use mathlib.Core.Option.{some-injective}
use commute.Prelude.{
  str_eq, ℕ, ◌-◌, ◌≤◌, max, Str, Map, Option, none, some, [], ◌≡◌, inl, inr, refl, sym, ap, arith,
  ltb, nat_beq, str_beq_iff, Bool-cases, Option-cases, lookup-insert,
}
use commute.Crdt.Replicated.{Replicated}
use commute.Crdt.PnCounter.Order.{counters}
use commute.Crdt.LwwRegister.Order.{registers}
use commute.Crdt.PnCounter.{PnCounter}
use commute.Crdt.LwwRegister.{LwwRegister}
use commute.Crdt.OrSet.{OrSet}
use commute.Store.{Store, Message, AckMessage, ack, delta, seq_of, nothing_sent, message_of}
use commute.Store.Part
use commute.Store.Part.{Part, acked}
use commute.Store.Sets

acked-ack :
    {S : Type 0} (sender : Str) (n : ℕ) (p : Part S)
    → acked (Part.ack sender n p) sender ≡ max (acked p sender) n
unfolding Part.ack
acked-ack sender n p = rw (
  lookup-insert sender sender (max (acked p sender) n) p.acks,
  (str_beq_iff sender sender).1 refl,
)

silent :
    {S : Type 0} (R : Replicated S) (peer : Str) (p : Part S)
    → 1 ≤ acked p peer
    → p.seq ≤ acked p peer
    → Part.delta R peer p ≡ none
unfolding Part.delta
silent R peer p h k = ground arith

covered :
    {S : Type 0} (R : Replicated S) (peer : Str) (p : Part S)
    → p.seq ≤ max (acked p peer) (seq_of (Part.delta R peer p))
unfolding Part.delta
covered R peer p = ground arith

delta-ack :
    {S : Type 0} (R : Replicated S) (peer : Str) (n : ℕ) (p : Part S)
    → 1 ≤ p.seq
    → n ≡ seq_of (Part.delta R peer p)
    → Part.delta R peer (Part.ack peer n p) ≡ none
delta-ack R peer n p v e =
    let s : (Part.ack peer n p).seq ≡ p.seq = unfold Part.ack in refl in
    silent R peer (Part.ack peer n p) (omega (arith, s, acked-ack peer n p, covered R peer p))
      (omega (arith, s, acked-ack peer n p, covered R peer p))

sets_silent :
    (peer : Str) (p : Part OrSet)
    → 1 ≤ acked p peer
    → p.seq ≤ acked p peer
    → Sets.delta peer p ≡ some none
unfolding Sets.delta
sets_silent peer p h k = ground arith

seq_of-map :
    (n : ℕ) (m : Option (Map Str OrSet)) (o : Option (ℕ × Map Str OrSet))
    → Option.map (λ sets. some (n, sets)) m ≡ some o
    → n ≡ seq_of o
seq_of-map n none o e = cc
seq_of-map n (some sets) o e = ap seq_of (some-injective (some (n, sets)) o e)

sets_covered :
    (peer : Str) (p : Part OrSet) (o : Option (ℕ × Map Str OrSet))
    → Sets.delta peer p ≡ some o
    → p.seq ≤ max (acked p peer) (seq_of o)
unfolding Sets.delta
sets_covered peer p o e = elim (Bool-cases (nat_beq (acked p peer) 0)) [
  | inl q ↦ omega (arith, ap seq_of (some-injective _ o (rw q at e)))
  | inr q ↦ elim (Bool-cases (ltb (acked p peer) p.seq)) [
    | inl r ↦ omega (
      arith,
      seq_of-map p.seq (Sets.interval_from (p.seq - acked p peer) (acked p peer) p.deltas []) o
          (rw (q, r) at e),
    )
    | inr r ↦ ground arith
  ]
]

sets_delta-ack :
    (peer : Str) (n : ℕ) (p : Part OrSet) (o : Option (ℕ × Map Str OrSet))
    → 1 ≤ p.seq
    → Sets.delta peer p ≡ some o
    → n ≡ seq_of o
    → Sets.delta peer (Part.ack peer n p) ≡ some none
sets_delta-ack peer n p o v e q =
    let s : (Part.ack peer n p).seq ≡ p.seq = unfold Part.ack in refl in
    sets_silent peer (Part.ack peer n p)
      (omega (arith, s, acked-ack peer n p, sets_covered peer p o e))
      (omega (arith, s, acked-ack peer n p, sets_covered peer p o e))

-- The acknowledgement that Merge answers a message with.
abbrev pub answer : Message → AckMessage
answer msg = record {
  counters_seq = msg.counters_seq;
  registers_seq = msg.registers_seq;
  sets_seq = msg.sets_seq;
}

abbrev seqs_of : Message → ℕ × ℕ × ℕ
seqs_of msg = (msg.counters_seq, msg.registers_seq, msg.sets_seq)

seqs_sent :
    (c : Option (ℕ × Map Str PnCounter)) (r : Option (ℕ × Map Str LwwRegister))
    (s : Option (ℕ × Map Str OrSet)) (msg : Message)
    → message_of c r s ≡ some msg
    → (msg.counters_seq ≡ seq_of c) × (msg.registers_seq ≡ seq_of r) × (msg.sets_seq ≡ seq_of s)
unfolding message_of
seqs_sent c r s msg e = elim (Bool-cases (nothing_sent c r s)) [
  | inl q ↦ absurd (let f : none ≡ some msg = rw q at e in cc)
  | inr q ↦
      let f = some-injective _ msg (rw q at e) in
      (
        sym (ap (λ m. m.counters_seq) f),
        sym (ap (λ m. m.registers_seq) f),
        sym (ap (λ m. m.sets_seq) f),
      )
]

-- Once a peer's acknowledgement of a message is in, Delta has nothing to send to that peer, if the
-- store has not changed since it gave the message.
pub delta-ack-answer :
    (peer : Str) (st : Store) (msg : Message)
    → 1 ≤ st.counters.seq
    → 1 ≤ st.registers.seq
    → 1 ≤ st.sets.seq
    → delta peer st ≡ some (some msg)
    → delta peer (ack peer (answer msg) st) ≡ some none
unfolding delta ack
delta-ack-answer peer st msg hc hr hs e = elim (Option-cases (Sets.delta peer st.sets)) [
  | inl q ↦ absurd (let f : none ≡ some (some msg) = rw q at e in cc)
  | inr (s, q) ↦
      let (c, r, t) =
        seqs_sent (Part.delta counters peer st.counters) (Part.delta registers peer st.registers) s
          msg (some-injective _ (some msg) (rw q at e)) in
      rw (
        delta-ack counters peer msg.counters_seq st.counters hc c,
        delta-ack registers peer msg.registers_seq st.registers hr r,
        sets_delta-ack peer msg.sets_seq st.sets s hs q t,
      )
]
