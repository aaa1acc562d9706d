-- ===== src/Store/Part.antt =====
-- internal/server/store.go: what `Store` does for each of its three types in the same way. A `Part`
-- holds the four fields of one type, `counters`, `counterSeq`, `deltaCounters` and `ackCounters` for
-- the counters; the type itself comes as the interface `Replicated`.
pub mod Log
pub mod Receive
pub mod Extends
pub mod Interval
pub mod Sync
use commute.Prelude.{
  str_eq, nat_eq, ℕ, zero, suc, ◌+◌, ◌-◌, ◌%◌, max, Str, Map, Option, none, some, [], ◌∷◌, Bool,
  false, lookup, insert, merge_with, or_else, is_some, if◌then◌else◌, ltb, nat_beq, u64,
}
use commute.Crdt.Replicated.{Replicated}

pub record Part (S : Type 0) : Type 0 where
  pub live : Map Str S
  pub seq : ℕ
  pub deltas : Map ℕ (Map Str S)
  pub acks : Map Str ℕ

-- NewStore: sequence numbers start at 1.
unfoldable pub empty : {S : Type 0} → Part S
empty = record { live = []; seq = 1; deltas = []; acks = [] }

-- st.ackCounters[peer]
abbrev pub acked : {S : Type 0} → Part S → Str → ℕ
acked p peer = or_else (lookup peer p.acks) 0

-- Ack
unfoldable pub ack : {S : Type 0} → Str → ℕ → Part S → Part S
ack sender n p = record p { acks = insert sender (max (acked p sender) n) p.acks }

module _ {S : Type 0} (R : Replicated S) where
  -- The value at a key, a new one of this node if there is none.
  abbrev pub current : Str → Str → Part S → S
  current node key p = or_else (lookup key p.live) (R.new node)

  -- Merges `d` into the value at the key and logs it as the delta of the next sequence number.
  unfoldable pub absorb : Str → Str → S → Part S → Part S
  absorb node key d p = record p {
    live = insert key (R.merge (current node key p) d) p.live;
    deltas = insert p.seq ((key, d) ∷ []) p.deltas;
    seq = (p.seq + 1) % u64;
  }

  -- IncrementCounter, DecrementCounter, SetRegister, AddSet: `delta` is the type's own operation.
  unfoldable pub write : Str → Str → (S → S) → Part S → Part S
  write node key delta p = absorb node key (delta (current node key p)) p

  -- `ok && incoming.IsLessOrEqual(local)`
  unfoldable pub is_known : Option S → S → Bool
  is_known none incoming = false
  is_known (some local) incoming = R.is_less_or_equal incoming local

  -- The body of a loop of Merge.
  unfoldable pub receive_one : Str → Str → S → Part S → Part S
  receive_one node k incoming p =
      if is_known (lookup k p.live) incoming then p else absorb node k incoming p

  -- One of the three loops of Merge.
  unfoldable pub receive : Str → Map Str S → Part S → Part S
  receive node [] p = p
  receive node ((k, incoming) ∷ msg) p = receive node msg (receive_one node k incoming p)

  -- `counters[k] = &v` or `local.Merge(&v)`
  abbrev pub collect : Option S → S → S
  collect none v = v
  collect (some local) v = R.merge local v

  -- for i := from; i < from + rounds; i++ { for k, v := range st.deltaCounters[i] { … } }
  unfoldable pub interval_from : ℕ → ℕ → Map ℕ (Map Str S) → Map Str S → Map Str S
  interval_from zero i deltas msg = msg
  interval_from (suc rounds) i deltas msg =
      interval_from rounds (i + 1) deltas (merge_with collect msg (or_else (lookup i deltas) []))

  -- One type's share of Delta: its sequence number and state, or nothing.
  unfoldable pub delta : Str → Part S → Option (ℕ × Map Str S)
  delta peer p =
      if nat_beq (acked p peer) 0
      then some (p.seq, p.live)
      else if ltb (acked p peer) p.seq
      then some (p.seq, interval_from (p.seq - acked p peer) (acked p peer) p.deltas [])
      else none
