-- ===== src/Store/Part/Sync/Converge.antt =====
-- Gossip of the counters, or of the registers, converges, whatever was lost, repeated or reordered
-- before. The sets, whose Merge can panic, are not a `Replicated` type, and not covered.
use commute.Prelude.{
  str_eq, ℕ, ◌+◌, ◌<◌, Str, Map, none, some, [], ◌≡◌, lookup, length, u64, subst, arith,
}
use commute.Crdt.Replicated.{Replicated}
use commute.Store.Part.{empty, receive, delta}
use commute.Store.Part.Log.{Holds, empty-IsLogged}
use commute.Store.Part.Receive.{receive-IsLogged}
use commute.Store.Part.Sync.{Gossip, Link, Reach, here, next}
use commute.Store.Part.Sync.Promise.{
  Promise, Covers, Step-Promise, delta-Completes, delta-none, Covers-all, receive-Covers,
}

-- Two nodes that have just started.
abbrev pub start : {S : Type 0} → Link S
start = record { sender = empty; peer = empty; gossips = []; acks = [] }

module _ {S : Type 0} (R : Replicated S) (node peer_node peer_addr : Str) where
  start-Promise : Promise R peer_addr start
  unfolding empty lookup
  start-Promise = record {
    sender = empty-IsLogged R;
    peer = empty-IsLogged R;
    acked = record { bound = omega arith; held = λ i k d h e. absurd (omega arith) };
    gossips = λ g i. elim i [ ];
    acks = λ n i. elim i [ ];
  }

  Reach-Promise :
      {l m : Link S}
      → Promise R peer_addr l
      → Reach R node peer_node peer_addr l m
      → Promise R peer_addr m
  Reach-Promise p here = p
  Reach-Promise p (next r s) = Step-Promise R node peer_node peer_addr s (Reach-Promise p r)

  -- For one type of the store, the counters or the registers, in every state that two started nodes
  -- reach by writes, gossip from third nodes and gossip and acknowledgements between them that may be
  -- lost, repeated or reordered: if Delta of this type has values for the peer, then the loop of Merge
  -- over them, while sequence numbers stay below 2^64, leaves the peer with a value at each of the
  -- sender's keys of this type, and the sender's value is below it.
  pub gossip_converges :
      {m : Link S} (seq : ℕ) (state : Map Str S)
      → Reach R node peer_node peer_addr start m
      → delta R peer_addr m.sender ≡ some (seq, state)
      → m.peer.seq + length state < u64
      → (k : Str) (s : S) → lookup k m.sender.live ≡ some s
      → Holds R (receive R peer_node state m.peer).live k s
  gossip_converges {m} seq state r e room =
      let v = Reach-Promise start-Promise r in
      let (q, c) = delta-Completes R peer_addr m.sender m.peer seq state v.sender v.acked e in
      let g : Gossip S = record { seq = seq; state = state } in
      Covers-all R m.sender (receive R peer_node state m.peer) v.sender
        (receive-IsLogged R peer_node state m.peer v.peer c.message room)
        (subst (Covers R m.sender (receive R peer_node state m.peer)) q
          (receive-Covers R peer_node m.sender m.peer g v.peer room c))

  -- For one type of the store, the counters or the registers, in every state that two started nodes
  -- reach by writes, gossip from third nodes and gossip and acknowledgements between them that may be
  -- lost, repeated or reordered: if Delta of this type has nothing for the peer, then the peer has a
  -- value at each of the sender's keys of this type already, and the sender's value is below it.
  pub silence_converged :
      {m : Link S}
      → Reach R node peer_node peer_addr start m
      → delta R peer_addr m.sender ≡ none
      → (k : Str) (s : S) → lookup k m.sender.live ≡ some s
      → Holds R m.peer.live k s
  silence_converged {m} r e =
      let v = Reach-Promise start-Promise r in
      Covers-all R m.sender m.peer v.sender v.peer (record {
        bound = omega arith;
        held = λ i k d h f. v.acked.held i k d (omega (arith, delta-none R peer_addr m.sender e)) f;
      })
