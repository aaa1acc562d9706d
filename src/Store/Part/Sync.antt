-- ===== src/Store/Part/Sync.antt =====
-- Gossip between two nodes, for the counters or for the registers: the sender's part, a peer's part, and what
-- is in flight between them. Messages and acknowledgements may be lost, repeated and reordered.
pub mod Promise
pub mod Converge
use commute.Prelude.{
  str_eq, nat_eq, ℕ, ◌+◌, ◌<◌, ◌≤◌, Str, Map, Option, none, some, [], ◌∷◌, List, ◌≡◌, lookup,
  length, u64,
}
use commute.Crdt.Replicated.{Replicated}
use commute.Store.Part.{Part, ack, write, receive, delta}
use commute.Store.Part.Log.{Holds, IsLogged}
use commute.Store.Part.Receive.{IsMessage}

-- The three fields of the gossip message for one type, as StartGossip posts them.
pub record Gossip (S : Type 0) : Type 0 where
  pub seq : ℕ
  pub state : Map Str S

pub record Link (S : Type 0) : Type 0 where
  pub sender : Part S
  pub peer : Part S
  pub gossips : List (Gossip S)
  pub acks : List ℕ

-- Some element of the list.
pub data In {A : Type 0} (a : A) : List A → Type 0 where
  first : {b : A} {l : List A} → b ≡ a → In a (b ∷ l)
  later : {b : A} {l : List A} → In a l → In a (b ∷ l)

module _ {S : Type 0} (R : Replicated S) (node peer_node peer : Str) where
  -- One event of the link. A delivery leaves what it delivers in flight, so it may come again.
  pub data Step (l : Link S) : Link S → Type 0 where
    -- a client's write at the sender
    writes :
        {m : Link S} (k : Str) (f : S → S)
        → ((s : S) → R.IsValid s → R.IsValid (f s))
        → l.sender.seq + 1 < u64
        → m ≡ record l { sender = write R node k f l.sender }
        → Step l m
    -- a gossip message of another node, at the sender
    receives :
        {m : Link S} (msg : Map Str S)
        → IsMessage R msg
        → l.sender.seq + length msg < u64
        → m ≡ record l { sender = receive R node msg l.sender }
        → Step l m
    -- a client's write at the peer
    peer_writes :
        {m : Link S} (k : Str) (f : S → S)
        → ((s : S) → R.IsValid s → R.IsValid (f s))
        → l.peer.seq + 1 < u64
        → m ≡ record l { peer = write R peer_node k f l.peer }
        → Step l m
    -- a gossip message of another node, at the peer
    peer_receives :
        {m : Link S} (msg : Map Str S)
        → IsMessage R msg
        → l.peer.seq + length msg < u64
        → m ≡ record l { peer = receive R peer_node msg l.peer }
        → Step l m
    -- StartGossip: Delta, and the request is on its way
    sends :
        {m : Link S} (seq : ℕ) (state : Map Str S)
        → delta R peer l.sender ≡ some (seq, state)
        → m ≡ record l { gossips = record { seq = seq; state = state } ∷ l.gossips }
        → Step l m
    -- postGossip: Merge, and the acknowledgement is on its way
    delivers :
        {m : Link S} (g : Gossip S)
        → In g l.gossips
        → l.peer.seq + length g.state < u64
        → m ≡ record l { peer = receive R peer_node g.state l.peer; acks = g.seq ∷ l.acks }
        → Step l m
    -- postAck: Ack
    acknowledges :
        {m : Link S} (n : ℕ)
        → In n l.acks
        → m ≡ record l { sender = ack peer n l.sender }
        → Step l m

  pub data Reach (l : Link S) : Link S → Type 0 where
    here : Reach l l
    next : {m n : Link S} → Reach l m → Step m n → Reach l n
