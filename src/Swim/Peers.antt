-- ===== src/Swim/Peers.antt =====
-- internal/swim/swim.go: the member list `peers`. Each function is taken as one step, with nothing of
-- another goroutine in between. nextProbe, asJoinBody, join and delete are one critical section in the
-- source; process is up to two, the test of the last event with its record, and delete, and then a
-- send on the channel `events`, which is the list of the events sent; Member.join is all of these.
pub mod Invariant
pub mod Join
pub mod Rounds
pub mod Death
pub mod Skip
use commute.Prelude.{
  str_eq, ℕ, zero, suc, ◌+◌, ◌*◌, Str, Map, Option, none, some, List, [], ◌∷◌, ◌++◌, map, Bool,
  true, false, not, if◌then◌else◌, leb, nat_beq, str_beq, lookup, insert, erase, length, get_elem?,
  swap, delete_func, contains_func, is_some,
}
use commute.Swim.Types.{EventKind, dead, alive, kind_beq, Event, Peer, has_addr, JoinBody, Rng}

module _ (R : Rng) where
  pub record Peers : Type 0 where
    pub peers : List Peer
    pub probe_cursor : ℕ
    pub subgroup_size : ℕ
    pub state : Map Str Event
    pub dead_peers : Map Str Unit
    pub events : List Event
    pub rng : R.Gen

  -- newPeers
  unfoldable pub new : ℕ → R.Gen → Peers
  new subgroup_size rng = record {
    peers = [];
    probe_cursor = 0;
    subgroup_size = subgroup_size;
    state = [];
    dead_peers = [];
    events = [];
    rng = rng;
  }

  -- The loop of the Fisher-Yates shuffle, at index `i`.
  unfoldable pub shuffle_from : ℕ → ℕ → List Peer → R.Gen → List Peer × R.Gen
  shuffle_from zero i xs g = (xs, g)
  shuffle_from (suc rounds) i xs g =
      let (j, g') = R.int_n (i + 1) g in shuffle_from rounds (i + 1) (swap xs i j) g'

  -- From index 1 to the end of the list.
  unfoldable pub shuffle : List Peer → R.Gen → List Peer × R.Gen
  shuffle [] g = ([], g)
  shuffle (x ∷ xs) g = shuffle_from (length xs) 1 (x ∷ xs) g

  unfoldable pub take_turn : Peers → Option Peer × Peers
  take_turn p = (get_elem? p.peers p.probe_cursor, record p { probe_cursor = p.probe_cursor + 1 })

  -- nextProbe
  unfoldable pub next_probe : Peers → Option Peer × Peers
  unfolding take_turn
  next_probe p =
      if nat_beq (length p.peers) 0
      then (none, p)
      else if leb (length p.peers) p.probe_cursor
      then (let (xs, g) = shuffle p.peers p.rng in
          take_turn (record p { peers = xs; probe_cursor = 0; rng = g }))
      else take_turn p

  -- asJoinBody
  unfoldable pub as_join_body : Peers → Str → ℕ → JoinBody
  as_join_body p self app_port = record {
    src = self;
    peers = p.peers ++ record { udp_addr = self; http_port = app_port } ∷ [];
  }

  -- The append of join, and the swap that puts the new peer at a random place.
  unfoldable pub add_peer : Peer → Peers → Peers
  add_peer jp p =
      let (j, g) = R.int_n (length p.peers + 1) p.rng in
      record p { peers = swap (p.peers ++ jp ∷ []) (length p.peers) j; rng = g }

  -- `jp.UDPAddr == self`, or dead, or a peer already
  unfoldable pub is_skipped : Str → Str → Peers → Bool
  is_skipped self addr p =
      if str_beq addr self
      then true
      else if is_some (lookup addr p.dead_peers)
      then true
      else contains_func (has_addr addr) p.peers

  -- The loop of join, and the peers that it added.
  unfoldable pub join_loop : Str → List Peer → Peers → List Peer × Peers
  join_loop self [] p = ([], p)
  join_loop self (jp ∷ rest) p = elim (is_skipped self jp.udp_addr p) [
    | true ↦ join_loop self rest p
    | false ↦ let (added, q) = join_loop self rest (add_peer jp p) in (jp ∷ added, q)
  ]

  -- peers.join
  unfoldable pub join : Str → JoinBody → Peers → List Peer × Peers
  join self body p =
      join_loop self body.peers (record p { dead_peers = erase body.src p.dead_peers })

  -- delete
  unfoldable pub delete : Str → Peers → Peers
  delete addr p = record p {
    peers = delete_func (has_addr addr) p.peers;
    dead_peers = insert addr tt p.dead_peers;
  }

  -- The send on `events`, unless the select takes `ctx.Done()`.
  unfoldable pub emit : Bool → Event → Peers → Peers
  emit done e p = if done then p else record p { events = p.events ++ e ∷ [] }

  pub is_repeated : Option Event → Event → Bool
  is_repeated none e = false
  is_repeated (some known) e = kind_beq known.kind e.kind

  unfoldable pub act : Bool → Event → EventKind → Peers → Peers
  act done e alive p = emit done e p
  act done e dead p = emit done e (delete e.node p)

  -- process: `done` says whether the select takes `ctx.Done()`.
  unfoldable pub process : Bool → Event → Peers → Peers
  unfolding is_repeated act
  process done e p =
      if is_repeated (lookup e.node p.state) e
      then p
      else act done e e.kind (record p { state = insert e.node e p.state })

  unfoldable pub process_added : Bool → List Peer → Peers → Peers
  process_added done [] p = p
  process_added done (q ∷ rest) p =
      process_added done rest (process done (record { kind = alive; node = q.udp_addr }) p)

  -- Member.join: the peers that were added are alive.
  unfoldable pub member_join : Bool → Str → JoinBody → Peers → Peers
  unfolding process_added
  member_join done self body p = let (added, q) = join self body p in process_added done added q
