-- ===== src/Lib.antt =====
-- commute: a replicated key-value store. Each node keeps counters, registers and sets (CRDTs), gossips
-- them to its peers over HTTP, and finds its peers by SWIM, a membership protocol over UDP.
--
-- The parts and the code that they model:
--   Prelude            strings as lists of bytes, Go's maps as association lists with distinct keys,
--                      slices, 64-bit integers.
--   Crdt.GCounter      internal/crdt/crdt.go, GCounter: Increment, Value, Merge, IsLessOrEqual.
--   Crdt.PnCounter     internal/crdt/crdt.go, PNCounter.
--   Crdt.LwwRegister   internal/crdt/crdt.go, LWWRegister and the order After of its entries.
--   Crdt.DvvSet        internal/crdt/dvvset.go, DVVSet: discard, event, Update, Sync, IsLessOrEqual.
--   Crdt.OrSet         internal/crdt/crdt.go, ORSet, a map of version vector sets.
--   Crdt.Replicated    the interface that the store uses, filled by the counters and the registers.
--   Store.Part         internal/server/store.go, what Store does for each of its types: the state, the
--                      log of deltas by sequence number, the peers' acknowledgements; a loop of Merge
--                      (receive), Ack (ack) and Delta (delta).
--   Store.Part.Sync    two stores' counters, or registers, and the gossip and acknowledgements in
--                      flight between them (StartGossip, postGossip, sendAck and postAck in
--                      internal/server/server.go); not the sets.
--   Store.Sets         what Store.Part is for the other types, for the sets, whose operations can panic.
--   Store              internal/server/store.go, Store: the three types together.
--   Swim.Types         internal/swim/event.go and swim.go, events and peers.
--   Swim.Peers         internal/swim/swim.go, peers: join, process, delete, nextProbe; Member.join.
--   Swim.Subgroup      internal/swim/swim.go, kRandomPeers.
--   Swim.Message       internal/swim/message.go and event.go, the wire format.
--   Swim.EventQueue    internal/swim/event.go, EventQueue, over the heap of container/heap.
--   Swim.Sending       internal/swim/swim.go, sendToAddr with writeMessage: the events that a message
--                      takes along, and how often.
--   Swim.Probe         internal/swim/swim.go, Probe: what it does between two selects.
--   Swim.Listen        internal/swim/swim.go, Listen and the relays that it starts, as a step relation
--                      over the datagrams, the locks and the channels.
--   Swim.Member        internal/swim/swim.go, New: its checks, and the node that it gives.
--   Swim.Bootstrap     internal/swim/swim.go, Bootstrap and JoinHandler.
--   Server             internal/server/server.go, Notify, parseNodeAddr and the handlers of counters,
--                      registers, gossip and acknowledgements, over the store; Peer.HTTPAddr.
--   Server.Sets        internal/server/server.go, getSet and postSet.
--   Server.Gossip      internal/server/server.go, a tick of StartGossip, and sendAck.
--   Tests              the theorems on concrete values.
--
-- How the model corresponds to the code. A method that changes its receiver gives the new value. A map
-- that the code ranges over is gone through in the list's order, and the theorems hold for every order
-- of the list. A map that is nil is none in GCounter, where the zero counter of a delta has one, and
-- the empty map elsewhere. Counters and sequence numbers are uint64 and wrap at 2^64; a slice bound is
-- an int of 64 bits, and a negative one is a panic: none, or panic in the wire format. A time is a
-- number of nanoseconds, and the reading of the clock is an argument. Random numbers come from the
-- parameter Rng, of which only the range of IntN is known, the checksum crc32 is the parameter crc,
-- and max_disseminations is the floating-point formula for how often an event is sent. A send on a
-- closed channel is the result panicked; what a select takes, and whether a datagram is written, are
-- arguments. Loops recur on lists or on the number of rounds, so no fuel is needed, but for up and down
-- of the event queue's heap, which take the length of the heap as fuel: an index is at most that, up
-- lowers it and down raises it. A method of the store or of peers that takes a lock is one step, and so
-- is process, which takes it up to twice and then sends on a channel.
--
-- Not modelled: JSON (what a body says is a parameter of the handlers, Codec and SetCodec), HTTP,
-- sockets, timers and logging, which only carry the values modelled here; nil pointers that gossip could
-- bring in; the maps that the counters in a message of Delta share with the stored deltas; the resolver
-- of addresses; the goroutines that Start runs, and the configuration of the server; the command line.
pub mod Prelude
pub mod Crdt
pub mod Store
pub mod Swim
pub mod Server
mod Tests
