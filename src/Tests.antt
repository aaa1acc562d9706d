-- ===== src/Tests.antt =====
-- Runs of the theorems on concrete nodes, counters, sets, messages and member lists.
mod Crdt
mod Store
mod Swim
mod Server
mod Sending
mod Probe
mod Sets
mod Bootstrap
mod Gossip
mod Member
mod Listen
use commute.Prelude.{Str, [], ◌∷◌}

abbrev pub node_a : Str
node_a = 97 ∷ []

abbrev pub node_b : Str
node_b = 98 ∷ []

abbrev pub node_c : Str
node_c = 99 ∷ []
