-- ===== src/Swim/Member/Checks.antt =====
-- What New promises of a node that it gives.
use commute.Prelude.{str_eq, ◌≤◌, ◌<◌, Str, Bool, true, false, ◌≡◌, length, all}
use commute.Swim.Types.{Rng}
use commute.Swim.Peers
use commute.Swim.Peers.{Peers}
use commute.Swim.Peers.Invariant.{IsValid}
use commute.Swim.Member.{Text, Checked, valid, invalid, is_host_port, Member, udp_addr}

abbrev is_valid : {A : Type 0} → Checked A → Bool
is_valid (valid a) = true
is_valid (invalid e) = false

module _ (T : Text) where
  abbrev pub is_seed : Str → Bool
  is_seed s = is_host_port (T.split_host_port s)

  module _ (R : Rng) where
    -- What the rest of the program takes for granted of a node.
    pub record IsSound (m : Member T R) : Type 0 where
      pub timeout_some : 1 ≤ m.ack_timeout
      pub timeout_within : m.ack_timeout < m.protocol_period
      pub subgroup_some : 1 ≤ m.peers.subgroup_size
      pub factor_some : 1 ≤ m.dissemination_factor
      pub named : (port : Str) → 1 ≤ length (udp_addr T R port m)
      pub seeds : all is_seed m.seeds ≡ true
      pub peers : (self : Str) → IsValid R self m.peers
