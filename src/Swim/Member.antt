-- ===== src/Swim/Member.antt =====
-- internal/swim/swim.go, New: what is checked of the configuration, and the node that it gives. A
-- configuration holds numbers that may be negative; `Text` has net.SplitHostPort, none being its error,
-- and strings.TrimSpace. What New only stores (connections, clients, loggers) is left out, but for
-- whether the connection and the notifier are given.
pub mod Checks
use commute.Prelude.{
  str_eq, ℕ, ◌+◌, Str, Map, Option, none, some, List, [], ◌∷◌, ◌++◌, Bool, true, false, not, ◌&&◌,
  ◌||◌, if◌then◌else◌, leb, ltb, nat_beq, length, insert, ℤ, pos, negsuc, pos_part,
}
use commute.Swim.Types.{Rng}
use commute.Swim.Peers
use commute.Swim.Peers.{Peers}
use commute.Swim.EventQueue.{EventItem}

pub record Text : Type 0 where
  pub trim_space : Str → Str
  pub split_host_port : Str → Option (Str × Str)

pub record Config : Type 0 where
  pub node_id : Str
  pub advertise_host : Str
  pub app_port : ℕ
  pub has_conn : Bool
  pub seeds : Str
  pub protocol_period : ℤ
  pub ack_timeout : ℤ
  pub subgroup_size : ℤ
  pub dissemination_factor : ℤ
  pub has_notifier : Bool

pub data ConfigError : Type 0 where
  no_node_id no_advertise_host no_conn bad_seed bad_period bad_timeout long_timeout bad_subgroup
        no_notifier :
      ConfigError

pub data Checked (A : Type 0) : Type 0 where
  valid : A → Checked A
  invalid : ConfigError → Checked A

-- An early return with an error.
abbrev pub fail_if : {A : Type 0} → Bool → ConfigError → Checked A → Checked A
fail_if true e rest = invalid e
fail_if false e rest = rest

infixl 5 ◌>>=◌
abbrev pub ◌>>=◌ : {A B : Type 0} → Checked A → (A → Checked B) → Checked B
valid a >>= f = f a
invalid e >>= f = invalid e

abbrev pub is_positive : ℤ → Bool
is_positive (pos n) = ltb 0 n
is_positive (negsuc n) = false

-- strings.SplitSeq(s, ",")
abbrev pub start_piece : ℕ → List Str → List Str
start_piece c [] = (c ∷ []) ∷ []
start_piece c (piece ∷ pieces) = (c ∷ piece) ∷ pieces

unfoldable pub split : Str → List Str
split [] = [] ∷ []
split (c ∷ s) = let rest = split s in if nat_beq c 44 then [] ∷ rest else start_piece c rest

-- A host and a port, both not empty.
abbrev pub is_host_port : Option (Str × Str) → Bool
is_host_port none = false
is_host_port (some (host, port)) = not (nat_beq (length host) 0 || nat_beq (length port) 0)

-- A map's keys.
abbrev pub keys : Map Str Unit → List Str
keys [] = []
keys ((k, _) ∷ m) = k ∷ keys m

module _ (T : Text) where
  -- The loop over the seeds.
  unfoldable pub parse_seeds : List Str → Map Str Unit → Checked (Map Str Unit)
  unfolding insert
  parse_seeds [] seeds = valid seeds
  parse_seeds (piece ∷ pieces) seeds =
      let s = T.trim_space piece in
      let without = parse_seeds pieces seeds in
      let more = parse_seeds pieces (insert s tt seeds) in
      if nat_beq (length s) 0
      then without
      else fail_if (not (is_host_port (T.split_host_port s))) bad_seed more

  module _ (R : Rng) where
    pub record Member : Type 0 where
      pub advertise_host : Str
      pub app_port : ℕ
      pub seeds : List Str
      pub peers : Peers R
      pub protocol_period : ℕ
      pub ack_timeout : ℕ
      pub dissemination_factor : ℕ
      pub period : ℕ
      pub event_queue : List EventItem

    -- The Member of a configuration that is checked.
    unfoldable pub member : Config → R.Gen → Map Str Unit → Member
    unfolding Peers.new
    member cfg g seeds = record {
      advertise_host = cfg.advertise_host;
      app_port = cfg.app_port;
      seeds = keys seeds;
      peers = Peers.new R (pos_part cfg.subgroup_size) g;
      protocol_period = pos_part cfg.protocol_period;
      ack_timeout = pos_part cfg.ack_timeout;
      dissemination_factor =
          if is_positive cfg.dissemination_factor then pos_part cfg.dissemination_factor else 3;
      period = 0;
      event_queue = [];
    }

    -- New, from the seeds on.
    unfoldable pub check_rest : Config → R.Gen → Map Str Unit → Checked Member
    unfolding member
    check_rest cfg g seeds = fail_if (not (is_positive cfg.protocol_period)) bad_period (
        fail_if (not (is_positive cfg.ack_timeout)) bad_timeout (
          fail_if (leb (pos_part cfg.protocol_period) (pos_part cfg.ack_timeout)) long_timeout (
            fail_if (not (is_positive cfg.subgroup_size)) bad_subgroup
              (fail_if (not cfg.has_notifier) no_notifier (valid (member cfg g seeds))))))

    -- New
    unfoldable pub new : Config → R.Gen → Checked Member
    unfolding split parse_seeds check_rest
    new cfg g = fail_if (nat_beq (length cfg.node_id) 0) no_node_id (
        fail_if (nat_beq (length cfg.advertise_host) 0) no_advertise_host (
          fail_if (not cfg.has_conn) no_conn
            (parse_seeds (split cfg.seeds) [] >>= check_rest cfg g)))

    -- UDPAddr: `port` is strconv.Itoa of the local port.
    unfoldable pub udp_addr : Str → Member → Str
    udp_addr port m = m.advertise_host ++ 58 ∷ port
