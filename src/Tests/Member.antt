-- ===== src/Tests/Member.antt =====
-- A configuration with the seed b:1, after a comma.
use commute.Prelude.{some, [], ◌∷◌, true, pos, negsuc}
use commute.Swim.Member.{Text, Config}
use commute.Tests.{node_a, node_b}

abbrev plain_text : Text
plain_text = record { trim_space = λ s. s; split_host_port = λ s. some (node_b, 49 ∷ []) }

abbrev config : Config
config = record {
  node_id = node_a;
  advertise_host = node_a;
  app_port = 80;
  has_conn = true;
  seeds = 44 ∷ 98 ∷ 58 ∷ 49 ∷ [];
  protocol_period = pos 1000000000;
  ack_timeout = pos 200000000;
  subgroup_size = pos 3;
  dissemination_factor = negsuc 0;
  has_notifier = true;
}
