-- ===== src/Tests/Listen.antt =====
-- Node c asks node a for a ping of node b, and node b answers.
use commute.Prelude.{ℕ, ◌<◌, ◌≤◌, u64, Str, [], ◌∷◌, ◌++◌, true, false, ◌≡◌, refl, arith, length}
use commute.Swim.Message.{MessageKind, ping, ack, ping_req, Message, ok, marshal, unmarshal}
use commute.Swim.Message.RoundTrip.{unmarshal-marshal}
use commute.Swim.Listen.{
  start, time_out, finish, Action, receive, deliver, relay_does, next, panicked, Listen, listening,
  on_kind, step, heard, process_dead, begin, go,
}
use commute.Swim.Listen.Honesty.{Reach-IsHonest}
use commute.Swim.Listen.Relays.{IsHonest}
use commute.Swim.Listen.Race.{run, step-receive, send_on_closed_channel}
use commute.Tests.{node_a, node_b, node_c}
use commute.Tests.Swim.{zeros, two_members}
use commute.Tests.Sending.{no_crc}

abbrev message : MessageKind → Str → ℕ → Str → Message
message kind src period target = record {
  version = 1;
  kind = kind;
  src = src;
  period = period;
  target = target;
  events = [];
}

read_back :
    (kind : MessageKind) (src : Str) (period : ℕ) (target : Str)
    → 1 ≤ length src
    → length src ≤ 47
    → length target ≤ 47
    → period < u64
    → unmarshal no_crc (marshal no_crc (message kind src period target))
      ≡ ok (message kind src period target)
read_back kind src period target s s47 t47 p =
    unmarshal-marshal no_crc (message kind src period target) (λ input. omega arith)
      (record {
        version = refl;
        src_some = s;
        src_fits = s47;
        target_fits = t47;
        events_fit = tt;
        events_few = omega arith;
        period = p;
      })

abbrev request : Message
request = message ping_req node_c 6 node_b

abbrev reply : Message
reply = message ack node_b 6 []

abbrev hello : Message
hello = message ping node_b 2 []

read_request : unmarshal no_crc (marshal no_crc request) ≡ ok request
read_request =
    read_back ping_req node_c 6 node_b (omega arith) (omega arith) (omega arith) (omega arith)

read_reply : unmarshal no_crc (marshal no_crc reply) ≡ ok reply
read_reply = read_back ack node_b 6 [] (omega arith) (omega arith) (omega arith) (omega arith)

read_hello : unmarshal no_crc (marshal no_crc hello) ≡ ok hello
read_hello = read_back ping node_b 2 [] (omega arith) (omega arith) (omega arith) (omega arith)

abbrev idle : Listen zeros node_a
idle = listening zeros node_a two_members

send_on_closed_channel_example :
    run zeros node_a no_crc
      (receive false node_c (marshal no_crc request)
        ∷ relay_does 0 (start true true)
        ∷ receive false node_b (marshal no_crc reply)
        ∷ relay_does 0 time_out
        ∷ relay_does 0 finish
        ∷ deliver
        ∷ [])
      idle
    ≡ panicked
send_on_closed_channel_example =
    send_on_closed_channel zeros node_a no_crc false false node_c node_b (marshal no_crc request)
      (marshal no_crc reply) request reply idle (omega arith) refl read_request refl (omega arith)
      read_reply refl refl refl

abbrev greet : Action
greet = receive false node_b (marshal no_crc hello)

abbrev greeted : Listen zeros node_a
greeted = record idle { sent = (node_b, message ack node_a 2 []) ∷ [] }

greet-step : step zeros node_a no_crc greet idle ≡ next greeted
unfolding on_kind process_dead
greet-step =
    step-receive zeros node_a no_crc false node_b (marshal no_crc hello) hello idle refl read_hello

Reach-IsHonest_example : IsHonest zeros node_a (heard zeros node_a no_crc greet ++ []) greeted
Reach-IsHonest_example =
    Reach-IsHonest zeros node_a no_crc (heard zeros node_a no_crc greet ++ []) greeted
      (go greet (begin two_members) greet-step)
