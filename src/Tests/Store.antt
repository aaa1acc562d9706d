-- ===== src/Tests/Store.antt =====
-- Stores of two nodes that gossip a counter.
use commute.Prelude.{
  str_eq, nat_eq, Str, Map, none, some, [], ◌∷◌, ◌≡◌, inl, inr, refl, arith, subst, str_beq,
  Bool-cases, lookup, insert, merge_with, pos, ◌+ℤ◌,
}
use mathlib.Core.Option.{some-injective}
use commute.Crdt.GCounter
use commute.Crdt.PnCounter
use commute.Crdt.PnCounter.{PnCounter}
use commute.Crdt.PnCounter.Order.{counters}
use commute.Crdt.LwwRegister
use commute.Store.{Message, increment_counter, get_counter, set_register, get_register, new_store}
use commute.Store.Part
use commute.Store.Part.{Part, empty, write, receive, delta}
use commute.Store.Part.Log.{Holds, IsLogged, empty-IsLogged}
use commute.Store.Part.Receive.{IsMessage, receive-IsLogged}
use commute.Store.Part.Sync.{
  Link, Gossip, first, writes, sends, delivers, acknowledges, Reach, here, next,
}
use commute.Store.Part.Sync.Converge.{start, gossip_converges, silence_converged}
use commute.Store.Reads.{get_counter-increment_counter, get_register-set_register}
use commute.Tests.{node_a, node_b, node_c}

get_counter-increment_counter_example :
    get_counter node_c (increment_counter node_c 5 (new_store node_a))
    ≡ some (PnCounter.value (PnCounter.new node_a) +ℤ pos 5)
unfolding lookup new_store empty PnCounter.new
get_counter-increment_counter_example =
    get_counter-increment_counter node_c 5 (new_store node_a) node_c (omega arith) (omega arith)

get_register-set_register_example :
    get_register node_c (set_register node_c 7 node_b (new_store node_a)) ≡ some node_b
unfolding lookup new_store empty LwwRegister.new
get_register-set_register_example =
    get_register-set_register node_c 7 node_b (new_store node_a) node_c (omega arith)

abbrev pub first_message : Message
first_message = record {
  counters_seq = 1;
  counters = [];
  registers_seq = 1;
  registers = [];
  sets_seq = 1;
  sets = [];
}

abbrev five : PnCounter
five = PnCounter.increment (PnCounter.new node_a) 5

increment-IsValid :
    (s : PnCounter) → PnCounter.IsValid s → PnCounter.IsValid (PnCounter.increment s 5)
unfolding PnCounter.increment GCounter.increment lookup
increment-IsValid s v = record { inc = (refl, tt); dec = tt }

abbrev counter_message : Map Str PnCounter
counter_message = (node_c, five) ∷ []

counter_message-IsMessage : IsMessage counters counter_message
unfolding lookup PnCounter.new GCounter.new
counter_message-IsMessage = record {
  distinct = (refl, tt);
  valid = λ k e q. elim (Bool-cases (str_beq node_c k)) [
    | inl r ↦
        subst PnCounter.IsValid (some-injective five e (rw r at q))
          (increment-IsValid (PnCounter.new node_a) (record { inc = tt; dec = tt }))
    | inr r ↦ absurd (let f : none ≡ some e = rw r at q in cc)
  ];
}

receive-IsLogged_example : IsLogged counters (receive counters node_b counter_message empty)
unfolding empty
receive-IsLogged_example =
    receive-IsLogged counters node_b counter_message empty (empty-IsLogged counters)
      counter_message-IsMessage (omega arith)

abbrev incremented : Part PnCounter
incremented = write counters node_a node_c (λ c. PnCounter.increment c 5) empty

abbrev written : Link PnCounter
written = record { sender = incremented; peer = empty; gossips = []; acks = [] }

Reach-written : Reach counters node_a node_b node_b start written
unfolding empty
Reach-written =
    next here (writes node_c (λ c. PnCounter.increment c 5) increment-IsValid (omega arith) refl)

-- What node b is sent first, and its state once it has merged that.
abbrev first_gossip : Gossip PnCounter
first_gossip = record { seq = 2; state = incremented.live }

abbrev sent : Link PnCounter
sent = record written { gossips = first_gossip ∷ [] }

abbrev delivered : Link PnCounter
delivered = record sent { peer = receive counters node_b incremented.live empty; acks = 2 ∷ [] }

abbrev acknowledged : Link PnCounter
acknowledged = record delivered { sender = Part.ack node_b 2 incremented }

-- Node a counts again, so that it has a delta to send.
abbrev counted_again : Link PnCounter
counted_again = record acknowledged {
  sender = write counters node_a node_c (λ c. PnCounter.increment c 6) acknowledged.sender;
}

Reach-acknowledged : Reach counters node_a node_b node_b start acknowledged
unfolding empty write Part.absorb delta lookup insert
Reach-acknowledged =
    next
      (next (next Reach-written (sends 2 incremented.live refl refl))
        (delivers first_gossip (first refl) (omega arith) refl))
      (acknowledges 2 (first refl) refl)

increment_again-IsValid :
    (s : PnCounter) → PnCounter.IsValid s → PnCounter.IsValid (PnCounter.increment s 6)
unfolding PnCounter.increment GCounter.increment lookup
increment_again-IsValid s v = record { inc = (refl, tt); dec = tt }

Reach-counted_again : Reach counters node_a node_b node_b start counted_again
unfolding empty write Part.absorb Part.ack
Reach-counted_again =
    next Reach-acknowledged
      (writes node_c (λ c. PnCounter.increment c 6) increment_again-IsValid (omega arith) refl)

-- Node a's counter after its first write, and after its second.
abbrev once : PnCounter
once = PnCounter.merge (PnCounter.new node_a) five

abbrev twice : PnCounter
twice = PnCounter.merge once (PnCounter.increment once 6)

gossip_converges_example :
    Holds counters
      (receive counters node_b ((node_c, PnCounter.increment once 6) ∷ []) counted_again.peer).live
      node_c
      twice
unfolding delta lookup write Part.absorb Part.ack insert empty Part.interval_from merge_with receive
    Part.receive_one Part.is_known
gossip_converges_example =
    gossip_converges counters node_a node_b node_b 3 ((node_c, PnCounter.increment once 6) ∷ [])
      Reach-counted_again refl (omega arith) node_c twice refl

silence_converged_example : Holds counters acknowledged.peer.live node_c once
unfolding delta lookup Part.ack insert write Part.absorb empty
silence_converged_example =
    silence_converged counters node_a node_b node_b Reach-acknowledged refl node_c once refl
