-- ===== src/Store.antt =====
-- internal/server/store.go: the store. Each function is one call of the store by a handler; `none` is
-- a panic in a set. A clock reading is an argument of `set_register`. JSON is left out: `merge` takes
-- and `delta` gives the message that is on the wire.
pub mod Part
pub mod Sets
pub mod Reads
pub mod Acks
use mathlib.Core.Option
use commute.Prelude.{
  ◌>>=◌, str_eq, ℕ, Str, Map, Option, none, some, List, [], Bool, true, false, ◌&&◌, not, lookup, ℤ,
  if◌then◌else◌, is_some,
}
use commute.Crdt.DvvSet.{Vv}
use commute.Crdt.PnCounter
use commute.Crdt.PnCounter.{PnCounter}
use commute.Crdt.PnCounter.Order.{counters}
use commute.Crdt.LwwRegister
use commute.Crdt.LwwRegister.{LwwRegister}
use commute.Crdt.LwwRegister.Order.{registers}
use commute.Crdt.OrSet.{OrSet}

-- Message
pub record Message : Type 0 where
  pub counters_seq : ℕ
  pub counters : Map Str PnCounter
  pub registers_seq : ℕ
  pub registers : Map Str LwwRegister
  pub sets_seq : ℕ
  pub sets : Map Str OrSet

-- AckMessage
pub record AckMessage : Type 0 where
  pub counters_seq : ℕ
  pub registers_seq : ℕ
  pub sets_seq : ℕ

-- Store
pub record Store : Type 0 where
  pub node_id : Str
  pub counters : Part.Part PnCounter
  pub registers : Part.Part LwwRegister
  pub sets : Part.Part OrSet

-- NewStore
unfoldable pub new_store : Str → Store
unfolding Part.empty
new_store node = record {
  node_id = node;
  counters = Part.empty;
  registers = Part.empty;
  sets = Part.empty;
}

-- IncrementCounter
unfoldable pub increment_counter : Str → ℕ → Store → Store
unfolding Part.write PnCounter.increment
increment_counter key n st = record st {
  counters = Part.write counters st.node_id key (λ c. PnCounter.increment c n) st.counters;
}

-- DecrementCounter
unfoldable pub decrement_counter : Str → ℕ → Store → Store
unfolding Part.write PnCounter.decrement
decrement_counter key n st = record st {
  counters = Part.write counters st.node_id key (λ c. PnCounter.decrement c n) st.counters;
}

-- GetCounter
unfoldable pub get_counter : Str → Store → Option ℤ
unfolding PnCounter.value
get_counter key st = Option.map PnCounter.value (lookup key st.counters.live)

-- SetRegister
unfoldable pub set_register : Str → ℕ → Str → Store → Store
unfolding Part.write LwwRegister.set
set_register key now v st = record st {
  registers = Part.write registers st.node_id key (λ r. LwwRegister.set r now v) st.registers;
}

-- GetRegister
unfoldable pub get_register : Str → Store → Option Str
unfolding LwwRegister.value
get_register key st = Option.map LwwRegister.value (lookup key st.registers.live)

-- GetSet
unfoldable pub get_set : Str → Store → Option (List Str × Map Str Vv)
unfolding Sets.get_set
get_set key st = Sets.get_set key st.sets

-- AddSet
unfoldable pub add_set : Str → Str → Vv → Store → Option Store
unfolding Sets.add_set
add_set key value vv st =
    Option.map (λ p. record st { sets = p }) (Sets.add_set st.node_id key value vv st.sets)

-- RemoveSet
unfoldable pub remove_set : Str → Str → Vv → Store → Option Store
unfolding Sets.remove_set
remove_set key value vv st =
    Option.map (λ p. record st { sets = p }) (Sets.remove_set st.node_id key value vv st.sets)

-- Merge
unfoldable pub merge : Message → Store → Option (AckMessage × Store)
unfolding Part.receive Sets.receive
merge msg st = do
  sets ← Sets.receive st.node_id msg.sets st.sets
  some (
    record {
      counters_seq = msg.counters_seq;
      registers_seq = msg.registers_seq;
      sets_seq = msg.sets_seq;
    },
    record st {
      counters = Part.receive counters st.node_id msg.counters st.counters;
      registers = Part.receive registers st.node_id msg.registers st.registers;
      sets = sets;
    },
  )

-- Ack
unfoldable pub ack : Str → AckMessage → Store → Store
unfolding Part.ack
ack sender body st = record st {
  counters = Part.ack sender body.counters_seq st.counters;
  registers = Part.ack sender body.registers_seq st.registers;
  sets = Part.ack sender body.sets_seq st.sets;
}

-- A type with nothing to send has the sequence number 0 and a null map.
abbrev pub seq_of : {S : Type 0} → Option (ℕ × Map Str S) → ℕ
seq_of none = 0
seq_of (some (seq, _)) = seq

abbrev pub state_of : {S : Type 0} → Option (ℕ × Map Str S) → Map Str S
state_of none = []
state_of (some (_, state)) = state

abbrev pub nothing_sent : {A B C : Type 0} → Option A → Option B → Option C → Bool
nothing_sent a b c = not (is_some a) && (not (is_some b) && not (is_some c))

unfoldable pub message_of :
    Option (ℕ × Map Str PnCounter)
    → Option (ℕ × Map Str LwwRegister)
    → Option (ℕ × Map Str OrSet)
    → Option Message
message_of c r s =
    if nothing_sent c r s
    then none
    else some (record {
      counters_seq = seq_of c;
      counters = state_of c;
      registers_seq = seq_of r;
      registers = state_of r;
      sets_seq = seq_of s;
      sets = state_of s;
    })

-- Delta: the outer option is a panic in a set, the inner one is nothing to send.
unfoldable pub delta : Str → Store → Option (Option Message)
unfolding Part.delta Sets.delta message_of
delta peer st = do
  s ← Sets.delta peer st.sets
  some
      (message_of (Part.delta counters peer st.counters) (Part.delta registers peer st.registers) s)
