-- ===== src/Swim/Sending.antt =====
-- internal/swim/swim.go, sendToAddr: a message takes events of the queue along, and they go back to
-- the queue until they were sent often enough. `crc` is crc32, and `max_disseminations` is
-- ⌈factor · log₂(n)⌉ in floating point, of the factor and a number of nodes.
pub mod Datagram
pub mod Budget
use commute.Prelude.{
  ℕ, zero, suc, ◌+◌, Str, Option, none, some, List, [], ◌∷◌, ◌++◌, Bool, true, false, if◌then◌else◌,
  ltb,
}
use commute.Swim.Types.{Event}
use commute.Swim.EventQueue.{EventItem, push, pop}
use commute.Swim.Message.{Message, marshal, max_piggyback_events}

-- msg.Events = append(msg.Events, item.Event)
unfoldable pub append_events : List Event → List EventItem → List Event
append_events events [] = events
append_events events (x ∷ items) = append_events (events ++ x.event ∷ []) items

-- The loop that counts a sending and keeps the items that were not sent often enough.
unfoldable pub count_sending : ℕ → List EventItem → List EventItem
count_sending most [] = []
count_sending most (x ∷ items) =
    let rest = count_sending most items in
    if ltb (x.send_count + 1) most then record x { send_count = x.send_count + 1 } ∷ rest else rest

-- What a send leaves: whether it succeeded, the datagram given to WriteTo, and the queue.
pub record Sent : Type 0 where
  pub succeeded : Bool
  pub datagram : List ℕ
  pub queue : List EventItem

module _ (crc : List ℕ → ℕ) (max_disseminations : ℕ → ℕ → ℕ) where
  abbrev pub with_events : Message → List EventItem → Message
  with_events msg items = record msg { events = append_events msg.events items }

  unfoldable pub after_write : Bool → ℕ → ℕ → Message → List EventItem → List EventItem → Sent
  unfolding append_events count_sending marshal push
  after_write true factor peers msg items h = record {
    succeeded = true;
    datagram = marshal crc (with_events msg items);
    queue = push (count_sending (max_disseminations factor (peers + 1)) items) h;
  }
  after_write false factor peers msg items h = record {
    succeeded = false;
    datagram = marshal crc (with_events msg items);
    queue = push items h;
  }

  -- sendToAddr, with writeMessage: `written` says whether WriteTo gives no error; none is a panic.
  unfoldable pub send_to_addr : Bool → ℕ → ℕ → Message → List EventItem → Option Sent
  unfolding after_write pop
  send_to_addr written factor peers msg h = elim (pop max_piggyback_events h) [
    | none ↦ none
    | some r ↦ some (after_write written factor peers msg r.0 r.1)
  ]
