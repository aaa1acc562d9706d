-- ===== src/Tests/Sending.antt =====
-- A queue of three events and a message that takes them along.
use commute.Prelude.{ℕ, zero, suc, ◌≤◌, some, List, [], ◌∷◌, Bool, false, ◌≡◌, refl, arith, length}
use commute.Swim.Types.{dead, Event}
use commute.Swim.EventQueue.{EventItem, pop}
use commute.Swim.EventQueue.Array.{tally}
use commute.Swim.EventQueue.Pop.{IsQueue, Taken, pop_lem}
use commute.Swim.Message.{ping, Message, max_message_size}
use commute.Swim.Sending.{Sent, send_to_addr}
use commute.Swim.Sending.Datagram.{send_to_addr_failed, datagram_fits}
use commute.Swim.Sending.Budget.{send_all, send_all_drains}
use commute.Tests.{node_a, node_b, node_c}

abbrev item : ℕ → EventItem
item n = record { event = record { kind = dead; node = node_c }; send_count = n; index = 0 }

abbrev three_items : List EventItem
three_items = item 0 ∷ item 2 ∷ item 1 ∷ []

three_items-IsQueue : IsQueue three_items
three_items-IsQueue zero p l = absurd (omega arith)
three_items-IsQueue (suc zero) p l = omega arith
three_items-IsQueue (suc (suc zero)) p l = omega arith
three_items-IsQueue (suc (suc (suc c))) p l = absurd (omega arith)

pop_lem_example : Taken 2 three_items (pop 2 three_items)
pop_lem_example = pop_lem 2 three_items three_items-IsQueue

abbrev pub no_crc : List ℕ → ℕ
no_crc input = 0

-- Three sends at most, whatever the number of peers.
abbrev three_sends : ℕ → ℕ → ℕ
three_sends factor nodes = 3

abbrev ping_b : Message
ping_b = record { version = 1; kind = ping; src = node_a; period = 7; target = node_b; events = [] }

send_to_addr_failed_example :
    (s : Sent) × (send_to_addr no_crc three_sends false 3 2 ping_b three_items ≡ some s)
    × (s.succeeded ≡ false)
    × IsQueue s.queue
    × ((q : Event → ℕ → Bool) → tally q s.queue ≡ tally q three_items)
send_to_addr_failed_example =
    send_to_addr_failed no_crc three_sends 3 2 ping_b three_items three_items-IsQueue

datagram_fits_example :
    (s : Sent) × (send_to_addr no_crc three_sends false 3 2 ping_b three_items ≡ some s)
    × (s.succeeded ≡ false)
    × (length s.datagram ≤ max_message_size)
datagram_fits_example =
    datagram_fits no_crc three_sends false 3 2 ping_b three_items three_items-IsQueue refl
      (omega arith) (omega arith) refl

send_all_drains_example :
    send_all no_crc three_sends 3 2
      (ping_b ∷ ping_b ∷ ping_b ∷ ping_b ∷ ping_b ∷ ping_b ∷ [])
      three_items
    ≡ some []
send_all_drains_example =
    send_all_drains no_crc three_sends 3 2
      (ping_b ∷ ping_b ∷ ping_b ∷ ping_b ∷ ping_b ∷ ping_b ∷ []) three_items three_items-IsQueue
      (omega arith)
