-- ===== src/Net/Runs.antt =====
-- Concrete runs, and the theorems at a session in the middle of its work.
use clarion.Prelude.{List, ℕ, ltb, ◌≡◌, ◌≢◌, refl, [], ◌∷◌, ◌++◌, Bool, true, false, none, some}
use clarion.Net.Session.{
  Message, Session, opened, async_write, write_front, on_send, erase_front, on_write, write_ends,
  on_accept, on_read,
}
use clarion.Net.Hub.{
  Event, joins, leaves, after, contains, join, leave, broadcast, received, received_once,
}
use clarion.Net.Delivery.{
  Reach, start, accept, send, written, failed, Drains, delivered_in_order, one_write_at_a_time,
  idle_is_drained, queue_empties,
}

abbrev hello : Message
hello = b'h' ∷ []

abbrev bye : Message
bye = b'b' ∷ []

-- Both messages are queued, and the first is being written.
abbrev two_queued : Session
two_queued = record {
  queue = hello ∷ bye ∷ [];
  writing = some hello;
  reads = 1;
  joined = true;
  delivered = [];
  broadcast = [];
}

abbrev one_written : Session
one_written = record {
  queue = bye ∷ [];
  writing = some bye;
  reads = 1;
  joined = true;
  delivered = hello ∷ [];
  broadcast = [];
}

abbrev all_written : Session
all_written = record {
  queue = [];
  writing = none;
  reads = 1;
  joined = true;
  delivered = hello ∷ bye ∷ [];
  broadcast = [];
}

two_queued-Reach : Reach true (hello ∷ bye ∷ []) two_queued
unfolding opened on_accept on_send write_front async_write
two_queued-Reach = send bye (send hello (accept false start) refl) refl

one_written-Reach : Reach true (hello ∷ bye ∷ []) one_written
unfolding write_ends on_write erase_front write_front async_write
one_written-Reach = written hello two_queued-Reach refl refl

all_written-Reach : Reach true (hello ∷ bye ∷ []) all_written
unfolding write_ends on_write erase_front write_front
all_written-Reach = written bye one_written-Reach refl refl

-- A failed write leaves the queue as it is, and no write is started then.
after_error : Reach false (hello ∷ bye ∷ []) (record two_queued { writing = none })
unfolding write_ends on_write
after_error = failed hello two_queued-Reach refl refl

-- A text that is read is sent to all sessions, and the next read starts.
text_read :
    on_read false hello all_written ≡ record all_written { reads = 2; broadcast = hello ∷ [] }
unfolding on_read
text_read = refl

delivered_in_order_example : one_written.delivered ++ one_written.queue ≡ hello ∷ bye ∷ []
delivered_in_order_example = delivered_in_order one_written-Reach

one_write_at_a_time_example :
    ((m : Message) → on_send m two_queued ≢ none)
    × ((ec : Bool) (m : Message) → two_queued.writing ≡ some m → write_ends ec m two_queued ≢ none)
one_write_at_a_time_example = one_write_at_a_time two_queued-Reach

idle_is_drained_example : all_written.delivered ≡ hello ∷ bye ∷ []
idle_is_drained_example = idle_is_drained all_written-Reach refl

queue_empties_example :
    (t : Session) × Drains two_queued t × (t.queue ≡ []) × (t.delivered ≡ hello ∷ bye ∷ [])
queue_empties_example = queue_empties two_queued-Reach

-- Sessions 1 and 2 have joined, 1 has left, and 3 has joined but is gone.
abbrev calls : List Event
calls = joins 3 ∷ leaves 1 ∷ joins 2 ∷ joins 1 ∷ []

abbrev alive_ones : ℕ → Bool
alive_ones p = ltb p 3

to_all : broadcast alive_ones hello (after calls) ≡ (2, hello) ∷ []
unfolding broadcast join leave contains
to_all = refl

received_once_example : received 2 (broadcast alive_ones hello (after calls)) ≡ hello ∷ []
received_once_example = received_once alive_ones hello 2 calls
