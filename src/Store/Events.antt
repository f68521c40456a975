-- ===== src/Store/Events.antt =====
-- internal/store/pg/events.go. The payload of an event is derived from the rows that it is about and
-- is left out; the notification of `AppendEvent` carries no more than the event's fields here.
use phenk.Prelude.{
  ℕ, ◌+◌, Bool, false, ◌&&◌, Option, none, some, List, [], ◌∷◌, ◌++◌, ltb, ◌==◌, take, keep,
}
use phenk.Prelude.Result.{ok}
use phenk.Core.Message.{Event, EventType}
use phenk.Store.Tables.{Db, Tx}

-- AppendEvent: the event's sequence number
unfoldable pub append_event : Option ℕ → EventType → Tx ℕ
append_event identity_id type db = ok (
  db.next_event_seq,
  record db {
    events =
        db.events
        ++ record { seq = db.next_event_seq; identity_id = identity_id; type = type } ∷ [];
    next_event_seq = db.next_event_seq + 1;
  },
)

abbrev pub is_about : ℕ → Option ℕ → Bool
is_about id none = false
is_about id (some i) = i == id

-- EventsSince: rows are appended in the order of their numbers
unfoldable pub events_since : ℕ → ℕ → Db → List Event
events_since since limit db = take limit (keep (λ e. ltb since e.seq) db.events)

unfoldable pub events_for_identity : ℕ → ℕ → ℕ → Db → List Event
events_for_identity id since limit db =
    take limit (keep (λ e. is_about id e.identity_id && ltb since e.seq) db.events)
