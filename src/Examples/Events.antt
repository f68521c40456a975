-- ===== src/Examples/Events.antt =====
-- internal/events: the theorem on runs at concrete calls.
use phenk.Prelude.{◌≡◌, some, List, [], ◌∷◌}
use phenk.Core.Message.{message_received}
use phenk.Events.{Hub, Call, subscribes, unsubscribes, receives, dispatches, new_hub, run}
use phenk.Events.Soundness.{IsSound}
use phenk.Events.Panics.{run-IsSound}

-- A subscriber that ends its subscription twice, with a notification on either side.
abbrev some_calls : List Call
some_calls =
    subscribes 5
    ∷ dispatches (record { seq = 1; identity_id = some 5; type = message_received })
    ∷ receives 1
    ∷ unsubscribes 1
    ∷ dispatches (record { seq = 2; identity_id = some 5; type = message_received })
    ∷ unsubscribes 1
    ∷ []

run-IsSound_example : (h : Hub) × (run new_hub some_calls ≡ some h) × IsSound h
run-IsSound_example = run-IsSound some_calls
