-- ===== src/Events.antt =====
-- internal/events/hub.go: the hub that hands notifications to subscribers. A subscriber's channel, the
-- function that ends its subscription and that function's `once` go by the subscription's number. A
-- send on a closed channel and a second close panic: such a call returns `none`.
pub mod Soundness
pub mod Panics
use phenk.Prelude.{
  ℕ, ◌+◌, ◌*◌, Bool, true, false, not, Option, none, some, List, [], ◌∷◌, ◌++◌, ltb, ◌==◌,
  if◌then◌else◌, length, drop, keep,
}
use phenk.Prelude.Keys.{nat_key}
use phenk.Prelude.Assoc.{Assoc, lookup, insert, remove}
use phenk.Core.Message.{EventType}

abbrev pub subscriber_buffer : ℕ
subscriber_buffer = 32

pub record Notification : Type 0 where
  pub seq : ℕ
  pub identity_id : Option ℕ
  pub type : EventType

pub record Subscription : Type 0 where
  pub identity : ℕ
  pub buffer : List Notification
  pub is_closed : Bool
  pub once_done : Bool

-- `subs` maps an identity to the group of its subscribers, each with its channel in `subscriptions`.
pub record Hub : Type 0 where
  pub next_id : ℕ
  pub subs : Assoc ℕ (List ℕ)
  pub subscriptions : Assoc ℕ Subscription

abbrev pub new_hub : Hub
new_hub = record { next_id = 0; subs = []; subscriptions = [] }

abbrev pub group_or_empty : Option (List ℕ) → List ℕ
group_or_empty none = []
group_or_empty (some ids) = ids

unfoldable pub group : Hub → ℕ → List ℕ
group h identity = group_or_empty (lookup identity h.subs)

-- Subscribe: the number of the subscription
unfoldable pub subscribe : Hub → ℕ → ℕ × Hub
unfolding group
subscribe h identity =
    let id = h.next_id + 1 in
    (
      id,
      record {
        next_id = id;
        subs = insert identity (id ∷ group h identity) h.subs;
        subscriptions =
            insert id
              (record { identity = identity; buffer = []; is_closed = false; once_done = false })
              h.subscriptions;
      },
    )

abbrev pub without : ℕ → List ℕ → List ℕ
without id = keep (λ (j : ℕ). not (j == id))

-- A group that is left empty goes.
abbrev pub leave_group : ℕ → List ℕ → Assoc ℕ (List ℕ) → Assoc ℕ (List ℕ)
leave_group identity [] subs = remove identity subs
leave_group identity (id ∷ ids) subs = insert identity (id ∷ ids) subs

abbrev pub leave : ℕ → ℕ → Assoc ℕ (List ℕ) → Option (List ℕ) → Assoc ℕ (List ℕ)
leave identity id subs none = subs
leave identity id subs (some ids) = leave_group identity (without id ids) subs

abbrev pub end_subscription : Hub → ℕ → Option Subscription → Option Hub
end_subscription h id none = some h
end_subscription h id (some s) =
    if s.once_done
    then some h
    else if s.is_closed
    then none
    else some (record h {
      subs = leave s.identity id h.subs (lookup s.identity h.subs);
      subscriptions = insert id (record s { is_closed = true; once_done = true }) h.subscriptions;
    })

-- The function that Subscribe returns
unfoldable pub unsubscribe : Hub → ℕ → Option Hub
unsubscribe h id = end_subscription h id (lookup id h.subscriptions)

-- Subscribers
unfoldable pub subscribers : Hub → ℕ → ℕ
unfolding group
subscribers h identity = length (group h identity)

-- The `select` of `dispatch`: a full subscriber is skipped.
abbrev pub buffered : Notification → Subscription → Subscription
buffered n s =
    if ltb (length s.buffer) subscriber_buffer
    then record s { buffer = s.buffer ++ (n ∷ []) }
    else s

abbrev pub send_to : Hub → Notification → ℕ → Option Subscription → Option Hub
send_to h n id none = none
send_to h n id (some s) =
    if s.is_closed
    then none
    else some (record h { subscriptions = insert id (buffered n s) h.subscriptions })

unfoldable pub send : Notification → ℕ → Hub → Option Hub
send n id h = send_to h n id (lookup id h.subscriptions)

abbrev pub and_then : (Hub → Option Hub) → Option Hub → Option Hub
and_then f none = none
and_then f (some h) = f h

unfoldable pub send_all : Notification → List ℕ → Hub → Option Hub
unfolding send
send_all n [] h = some h
send_all n (id ∷ ids) h = and_then (send_all n ids) (send n id h)

abbrev pub dispatch_to : Hub → Notification → Option ℕ → Option Hub
dispatch_to h n none = some h
dispatch_to h n (some identity) = send_all n (group h identity) h

-- dispatch
unfoldable pub dispatch : Hub → Notification → Option Hub
unfolding send_all group
dispatch h n = dispatch_to h n n.identity_id

abbrev pub taken : Option Subscription → Hub → ℕ → Hub
taken none h id = h
taken (some s) h id = record h {
  subscriptions = insert id (record s { buffer = drop 1 s.buffer }) h.subscriptions;
}

-- A subscriber reads from its channel.
unfoldable pub receive : Hub → ℕ → Hub
receive h id = taken (lookup id h.subscriptions) h id

-- The wait of `Run` before it reconnects, in milliseconds, doubled after each failure.
abbrev pub first_backoff : ℕ
first_backoff = 100

abbrev pub max_backoff : ℕ
max_backoff = 5000

unfoldable pub next_backoff : ℕ → ℕ
next_backoff b = if ltb max_backoff (b * 2) then max_backoff else b * 2

pub data Call : Type 0 where
  subscribes unsubscribes receives : ℕ → Call
  dispatches : Notification → Call

unfoldable pub step : Hub → Call → Option Hub
unfolding subscribe unsubscribe receive dispatch
step h (subscribes identity) = some (subscribe h identity).1
step h (unsubscribes id) = unsubscribe h id
step h (receives id) = some (receive h id)
step h (dispatches n) = dispatch h n

unfoldable pub run : Hub → List Call → Option Hub
unfolding step
run h [] = some h
run h (c ∷ cs) = and_then (λ (g : Hub). run g cs) (step h c)
