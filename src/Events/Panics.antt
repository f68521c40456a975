-- ===== src/Events/Panics.antt =====
-- internal/events/hub.go: no call panics, and no buffer overflows.
use phenk.Prelude.{
  ℕ, ◌≡◌, refl, true, Option, none, some, List, [], ◌∷◌, arith, ==_refl, All, All-imp,
}
use phenk.Prelude.Keys.{nat_key}
use phenk.Prelude.Assoc.{lookup}
use phenk.Events.{
  Notification, Hub, new_hub, group, subscribe, unsubscribe, send, send_all, dispatch_to, dispatch,
  receive, Call, subscribes, unsubscribes, receives, dispatches, step, run,
}
use phenk.Events.Soundness.{
  live, member, IsSound, Succeeds, subscribe-IsSound, taken-IsSound, send_to-Succeeds,
  end_subscription-Succeeds,
}

send-Succeeds :
    (h : Hub)
    → IsSound h
    → (n : Notification) (identity id : ℕ) → live h identity id ≡ true
    → (g : Hub) × (send n id h ≡ some g)
      × IsSound g
      × ((j : ℕ) → live h identity j ≡ true → live g identity j ≡ true)
unfolding send
send-Succeeds h sound n identity id l =
    send_to-Succeeds h sound n identity id (lookup id h.subscriptions) refl l

send_all-Succeeds :
    (n : Notification) (identity : ℕ) (ids : List ℕ) (h : Hub)
    → IsSound h
    → All (λ (id : ℕ). live h identity id ≡ true) ids
    → Succeeds (send_all n ids h)
unfolding send_all
send_all-Succeeds n identity [] h sound l = (h, refl, sound)
send_all-Succeeds n identity (id ∷ ids) h sound l =
    let r = send-Succeeds h sound n identity id l.0 in
    rw r.1 (
      send_all-Succeeds n identity ids r.0 r.2 (
        All-imp (λ (j : ℕ). live h identity j ≡ true) (λ (j : ℕ). live r.0 identity j ≡ true) r.3
          ids l.1))

all_members : (ids : List ℕ) (P : ℕ → Type 0) → ((id : ℕ) → member id ids ≡ true → P id) → All P ids
all_members [] P f = tt
all_members (id ∷ ids) P f =
    (f id (rw (==_refl id) refl), all_members ids P (λ j m. f j (ground (arith, m))))

dispatch_to-Succeeds :
    (h : Hub) → IsSound h → (n : Notification) (o : Option ℕ) → Succeeds (dispatch_to h n o)
dispatch_to-Succeeds h sound n none = (h, refl, sound)
dispatch_to-Succeeds h sound n (some identity) =
    send_all-Succeeds n identity (group h identity) h sound (
      all_members (group h identity) (λ (id : ℕ). live h identity id ≡ true)
        (sound.grouped identity))

step-Succeeds : (h : Hub) → IsSound h → (c : Call) → Succeeds (step h c)
unfolding step unsubscribe receive dispatch
step-Succeeds h sound (subscribes identity) =
    ((subscribe h identity).1, refl, subscribe-IsSound h sound identity)
step-Succeeds h sound (unsubscribes id) =
    end_subscription-Succeeds h sound id (lookup id h.subscriptions) refl
step-Succeeds h sound (receives id) =
    (receive h id, refl, taken-IsSound h sound id (lookup id h.subscriptions) refl)
step-Succeeds h sound (dispatches n) = dispatch_to-Succeeds h sound n n.identity_id

run-Succeeds : (calls : List Call) (h : Hub) → IsSound h → Succeeds (run h calls)
unfolding run
run-Succeeds [] h sound = (h, refl, sound)
run-Succeeds (c ∷ calls) h sound =
    let s = step-Succeeds h sound c in rw s.1 (run-Succeeds calls s.0 s.2)

new_hub-IsSound : IsSound new_hub
unfolding group lookup
new_hub-IsSound = record {
  grouped = λ identity id m. absurd cc;
  fitting = λ id. refl;
  fresh = λ id l. refl;
}

-- Whatever calls come, in whatever order, none of them panics: nothing is sent on a channel that is
-- closed, and no channel is closed twice. At every such point a subscription that is in the group of
-- an identity is open, and no subscriber's buffer holds more than 32 notifications.
pub run-IsSound : (calls : List Call) → (h : Hub) × (run new_hub calls ≡ some h) × IsSound h
run-IsSound calls = run-Succeeds calls new_hub new_hub-IsSound
