-- ===== src/Api/Wait.antt =====
-- internal/api/wait.go: holding a request open until there is mail. What a `select` receives comes as
-- a list of events, each with the server's state at that moment; where the list ends, the request is
-- still held. The subscription of the source is taken out before the first query, so the list starts
-- there too.
pub mod Answers
use phenk.Prelude.{
  ℕ, ◌*◌, Bool, true, false, not, Option, none, some, List, [], ◌∷◌, ltb, ◌==◌, if◌then◌else◌,
  is_empty, any,
}
use phenk.Prelude.Result.{Result, ok, err}
use phenk.Core.Identity.{Identity}
use phenk.Core.Message.{
  DeliveryState, received, parsed, failed, EventType, message_received, message_parsed,
}
use phenk.Api.{Refusal, Server, Detector, seconds_as_duration, second}
use phenk.Api.Messages.{MessageSummary, message_page, default_page_size}

abbrev pub default_wait_timeout : ℕ
default_wait_timeout = 30 * second

abbrev pub shorter : ℕ → ℕ → ℕ
shorter a b = if ltb b a then b else a

-- waitTimeout, for a request of no seconds, of a number, or of 0 or less, which is taken as 0
unfoldable pub wait_timeout : Option ℕ → ℕ → ℕ
unfolding seconds_as_duration
wait_timeout none max = shorter default_wait_timeout max
wait_timeout (some n) max =
    if n == 0 then shorter default_wait_timeout max else shorter (seconds_as_duration n) max

-- What a `select` receives: the end of the request, the timers, the ticker, or the subscription's
-- channel, which may be closed.
pub data WaitEvent : Type 0 where
  hung_up deadline grace poll closed : WaitEvent
  notified : EventType → WaitEvent

pub record WaitResult : Type 0 where
  pub messages : List MessageSummary
  pub cursor : ℕ
  pub timed_out : Bool

-- How a wait ends, when it does.
pub data Ending : Type 0 where
  held gone : Ending
  refused : Refusal → Ending
  wrote : WaitResult → Ending

abbrev pub is_received : DeliveryState → Bool
is_received received = true
is_received parsed = false
is_received failed = false

-- allParsed
unfoldable pub all_parsed : List MessageSummary → Bool
all_parsed ms = not (any (λ (m : MessageSummary). is_received m.state) ms)

-- Which notifications end the wait, and which refresh what it has.
abbrev pub is_message_received : EventType → Bool
is_message_received message_received = true
is_message_received _ = false

abbrev pub refreshes : EventType → Bool
refreshes message_received = true
refreshes message_parsed = true
refreshes _ = false

abbrev pub Page : Type 0
Page = List MessageSummary × ℕ

abbrev pub Moments : Type 0
Moments = List (WaitEvent × Server)

abbrev pub mail : Page → Ending
mail (ms, c) = wrote (record { messages = ms; cursor = c; timed_out = false })

-- The state after a refresh: an error ends the wait, a page with everything parsed answers it.
abbrev pub refreshed : (Page → Ending) → Result Refusal Page → Ending
refreshed more (err e) = refused e
refreshed more (ok p) = if all_parsed p.0 then mail p else more p

abbrev pub found : (Page → Ending) → Ending → Result Refusal Page → Ending
found settle more (err e) = refused e
found settle more (ok (ms, c)) = if is_empty ms then more else settle (ms, c)

module _ (detector : Detector) (i : Identity) (since_seq : ℕ) where
  abbrev pub page_at : Server → Result Refusal Page
  page_at s = (message_page detector i since_seq default_page_size s).0

  -- The loop of `settle`
  unfoldable pub settle_loop : Moments → Page → Ending
  unfolding message_page all_parsed
  settle_loop [] p = held
  settle_loop ((hung_up, s) ∷ more) p = gone
  settle_loop ((grace, s) ∷ more) p = mail p
  settle_loop ((deadline, s) ∷ more) p = mail p
  settle_loop ((closed, s) ∷ more) p = mail p
  settle_loop ((poll, s) ∷ more) p = refreshed (settle_loop more) (page_at s)
  settle_loop ((notified type, s) ∷ more) p =
      let ignored = settle_loop more p in
      if refreshes type then refreshed (settle_loop more) (page_at s) else ignored

  -- settle
  unfoldable pub settle : Moments → Page → Ending
  unfolding settle_loop all_parsed
  settle more p = if all_parsed p.0 then mail p else settle_loop more p

  abbrev pub nothing_came : Ending
  nothing_came = wrote (record { messages = []; cursor = since_seq; timed_out = true })

  -- The loop of `wait`; neither the grace timer nor the ticker runs yet.
  unfoldable pub wait_loop : Moments → Ending
  unfolding settle message_page
  wait_loop [] = held
  wait_loop ((hung_up, s) ∷ more) = gone
  wait_loop ((deadline, s) ∷ more) = nothing_came
  wait_loop ((closed, s) ∷ more) = nothing_came
  wait_loop ((grace, s) ∷ more) = wait_loop more
  wait_loop ((poll, s) ∷ more) = wait_loop more
  wait_loop ((notified type, s) ∷ more) =
      let ignored = wait_loop more in
      if is_message_received type then found (settle more) ignored (page_at s) else ignored

  -- wait, from the state of the server after the subscription
  unfoldable pub wait : Server → Moments → Ending
  unfolding wait_loop settle message_page
  wait s more = found (settle more) (wait_loop more) (page_at s)
