-- ===== src/Api/Stream.antt =====
-- internal/api/stream.go: the events that one connection is sent. What a `select` receives comes as a
-- list of events, each with the server's state at that moment, from the moment of the subscription on;
-- what is written is a list of frames. A writer that cannot flush, and a write of an event that fails,
-- are left out: the source goes on after the latter.
pub mod Order
use phenk.Prelude.{
  ℕ, Bool, true, false, Option, none, some, List, [], ◌∷◌, ◌++◌, map, if◌then◌else◌, Bytes,
}
use phenk.Prelude.Result.{Result, ok, err}
use phenk.Core.Identity.{Identity}
use phenk.Core.Domain.{Domain}
use phenk.Core.Message.{EventType, message_received, message_parsed}
use phenk.Api.{Refusal, Server, Detector}
use phenk.Api.Messages.{MessageSummary, message_page, default_page_size, since}
use phenk.Api.Identities.{owned_identity}
use phenk.Api.Wait.{Page, refreshes}

-- The end of the request, the closed channel of the subscription, the ticker, with whether its line
-- could be written, and a notification.
pub data StreamEvent : Type 0 where
  disconnects closes : StreamEvent
  beats : Bool → StreamEvent
  notifies : EventType → StreamEvent

abbrev pub StreamMoments : Type 0
StreamMoments = List (StreamEvent × Server)

pub data Frame : Type 0 where
  keepalive : Frame
  message_frame : EventType → MessageSummary → Frame
  cursor_frame : EventType → ℕ → Frame

abbrev pub is_message_parsed : EventType → Bool
is_message_parsed message_parsed = true
is_message_parsed _ = false

abbrev pub message_frames : EventType → List MessageSummary → List Frame
message_frames type = map (message_frame type)

-- What a notification of a message writes, and from which cursor the stream goes on.
abbrev pub told : EventType → (ℕ → List Frame) → ℕ → Result Refusal Page → List Frame
told type more cursor (err e) = []
told type more cursor (ok ([], c)) =
    if is_message_parsed type then cursor_frame type cursor ∷ more cursor else more cursor
told type more cursor (ok (m ∷ ms, c)) = message_frames type (m ∷ ms) ++ more c

abbrev pub caught_up : (ℕ → List Frame) → ℕ → Result Refusal Page → List Frame
caught_up more cursor (err e) = more cursor
caught_up more cursor (ok (ms, c)) = message_frames message_received ms ++ more c

module _ (detector : Detector) (i : Identity) where
  abbrev pub page_behind : ℕ → Server → Result Refusal Page
  page_behind cursor s = (message_page detector i cursor default_page_size s).0

  -- The loop of `stream`
  unfoldable pub stream_loop : StreamMoments → ℕ → List Frame
  unfolding message_page
  stream_loop [] cursor = []
  stream_loop ((disconnects, s) ∷ more) cursor = []
  stream_loop ((closes, s) ∷ more) cursor = []
  stream_loop ((beats written, s) ∷ more) cursor =
      let rest = stream_loop more cursor in if written then keepalive ∷ rest else []
  stream_loop ((notifies type, s) ∷ more) cursor =
      let rest = stream_loop more cursor in
      if refreshes type
      then told type (stream_loop more) cursor (page_behind cursor s)
      else cursor_frame type cursor ∷ rest

  -- stream, from the state of the server after the subscription
  unfoldable pub stream : ℕ → Server → StreamMoments → List Frame
  unfolding stream_loop message_page
  stream since_seq s more = caught_up (stream_loop more) since_seq (page_behind since_seq s)

abbrev pub streamed :
    Detector
    → Option ℕ
    → StreamMoments
    → Result Refusal (Identity × Domain) × Server
    → Result Refusal (List Frame)
streamed detector asked more (err e, s) = err e
streamed detector asked more (ok (i, d), s) = ok (stream detector i (since asked) s more)

-- StreamIdentity
unfoldable pub stream_identity :
    Detector → Option Bytes → ℕ → Option ℕ → Server → StreamMoments → Result Refusal (List Frame)
unfolding owned_identity since stream
stream_identity detector cookie id asked s more =
    streamed detector asked more (owned_identity cookie id s)
