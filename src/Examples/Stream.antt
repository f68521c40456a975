-- ===== src/Examples/Stream.antt =====
-- A run of the stream of events, and a theorem applied to it.
use phenk.Prelude.{◌≡◌, refl, true, [], ◌∷◌}
use mathlib.Core.List.{Pairwise-singleton}
use phenk.Core.Message.{message_received, message_parsed}
use phenk.Store.Tables.{order_by}
use phenk.Store.Deliveries.{deliveries_since}
use phenk.Store.Parsed.{parsed_message_by_delivery}
use phenk.Api.Messages.{message_page, bare_summary}
use phenk.Api.Stream.{
  keepalive, message_frame, cursor_frame, StreamMoments, beats, notifies, disconnects, stream,
  stream_loop,
}
use phenk.Api.Messages.Numbers.{HasUniqueNumbers}
use phenk.Api.Stream.Order.{numbers, AscendsFrom, stream-Ascends}
use phenk.Examples.Api.{a_delivery, a_server, a_detector, owned_with}

abbrev some_moments : StreamMoments
some_moments =
    (notifies message_received, a_server [])
    ∷ (beats true, a_server [])
    ∷ (notifies message_parsed, a_server [])
    ∷ (disconnects, a_server [])
    ∷ []

-- The message is sent when the connection opens; a notification of it, then, sends it no more, and
-- one of its parse tells to read it again.
sent_once :
    stream a_detector (owned_with []) 0 (a_server []) some_moments
    ≡ message_frame message_received (bare_summary a_delivery)
      ∷ keepalive
      ∷ cursor_frame message_parsed 2
      ∷ []
unfolding stream stream_loop message_page deliveries_since order_by parsed_message_by_delivery
sent_once = refl

its_numbers : HasUniqueNumbers (owned_with []) (a_server []).db
its_numbers = Pairwise-singleton _ a_delivery

stream-Ascends_example :
    AscendsFrom 0 (numbers (stream a_detector (owned_with []) 0 (a_server []) some_moments))
stream-Ascends_example =
    stream-Ascends a_detector (owned_with []) 0 (a_server []) some_moments its_numbers
      (its_numbers, (its_numbers, (its_numbers, (its_numbers, tt))))
