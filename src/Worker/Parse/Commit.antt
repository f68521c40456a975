-- ===== src/Worker/Parse/Commit.antt =====
-- internal/worker/parse/parse.go: the transaction of `Parse`.
use phenk.Prelude.{ℕ, some, List}
use phenk.Core.Message.{Delivery, ParsedMessage, Attachment, AuthResult, message_parsed}
use phenk.Store.Tables.{Tx, ◌>>=◌}
use phenk.Store.Deliveries.{mark_delivery_parsed}
use phenk.Store.Events.{append_event}
use phenk.Store.Parsed.{upsert_parsed_message, replace_attachments}

unfoldable pub store_tx :
    Delivery
    → ParsedMessage
    → List (ℕ × Attachment)
    → AuthResult
    → AuthResult
    → AuthResult
    → ℕ
    → Tx ℕ
unfolding upsert_parsed_message replace_attachments mark_delivery_parsed append_event
store_tx d stored attachments spf dkim dmarc now = upsert_parsed_message stored >>= λ _.
    (replace_attachments d.id attachments >>= λ _.
    (mark_delivery_parsed d.id (some spf) (some dkim) (some dmarc) now >>= λ _.
    append_event (some d.identity_id) message_parsed))
