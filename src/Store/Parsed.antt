-- ===== src/Store/Parsed.antt =====
-- internal/store/pg/parsed.go: the rows that a parse writes. The search vector is left out, since no
-- modelled statement reads it.
pub mod Replaced
use phenk.Prelude.{
  ℕ, Bool, false, not, Option, none, some, List, [], ◌∷◌, ◌++◌, ◌==◌, if◌then◌else◌, keep,
  find_first, any,
}
use phenk.Prelude.Result.{ok, err}
use phenk.Core.Message.{ParsedMessage, Attachment, Delivery}
use phenk.Store.Tables.{
  Db, Tx, ◌>>=◌, or_not_found, update_where, delete_where, order_by, conflict, violation,
}
use phenk.Store.Deliveries.{delivery_id_is}

abbrev pub parsed_of : ℕ → ParsedMessage → Bool
parsed_of id m = m.delivery_id == id

-- UpsertParsedMessage: INSERT … ON CONFLICT (delivery_id) DO UPDATE
unfoldable pub upsert_parsed_message : ParsedMessage → Tx (Unit {0})
upsert_parsed_message m db =
    if not (any (delivery_id_is m.delivery_id) db.deliveries)
    then err violation
    else if any (parsed_of m.delivery_id) db.parsed_messages
    then ok (
      tt,
      record db {
        parsed_messages =
            update_where (parsed_of m.delivery_id) (λ (old : ParsedMessage). m) db.parsed_messages;
      },
    )
    else ok (tt, record db { parsed_messages = db.parsed_messages ++ (m ∷ []) })

-- ParsedMessageByDelivery
unfoldable pub parsed_message_by_delivery : ℕ → Tx ParsedMessage
parsed_message_by_delivery id db = or_not_found (find_first (parsed_of id) db.parsed_messages) db

abbrev pub attached : ℕ → Attachment → Bool
attached id a = a.delivery_id == id

-- The row of an attachment: with an id of its own when it has none, and of this delivery.
abbrev pub attachment_row : ℕ → ℕ → Attachment → Attachment
attachment_row fresh_id delivery_id a = record a {
  id = if a.id == 0 then fresh_id else a.id;
  delivery_id = delivery_id;
}

abbrev pub same_attachment_id : Attachment → Attachment → Bool
same_attachment_id a b = b.id == a.id

abbrev pub refers_to_no_blob : Db → Option ℕ → Bool
refers_to_no_blob db none = false
refers_to_no_blob db (some blob) = not (any (λ b. b.id == blob) db.blobs)

unfoldable pub insert_attachment : Attachment → Tx (Unit {0})
insert_attachment a db =
    if any (same_attachment_id a) db.attachments
    then err conflict
    else if refers_to_no_blob db a.blob_id
    then err violation
    else if not (any (delivery_id_is a.delivery_id) db.deliveries)
    then err violation
    else ok (tt, record db { attachments = db.attachments ++ (a ∷ []) })

-- The loop of `ReplaceAttachments`, each attachment with the identifier drawn for it.
unfoldable pub insert_attachments : ℕ → List (ℕ × Attachment) → Tx (Unit {0})
unfolding insert_attachment
insert_attachments delivery_id [] db = ok (tt, db)
insert_attachments delivery_id ((fresh_id, a) ∷ rest) db =
    (insert_attachment (attachment_row fresh_id delivery_id a) >>= λ _.
    insert_attachments delivery_id rest)
      db

-- ReplaceAttachments
unfoldable pub replace_attachments : ℕ → List (ℕ × Attachment) → Tx (Unit {0})
unfolding insert_attachments
replace_attachments delivery_id new db =
    insert_attachments delivery_id new
      (record db { attachments = delete_where (attached delivery_id) db.attachments })

-- AttachmentsForDelivery
unfoldable pub attachments_for_delivery : ℕ → Db → List Attachment
unfolding order_by
attachments_for_delivery id db =
    order_by (λ (a : Attachment). a.id) (keep (attached id) db.attachments)
