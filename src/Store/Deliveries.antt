-- ===== src/Store/Deliveries.antt =====
-- internal/store/pg/deliveries.go, and the attachment rows of parsed.go.
use phenk.Prelude.{
  ℕ, ◌+◌, Bool, not, ◌&&◌, ◌||◌, Option, none, some, List, [], ◌∷◌, ◌++◌, ltb, leb, ◌==◌,
  if◌then◌else◌, take, keep, find_first, any,
}
use phenk.Prelude.Result.{ok, err}
use phenk.Core.Identity.{Identity}
use phenk.Core.Message.{Delivery, AuthResult, parsed, failed}
use phenk.Store.Tables.{
  Db, Tx, not_found, conflict, violation, or_not_found, update_where, has_id, order_by,
}

abbrev pub charge : ℕ → Identity → Identity
charge size i = record i {
  delivery_seq = i.delivery_seq + 1;
  used_messages = i.used_messages + 1;
  used_bytes = i.used_bytes + size;
}

abbrev seq_of : Option Identity → Option ℕ
seq_of none = none
seq_of (some i) = some (i.delivery_seq)

-- ReserveDeliverySlot
unfoldable pub reserve_delivery_slot : ℕ → ℕ → Tx ℕ
reserve_delivery_slot identity_id size db =
    let charged = update_where (has_id identity_id) (charge size) db.identities in
    or_not_found (seq_of (find_first (has_id identity_id) charged))
      (record db { identities = charged })

abbrev pub delivery_id_is : ℕ → Delivery → Bool
delivery_id_is id d = d.id == id

abbrev pub of_identity : ℕ → Delivery → Bool
of_identity identity_id d = d.identity_id == identity_id

abbrev delivery_with_id : ℕ → Delivery → Delivery
delivery_with_id fresh_id d = if d.id == 0 then record d { id = fresh_id } else d

-- The two unique keys of the table.
abbrev pub clashes : Delivery → Delivery → Bool
clashes d r = (r.id == d.id) || ((r.identity_id == d.identity_id) && (r.seq == d.seq))

-- InsertDelivery: the identifier of the row
unfoldable pub insert_delivery : ℕ → Delivery → Tx ℕ
insert_delivery fresh_id d₀ db =
    let d = delivery_with_id fresh_id d₀ in
    if any (clashes d) db.deliveries
    then err conflict
    else if not (any (has_id d.identity_id) db.identities)
        || (not (any (λ b. b.id == d.blob_id) db.blobs) || (d.seq == 0))
    then err violation
    else ok (d.id, record db { deliveries = db.deliveries ++ d ∷ [] })

unfoldable pub delivery_by_id : ℕ → Tx Delivery
delivery_by_id id db = or_not_found (find_first (delivery_id_is id) db.deliveries) db

abbrev newest : List Delivery → Option Delivery
newest [] = none
newest (d ∷ ds) = elim (newest ds) [
  | none ↦ some d
  | some e ↦ if leb e.seq d.seq then some d else some e
]

-- LatestDelivery
unfoldable pub latest_delivery : ℕ → Tx Delivery
latest_delivery identity_id db =
    or_not_found (newest (keep (of_identity identity_id) db.deliveries)) db

abbrev pub after_cursor : ℕ → ℕ → Delivery → Bool
after_cursor identity_id since d = of_identity identity_id d && ltb since d.seq

-- DeliveriesSince
unfoldable pub deliveries_since : ℕ → ℕ → ℕ → Db → List Delivery
deliveries_since identity_id since limit db =
    take limit (order_by (λ d. d.seq) (keep (after_cursor identity_id since) db.deliveries))

abbrev pub as_parsed :
    ℕ → Option AuthResult → Option AuthResult → Option AuthResult → Delivery → Delivery
as_parsed now spf dkim dmarc d = record d {
  state = parsed;
  parsed_at = some now;
  spf = spf;
  dkim = dkim;
  dmarc = dmarc;
}

unfoldable pub mark_delivery_parsed :
    ℕ → Option AuthResult → Option AuthResult → Option AuthResult → ℕ → Tx (Unit {0})
mark_delivery_parsed id spf dkim dmarc now db =
    if any (delivery_id_is id) db.deliveries
    then ok (
      tt,
      record db {
        deliveries = update_where (delivery_id_is id) (as_parsed now spf dkim dmarc) db.deliveries;
      },
    )
    else err not_found

abbrev pub as_failed : ℕ → Delivery → Delivery
as_failed now d = record d { state = failed; parsed_at = some now }

unfoldable pub mark_delivery_failed : ℕ → ℕ → Tx (Unit {0})
mark_delivery_failed id now db =
    if any (delivery_id_is id) db.deliveries
    then ok (
      tt,
      record db { deliveries = update_where (delivery_id_is id) (as_failed now) db.deliveries },
    )
    else err not_found
