-- ===== src/Store/Lifecycle.antt =====
-- internal/store/pg/lifecycle.go: the statements of the lifecycle jobs. Rows that another
-- transaction has locked are skipped in the source; here one transaction runs at a time.
use phenk.Prelude.{
  ℕ, ◌+◌, Bool, false, not, ◌&&◌, ◌||◌, Option, none, some, List, [], ◌∷◌, ◌++◌, map, ltb, leb,
  ◌==◌, if◌then◌else◌, is_empty, take, keep, count_if, any,
}
use phenk.Prelude.Result.{ok}
use phenk.Core.Identity.{
  Identity, IdentityState, eq_state, is_named, active, expiring, expired, reserved,
}
use phenk.Core.Message.{Attachment, ParsedMessage, Delivery}
use phenk.Store.Tables.{Db, Tx, update_where, delete_where, order_by, get_or}
use phenk.Store.Identities.{in_state}
use phenk.Store.Deliveries.{of_identity, delivery_id_is}

-- expires_at IS NOT NULL AND expires_at < t
abbrev pub expires_before : ℕ → Option ℕ → Bool
expires_before t none = false
expires_before t (some e) = ltb e t

abbrev pub expiry : Identity → ℕ
expiry i = get_or 0 i.expires_at

abbrev pub ids_of : List Identity → List ℕ
ids_of = map (λ i. i.id)

abbrev pub among : List ℕ → Identity → Bool
among ids i = any (λ id. id == i.id) ids

abbrev pub due_for_expiry : ℕ → Identity → Bool
due_for_expiry now i =
    (eq_state i.state active || eq_state i.state expiring) && expires_before now i.expires_at

abbrev pub due_for_notice : ℕ → Identity → Bool
due_for_notice threshold i = eq_state i.state active && expires_before threshold i.expires_at

-- The identifiers of the first rows that are due, by their deadline.
unfoldable pub first_due : (Identity → Bool) → ℕ → List Identity → List ℕ
unfolding order_by
first_due due limit identities = ids_of (take limit (order_by expiry (keep due identities)))

abbrev pub move_ids : List ℕ → IdentityState → Db → Db
move_ids ids to db = record db { identities = update_where (among ids) (in_state to) db.identities }

-- ExpireDueIdentities
unfoldable pub expire_due_identities : ℕ → ℕ → Tx (List ℕ)
unfolding first_due
expire_due_identities now limit db =
    let ids = first_due (due_for_expiry now) limit db.identities in
    ok (ids, move_ids ids expired db)

-- MarkExpiringIdentities
unfoldable pub mark_expiring_identities : ℕ → ℕ → Tx (List ℕ)
unfolding first_due
mark_expiring_identities threshold limit db =
    let ids = first_due (due_for_notice threshold) limit db.identities in
    ok (ids, move_ids ids expiring db)

abbrev pub due_for_purge : ℕ → Identity → Bool
due_for_purge before i =
    eq_state i.state expired
    && (expires_before before i.expires_at && not (is_empty i.wrapped_data_key))

-- PurgeableIdentities
unfoldable pub purgeable_identities : ℕ → ℕ → Db → List ℕ
unfolding first_due
purgeable_identities before limit db = first_due (due_for_purge before) limit db.identities

abbrev pub sweepable : Identity → Bool
sweepable i = is_named i.kind && (eq_state i.state active && ltb 0 i.used_messages)

-- SweptNamedIdentities
unfoldable pub swept_named_identities : ℕ → Db → List Identity
unfolding order_by
swept_named_identities limit db =
    take limit (order_by (λ i. i.created_at) (keep sweepable db.identities))

-- COALESCE(max(seq), 0)
unfoldable pub max_seq : List Delivery → ℕ
max_seq [] = 0
max_seq (d ∷ ds) = let rest = max_seq ds in if ltb rest d.seq then d.seq else rest

-- `received_at < $2 OR seq <= max - $3`, of an identity. The difference may be negative there.
abbrev pub outlived : ℕ → ℕ → ℕ → ℕ → Delivery → Bool
outlived identity_id older_than keep_newest newest d =
    of_identity identity_id d && (ltb d.received_at older_than || leb (d.seq + keep_newest) newest)

-- ExpiredDeliveries
unfoldable pub expired_deliveries : ℕ → ℕ → ℕ → Db → List Delivery
unfolding order_by max_seq
expired_deliveries identity_id older_than keep_newest db =
    let newest = max_seq (keep (of_identity identity_id) db.deliveries) in
    order_by (λ d. d.seq) (keep (outlived identity_id older_than keep_newest newest) db.deliveries)

-- blob_id IS NOT NULL
unfoldable pub attached_blobs : (Attachment → Bool) → List Attachment → List ℕ
attached_blobs p [] = []
attached_blobs p (a ∷ rows) =
    let rest = attached_blobs p rows in
    if p a then elim a.blob_id [ none ↦ rest | some b ↦ b ∷ rest ] else rest

abbrev pub attached_to : ℕ → Attachment → Bool
attached_to delivery_id a = a.delivery_id == delivery_id

-- DeliveryBlobs
unfoldable pub delivery_blobs : ℕ → Db → List ℕ
unfolding attached_blobs
delivery_blobs id db =
    map (λ d. d.blob_id) (keep (delivery_id_is id) db.deliveries)
    ++ attached_blobs (attached_to id) db.attachments

abbrev pub attached_to_any : List Delivery → Attachment → Bool
attached_to_any ds a = any (λ d. d.id == a.delivery_id) ds

-- IdentityBlobs
unfoldable pub identity_blobs : ℕ → Db → List ℕ
unfolding attached_blobs
identity_blobs id db =
    map (λ d. d.blob_id) (keep (of_identity id) db.deliveries)
    ++ attached_blobs (attached_to_any (keep (of_identity id) db.deliveries)) db.attachments

abbrev pub parsed_of_any : List Delivery → ParsedMessage → Bool
parsed_of_any ds m = any (λ d. d.id == m.delivery_id) ds

-- DELETE FROM deliveries WHERE …, with the rows that go by cascade
abbrev pub delete_deliveries : (Delivery → Bool) → Db → Db
delete_deliveries p db = record db {
  deliveries = delete_where p db.deliveries;
  parsed_messages = delete_where (parsed_of_any (keep p db.deliveries)) db.parsed_messages;
  attachments = delete_where (attached_to_any (keep p db.deliveries)) db.attachments;
}

-- DeleteDelivery: whether a row was deleted
unfoldable pub delete_delivery : ℕ → Tx Bool
delete_delivery id db =
    ok (any (delivery_id_is id) db.deliveries, delete_deliveries (delivery_id_is id) db)

-- DeleteIdentityDeliveries: how many rows were deleted
unfoldable pub delete_identity_deliveries : ℕ → Tx ℕ
delete_identity_deliveries id db =
    ok (count_if (of_identity id) db.deliveries, delete_deliveries (of_identity id) db)

abbrev pub reserved_before : ℕ → Identity → Bool
reserved_before before i = eq_state i.state reserved && expires_before before i.reserved_until

-- CountReservedIdentities
unfoldable pub count_reserved_identities : ℕ → Db → ℕ
count_reserved_identities before db = count_if (reserved_before before) db.identities
