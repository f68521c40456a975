-- ===== src/Smtpd/Receiver/Evolution.antt =====
-- internal/smtpd/receiver.go: what `Commit` does to the rows of the identities table.
use phenk.Prelude.{
  ℕ, ◌+◌, inl, inr, Bool, not, Option, some, List, [], ◌∷◌, arith, Bool-cases, is_empty, Bytes,
}
use phenk.Prelude.Result.{Result, ok, err}
use phenk.Core.Identity.{Identity, accepts_mail, quota_exceeded}
use phenk.Core.Message.{message_received}
use phenk.Crypto.Aead.{Aead}
use phenk.Store.Tables.{Db, TxOf, in_tx, lift}
use phenk.Store.Identities.{identity_for_update}
use phenk.Store.Deliveries.{reserve_delivery_slot, insert_delivery}
use phenk.Store.Blobs.{acquire_blob}
use phenk.Store.Events.{append_event}
use phenk.Store.Rows.Statements.{
  Evolves, Evolves-refl, Ages, bind-Ages, pure-Ages, reads-Ages, lift-Ages, in_tx-Evolves,
  append_event-Ages, identity_for_update-Ages, reserve_delivery_slot-Ages, insert_delivery-Ages,
  acquire_blob-Ages,
}
use phenk.Alloc.{Draw, provision_named}
use phenk.Alloc.Evolution.{provision_named-Ages}
use phenk.Smtpd.Receiver.{
  ReceiveError, of_store, of_alloc, unknown_recipient, mailbox_full, Recipient, Message, BlobStore,
  StoreReceiver, RecipientDraw, StoredBody, check, store_body, the_identity, identity_of,
  wrapped_for, schedule, new_delivery, deliver_to, deliver, deliver_all, after_commit,
  commit_stored, commit,
}

check-Ages : (b : Bool) (e : ReceiveError) → Ages (check b e)
check-Ages b e = reads-Ages (check b e) (λ db s h. ground arith)

module _ (blobs : BlobStore) (enqueue : Option (ℕ → TxOf ReceiveError (Unit {0})))
    (schedule-Ages : (id : ℕ) → Ages (schedule blobs enqueue id)) where
  wrapped_for-Ages :
      (r : StoreReceiver) (i : Identity) (nonce key : Bytes)
      → Ages (wrapped_for blobs enqueue r i nonce key)
  wrapped_for-Ages r i nonce key =
      reads-Ages (wrapped_for blobs enqueue r i nonce key) (λ db s h. ground arith)

  identity_of-Ages :
      (r : StoreReceiver) (draw : Draw) (rcpt : Recipient)
      → Ages (identity_of blobs enqueue r draw rcpt)
  unfolding identity_of
  identity_of-Ages r draw rcpt = elim (Bool-cases rcpt.provision) [
    | inl unseen ↦ rw unseen (
        bind-Ages (lift of_alloc (provision_named r.allocator draw rcpt.domain rcpt.local_part)) _
          (lift-Ages of_alloc (provision_named r.allocator draw rcpt.domain rcpt.local_part)
            (provision_named-Ages r.allocator draw rcpt.domain rcpt.local_part))
          (λ a. pure-Ages a.identity))
    | inr known ↦
        rw known (reads-Ages (the_identity blobs enqueue rcpt.identity) (λ db s h. ground arith))
  ]

  deliver_to-Ages :
      (r : StoreReceiver) (key : Bytes) (body : StoredBody) (msg : Message) (draw : RecipientDraw)
      (now : ℕ) (i : Identity)
      → Ages (deliver_to blobs enqueue r key body msg draw now i)
  unfolding deliver_to
  deliver_to-Ages r key body msg draw now i =
      bind-Ages (check (accepts_mail i.state) unknown_recipient) _
        (check-Ages (accepts_mail i.state) unknown_recipient)
        (λ _.
          bind-Ages (check (not (quota_exceeded i body.plaintext_size)) mailbox_full) _
            (check-Ages (not (quota_exceeded i body.plaintext_size)) mailbox_full)
            (λ _.
              bind-Ages (wrapped_for blobs enqueue r i draw.seal_nonce key) _
                (wrapped_for-Ages r i draw.seal_nonce key)
                (λ wrapped.
                  let path = blobs.locate body.sha256 in
                  bind-Ages
                    (lift of_store
                      (acquire_blob draw.blob_id body.sha256 body.stored_size path now))
                    _
                    (lift-Ages of_store
                      (acquire_blob draw.blob_id body.sha256 body.stored_size path now)
                      (acquire_blob-Ages draw.blob_id body.sha256 body.stored_size path now))
                    (λ held.
                      bind-Ages (lift of_store (reserve_delivery_slot i.id body.plaintext_size)) _
                        (lift-Ages of_store (reserve_delivery_slot i.id body.plaintext_size)
                          (reserve_delivery_slot-Ages i.id body.plaintext_size))
                        (λ seq.
                          let d = new_delivery blobs enqueue msg body i.id held.0 seq wrapped now in
                          bind-Ages (lift of_store (insert_delivery draw.delivery_id d)) _
                            (lift-Ages of_store (insert_delivery draw.delivery_id d)
                              (insert_delivery-Ages draw.delivery_id d))
                            (λ id.
                              bind-Ages (lift of_store (append_event (some i.id) message_received))
                                _
                                (lift-Ages of_store (append_event (some i.id) message_received)
                                  (append_event-Ages (some i.id) message_received))
                                (λ _.
                                  bind-Ages (schedule blobs enqueue id) _ (schedule-Ages id)
                                    (λ _. pure-Ages i))))))))

  deliver-Ages :
      (r : StoreReceiver) (key : Bytes) (body : StoredBody) (msg : Message) (draw : RecipientDraw)
      (now : ℕ) (rcpt : Recipient)
      → Ages (deliver blobs enqueue r key body msg draw now rcpt)
  unfolding deliver
  deliver-Ages r key body msg draw now rcpt =
      bind-Ages (identity_of blobs enqueue r draw.provision rcpt) _
        (identity_of-Ages r draw.provision rcpt)
        (λ i.
          bind-Ages (lift of_store (identity_for_update i.id)) _
            (lift-Ages of_store (identity_for_update i.id) (identity_for_update-Ages i.id))
            (λ locked.
              bind-Ages (deliver_to blobs enqueue r key body msg draw now locked) _
                (deliver_to-Ages r key body msg draw now locked)
                (λ _. pure-Ages (record rcpt { identity = some locked }))))

  deliver_all-Ages :
      (r : StoreReceiver) (key : Bytes) (body : StoredBody) (msg : Message)
      (draws : ℕ → RecipientDraw) (now n : ℕ) (rcpts : List Recipient)
      → Ages (deliver_all blobs enqueue r key body msg draws now n rcpts)
  unfolding deliver_all
  deliver_all-Ages r key body msg draws now n [] db = pure-Ages [] db
  deliver_all-Ages r key body msg draws now n (rcpt ∷ rcpts) db =
      bind-Ages (deliver blobs enqueue r key body msg (draws n) now rcpt) _
        (deliver-Ages r key body msg (draws n) now rcpt)
        (λ done.
          bind-Ages (deliver_all blobs enqueue r key body msg draws now (n + 1) rcpts) _
            (deliver_all-Ages r key body msg draws now (n + 1) rcpts)
            (λ rest. pure-Ages (done ∷ rest)))
        db

  after_commit-Evolves :
      (a : Db) (r : StoreReceiver) (msg : Message) (x : Result ReceiveError (List Recipient) × Db)
      → Evolves a x.1
      → Evolves a (after_commit blobs enqueue r msg x).2
  after_commit-Evolves a r msg (err e, db) h = h
  after_commit-Evolves a r msg (ok rcpts, db) h = h

  commit_stored-Evolves :
      (r : StoreReceiver) (key : Bytes) (draws : ℕ → RecipientDraw) (now : ℕ) (msg : Message)
      (db : Db) (x : Result ReceiveError StoredBody)
      → Evolves db (commit_stored blobs enqueue r key draws now msg db x).2
  commit_stored-Evolves r key draws now msg db (err e) = Evolves-refl db
  commit_stored-Evolves r key draws now msg db (ok body) =
      let all = deliver_all blobs enqueue r key body msg draws now 0 msg.recipients in
      after_commit-Evolves db r msg (in_tx all db)
        (in_tx-Evolves all db (deliver_all-Ages r key body msg draws now 0 msg.recipients))

  pub commit-Evolves :
      (r : StoreReceiver) (cipher : Aead) (key prefix : Bytes) (draws : ℕ → RecipientDraw) (now : ℕ)
      (msg : Message) (db : Db)
      → Evolves db (commit blobs enqueue r cipher key prefix draws now msg db).2
  unfolding commit
  commit-Evolves r cipher key prefix draws now msg db =
      elim (Bool-cases (is_empty msg.recipients)) [
        | inl nobody ↦ rw nobody (Evolves-refl db)
        | inr somebody ↦ rw somebody (
            commit_stored-Evolves r key draws now msg db
              (store_body blobs enqueue cipher key prefix msg.body))
      ]
