-- ===== src/Smtpd/Receiver/Atomic.antt =====
-- internal/smtpd/receiver.go: what `Commit` leaves behind when it fails, and whom it delivers to.
use phenk.Prelude.{
  ℕ, ◌+◌, ◌≤◌, ◌≡◌, ◌⊎◌, inl, inr, none, some, find_first, ap, sym, refl, Bool, true, false, not,
  Option, List, arith, if◌then◌else◌, is_empty, Bytes,
}
use phenk.Prelude.Result.{Result, ok, err}
use phenk.Core.Identity.{Identity, IdentityState, accepts_mail, quota_exceeded}
use phenk.Crypto.Aead.{Aead}
use phenk.Store.Tables.{Db, TxOf, ended, in_tx, lift, or_not_found, has_id}
use phenk.Store.Identities.{identity_for_update}
use phenk.Store.Respect.{continued-ok, lifted-ok}
use phenk.Smtpd.Receiver.{
  ReceiveError, no_recipients, unknown_recipient, mailbox_full, Recipient, Message, BlobStore,
  StoreReceiver, RecipientDraw, StoredBody, check, store_body, deliver_to, deliver, identity_of,
  of_store, deliver_all, after_commit, commit_stored, commit,
}

check-ok :
    (b : Bool) (e : ReceiveError) (db : Db) (s : Unit {0} × Db)
    → check b e db ≡ ok s
    → (b ≡ true) × (s.1 ≡ db)
check-ok b e db s h = ground arith

ended-err :
    {E A : Type 0} (db : Db) (x : Result E (A × Db)) (e : E)
    → (ended db x).0 ≡ err e
    → (ended db x).1 ≡ db
ended-err db (err d) e h = refl
ended-err db (ok (a, db')) e h = absurd cc

in_tx-err :
    {E A : Type 0} (m : TxOf E A) (db : Db) (e : E) → (in_tx m db).0 ≡ err e → (in_tx m db).1 ≡ db
unfolding in_tx
in_tx-err m db e h = ended-err db (m db) e h

within_quota :
    (i : Identity) (size : ℕ)
    → not (quota_exceeded i size) ≡ true
    → (i.used_messages + 1 ≤ i.quota_messages) × (i.used_bytes + size ≤ i.quota_bytes)
unfolding quota_exceeded
within_quota i size h = ground arith

given :
    (rcpt : Recipient) (db : Db) (s : Recipient × Db)
    → ◌≡◌ {A = Result ReceiveError (Recipient × Db)} (ok (rcpt, db)) (ok s)
    → s.0.identity ≡ rcpt.identity
given rcpt db s h = let e : (rcpt, db) ≡ s = cc in sym (ap (λ (x : Recipient × Db). x.0.identity) e)

-- Whether the state is one of the two in which an identity takes mail.
abbrev pub IsOpen : IdentityState → Type 0
IsOpen s = (s ≡ IdentityState.active) ⊎ (s ≡ IdentityState.expiring)

abbrev pub HasRoom : ℕ → Identity → Type 0
HasRoom size i =
    IsOpen i.state
    × (i.used_messages + 1 ≤ i.quota_messages)
    × (i.used_bytes + size ≤ i.quota_bytes)

accepts_mail-IsOpen : (s : IdentityState) → accepts_mail s ≡ true → IsOpen s
unfolding accepts_mail
accepts_mail-IsOpen IdentityState.active h = inl refl
accepts_mail-IsOpen IdentityState.expiring h = inr refl
accepts_mail-IsOpen IdentityState.expired h = absurd cc
accepts_mail-IsOpen IdentityState.purged h = absurd cc
accepts_mail-IsOpen IdentityState.reserved h = absurd cc

or_not_found-ok :
    {A : Type 0} (o : Option A) (db : Db) (s : A × Db) → or_not_found o db ≡ ok s → o ≡ some s.0
or_not_found-ok none db s h = absurd cc
or_not_found-ok (some a) db s h = cc

module _ (blobs : BlobStore) (enqueue : Option (ℕ → TxOf ReceiveError (Unit {0}))) where
  after_commit-err :
      (r : StoreReceiver) (msg : Message) (x : Result ReceiveError (List Recipient) × Db) (db : Db)
      (e : ReceiveError)
      → ((d : ReceiveError) → x.0 ≡ err d → x.1 ≡ db)
      → (after_commit blobs enqueue r msg x).1 ≡ err e
      → ((after_commit blobs enqueue r msg x).2 ≡ db) × ((after_commit blobs enqueue r msg x).0 ≡ r)
  after_commit-err r msg (err d, db') db e h k = (h d refl, refl)
  after_commit-err r msg (ok rcpts, db') db e h k = absurd cc

  commit_stored-err :
      (r : StoreReceiver) (key : Bytes) (draws : ℕ → RecipientDraw) (now : ℕ) (msg : Message)
      (db : Db) (x : Result ReceiveError StoredBody) (e : ReceiveError)
      → let w = commit_stored blobs enqueue r key draws now msg db x in
        w.1 ≡ err e → (w.2 ≡ db) × (w.0 ≡ r)
  commit_stored-err r key draws now msg db (err d) e h = (refl, refl)
  commit_stored-err r key draws now msg db (ok body) e h =
      let all = deliver_all blobs enqueue r key body msg draws now 0 msg.recipients in
      after_commit-err r msg (in_tx all db) db e (λ d k. in_tx-err all db d k) h

  -- A `Commit` that fails, for whatever reason and at whichever recipient, leaves the tables and the
  -- receiver as they were: no recipient has the message, and none is made for it.
  pub commit_atomic :
      (r : StoreReceiver) (cipher : Aead) (key prefix : Bytes) (draws : ℕ → RecipientDraw) (now : ℕ)
      (msg : Message) (db : Db) (e : ReceiveError)
      → let w = commit blobs enqueue r cipher key prefix draws now msg db in
        w.1 ≡ err e → (w.2 ≡ db) × (w.0 ≡ r)
  unfolding commit
  commit_atomic r cipher key prefix draws now msg db e =
      let stored =
        commit_stored blobs enqueue r key draws now msg db
          (store_body blobs enqueue cipher key prefix msg.body) in
      elim (is_empty msg.recipients)
        as (λ b.
          let w : StoreReceiver × Result ReceiveError (Unit {0}) × Db =
            if b then (r, err no_recipients, db) else stored in
          w.1 ≡ err e → (w.2 ≡ db) × (w.0 ≡ r)) [
            | true ↦ λ h. (refl, refl)
            | false ↦
                commit_stored-err r key draws now msg db
                  (store_body blobs enqueue cipher key prefix msg.body) e
          ]

  deliver_to_accepting :
      (r : StoreReceiver) (key : Bytes) (body : StoredBody) (msg : Message) (draw : RecipientDraw)
      (now : ℕ) (locked : Identity) (db : Db) (s : Identity × Db)
      → deliver_to blobs enqueue r key body msg draw now locked db ≡ ok s
      → HasRoom body.plaintext_size locked
  unfolding deliver_to
  deliver_to_accepting r key body msg draw now locked db s h =
      let (a, db₁, e₁, g₁) =
        continued-ok _ (check (accepts_mail locked.state) unknown_recipient db) s h in
      let (b, db₂, e₂, g₂) =
        continued-ok _ (check (not (quota_exceeded locked body.plaintext_size)) mailbox_full db₁) s
          g₁ in
      let open_inbox = check-ok (accepts_mail locked.state) unknown_recipient db (a, db₁) e₁ in
      let room =
        check-ok (not (quota_exceeded locked body.plaintext_size)) mailbox_full db₁ (b, db₂) e₂ in
      let fits = within_quota locked body.plaintext_size room.0 in
      (accepts_mail-IsOpen locked.state open_inbox.0, fits.0, fits.1)

  -- A delivery to a recipient that succeeds is to an identity that has room: of the identity that was
  -- resolved or made for the recipient, the row that stands in the tables then, in the transaction and
  -- not in any cache, is active or expiring and has room in both its quotas for the message; and it is
  -- this row that the recipient is given.
  pub deliver_accepting :
      (r : StoreReceiver) (key : Bytes) (body : StoredBody) (msg : Message) (draw : RecipientDraw)
      (now : ℕ) (rcpt : Recipient) (db : Db) (s : Recipient × Db)
      → deliver blobs enqueue r key body msg draw now rcpt db ≡ ok s
      → (i : Identity) × (db₁ : Db) × (row : Identity) × (identity_of blobs enqueue r draw.provision
            rcpt db
          ≡ ok (i, db₁))
        × (find_first (has_id i.id) db₁.identities ≡ some row)
        × HasRoom body.plaintext_size row
        × (s.0.identity ≡ some row)
  unfolding deliver identity_for_update
  deliver_accepting r key body msg draw now rcpt db s h =
      let (i, db₁, e, g) =
        continued-ok _ (identity_of blobs enqueue r draw.provision rcpt db) s h in
      let (row, db₂, e₂, g₂) = continued-ok _ (lift of_store (identity_for_update i.id) db₁) s g in
      let (a, db₃, e₃, g₃) =
        continued-ok _ (deliver_to blobs enqueue r key body msg draw now row db₂) s g₂ in
      let found =
        or_not_found-ok (find_first (has_id i.id) db₁.identities) db₁ (row, db₂)
          (lifted-ok of_store (identity_for_update i.id db₁) (row, db₂) e₂) in
      (
        i,
        db₁,
        row,
        e,
        found,
        deliver_to_accepting r key body msg draw now row db₂ (a, db₃) e₃,
        given (record rcpt { identity = some row }) db₃ s g₃,
      )
