-- ===== src/Store/Parsed/Replaced.antt =====
-- internal/store/pg/parsed.go: what `ReplaceAttachments` leaves.
use phenk.Prelude.{
  ℕ, ◌≡◌, refl, sym, ap, ◌∙◌, Bool, not, List, [], ◌∷◌, ◌++◌, map, append-nil, append_assoc, arith,
  ==_refl, keep, any,
}
use phenk.Prelude.Result.{ok}
use phenk.Core.Message.{Attachment}
use phenk.Store.Tables.{Db, delete_where, conflict, violation}
use phenk.Store.Deliveries.{delivery_id_is}
use phenk.Store.Respect.{continued-ok, passed, ok-state}
use phenk.Store.Parsed.{
  attached, attachment_row, insert_attachment, insert_attachments, replace_attachments,
  refers_to_no_blob, same_attachment_id,
}

abbrev pub rows_for : ℕ → List (ℕ × Attachment) → List Attachment
rows_for id = map (λ (a : ℕ × Attachment). attachment_row a.0 id a.1)

-- What the insertion of one row leaves.
inserted : Attachment → Db → Db
inserted a db = record db { attachments = db.attachments ++ (a ∷ []) }

insert_attachment-ok :
    (a : Attachment) (db : Db) (u : Unit {0}) (db' : Db)
    → insert_attachment a db ≡ ok (u, db')
    → db' ≡ inserted a db
unfolding insert_attachment inserted
insert_attachment-ok a db u db' h =
    let first = passed (any (same_attachment_id a) db.attachments) conflict _ (u, db') h in
    let second = passed (refers_to_no_blob db a.blob_id) violation _ (u, db') first in
    let third =
      passed (not (any (delivery_id_is a.delivery_id) db.deliveries)) violation
        (ok (tt, inserted a db)) (u, db') second in
    ok-state tt (inserted a db) (u, db') third

insert_attachments-ok :
    (id : ℕ) (new : List (ℕ × Attachment)) (db : Db) (u : Unit {0}) (db' : Db)
    → insert_attachments id new db ≡ ok (u, db')
    → (db'.attachments ≡ db.attachments ++ rows_for id new) × (db'.blobs ≡ db.blobs)
unfolding insert_attachments inserted
insert_attachments-ok id [] db u db' h =
    let e = ok-state tt db (u, db') h in
    (ap (λ (d : Db). d.attachments) e ∙ sym (append-nil db.attachments), ap (λ (d : Db). d.blobs) e)
insert_attachments-ok id ((fresh_id, a) ∷ rest) db u db' h =
    let row = attachment_row fresh_id id a in
    let c = continued-ok (λ _. insert_attachments id rest) (insert_attachment row db) (u, db') h in
    let e = insert_attachment-ok row db c.0 c.1 c.2 in
    let ih = insert_attachments-ok id rest c.1 u db' c.3 in
    (
      ih.0
          ∙ ap (λ (d : Db). d.attachments ++ rows_for id rest) e
          ∙ append_assoc db.attachments (row ∷ []) (rows_for id rest),
      ih.1 ∙ ap (λ (d : Db). d.blobs) e,
    )

keep-delete :
    (id : ℕ) (xs ys : List Attachment)
    → keep (attached id) (delete_where (attached id) xs ++ ys) ≡ keep (attached id) ys
keep-delete id [] ys = refl
keep-delete id (x ∷ xs) ys = ground (arith, keep-delete id xs ys)

keep-rows :
    (id : ℕ) (new : List (ℕ × Attachment)) → keep (attached id) (rows_for id new) ≡ rows_for id new
keep-rows id [] = refl
keep-rows id (a ∷ new) =
    rw (==_refl id) (ap (λ l. attachment_row a.0 id a.1 ∷ l) (keep-rows id new))

abbrev pub of_others : ℕ → Attachment → Bool
of_others id a = not (attached id a)

keep-others :
    (id : ℕ) (xs : List Attachment) (new : List (ℕ × Attachment))
    → keep (of_others id) (delete_where (attached id) xs ++ rows_for id new)
      ≡ keep (of_others id) xs
keep-others id [] [] = refl
keep-others id [] (a ∷ new) = rw (==_refl id) (keep-others id [] new)
keep-others id (x ∷ xs) new = ground (arith, keep-others id xs new)

-- When the replacement succeeds, the rows of the delivery are exactly the new ones, in their order,
-- whatever rows an earlier parse left; the rows of the other deliveries are as they were; and no blob
-- is released, neither those of the rows that went.
pub replace_attachments-exact :
    (id : ℕ) (new : List (ℕ × Attachment)) (db : Db) (u : Unit {0}) (db' : Db)
    → replace_attachments id new db ≡ ok (u, db')
    → (keep (attached id) db'.attachments ≡ rows_for id new)
      × (keep (of_others id) db'.attachments ≡ keep (of_others id) db.attachments)
      × (db'.blobs ≡ db.blobs)
unfolding replace_attachments
replace_attachments-exact id new db u db' h =
    let cleared : Db = record db { attachments = delete_where (attached id) db.attachments } in
    let e = insert_attachments-ok id new cleared u db' h in
    (
      ap (keep (attached id)) e.0
          ∙ (keep-delete id db.attachments (rows_for id new) ∙ keep-rows id new),
      ap (keep (of_others id)) e.0 ∙ keep-others id db.attachments new,
      e.1,
    )
