-- ===== src/Worker/Parse.antt =====
-- internal/worker/parse/parse.go: the parser of deliveries. The sanitizer of HTML, the libraries for
-- MIME, media types, dates and DKIM, the hash of the blob store and strings.ToLower are the
-- environment that it is given. Bytes that are drawn at random come with the job.
pub mod Auth
pub mod Commit
pub mod Outcomes
use phenk.Prelude.{
  ℕ, ◌+◌, Bool, ◌&&◌, Option, none, some, List, [], ◌∷◌, ◌++◌, ltb, leb, if◌then◌else◌, length,
  is_empty, take, Bytes, codes,
}
use phenk.Prelude.Result.{Result, ok, err}
use phenk.Prelude.Run.{RunOf, continue, ◌>>=◌, done, or_fail, of_result}
use phenk.Strings.{trim_space}
use phenk.Core.Identity.{Identity}
use phenk.Core.Message.{
  Delivery, ParsedMessage, Attachment, AuthResult, auth_none, parsed, DeliveryState, received,
  failed,
}
use phenk.Crypto.Keys.{CryptoError, DataKey, unwrap, open_with, seal_with, new_data_key_from}
use phenk.Crypto.Keyring.{Keyring, uuid_bytes}
use phenk.Crypto.Stream.{Outcome, open_stream}
use phenk.Store.Tables.{Db, Tx, TxOf, StoreError, in_tx}
use phenk.Store.Deliveries.{delivery_by_id, mark_delivery_failed}
use phenk.Store.Identities.{identity_by_id}
use phenk.Store.Blobs.{blob_by_id, acquire_blob}
use phenk.Store.Files.{Files, sha256_from_bytes, put, get, locate}
use phenk.Mimeparse.{preview}
use phenk.Mimeparse.Parts.{Body, AttachmentMeta, Entity, Message, MimeError, parse_mime}
use phenk.Worker.Parse.Auth.{Verified, verify_dkim, derive_dmarc}
use phenk.Worker.Parse.Commit.{store_tx}

-- An error that no retry can help, and one that a retry may.
pub data ParseError : Type 0 where
  permanent retryable : ParseError

pub record World : Type 0 where
  pub db : Db
  pub files : Files

pub record Environment : Type 0 where
  pub lower : Bytes → Bytes
  pub parse_date : Bytes → Option ℕ
  pub media_type : Bytes → Option Bytes
  pub read_entity : Bytes → Option Entity
  pub sanitize : Bytes → Bytes
  pub dkim_verify : Bytes → Verified
  pub sha256 : Bytes → Bytes

pub record Parser : Type 0 where
  pub keyring : Keyring
  pub evaluate_spf : Option (ℕ → Bytes → Bytes → AuthResult)
  pub max_attachment_bytes : ℕ

-- What storing one attachment draws, and what a job draws, an attachment's by its place.
pub record AttachmentDraw : Type 0 where
  pub nonce : Bytes
  pub blob_id : ℕ
  pub attachment_id : ℕ

pub record JobDraw : Type 0 where
  pub html_nonce : Bytes
  pub text_nonce : Bytes
  pub attachments : ℕ → AttachmentDraw
  pub now : ℕ

abbrev pub Run : Type 0 → Type 0
Run A = RunOf World ParseError A

abbrev pub committed :
    {A : Type 0} → ParseError → Files → Result StoreError A × Db → Result ParseError A × World
committed e files (err s, db) = (err e, record { db = db; files = files })
committed e files (ok a, db) = (ok a, record { db = db; files = files })

-- A transaction, a statement by itself being one too, with the error that its failure becomes.
abbrev pub statement : {A : Type 0} → ParseError → Tx A → Run A
statement e m w = committed e w.files (in_tx m w.db)

-- UnwrapContentKey
unfoldable pub unwrap_content_key : Keyring → DataKey → Bytes → Result ParseError DataKey
unfolding open_with new_data_key_from
unwrap_content_key k data_key wrapped =
    if is_empty wrapped then err permanent else elim (open_with k.cipher data_key wrapped) [
      | err c ↦ err permanent
      | ok raw ↦ elim (new_data_key_from raw) [ err c ↦ err permanent | ok key ↦ ok key ]
    ]

abbrev pub plain_of : Outcome → Option CryptoError → Run Bytes
plain_of o none = done o.written
plain_of o (some e) = or_fail permanent none

-- readBlob
unfoldable pub read_blob : Parser → Delivery → DataKey → Run Bytes
unfolding unwrap_content_key open_stream
read_blob p d data_key = do
  row ← statement permanent (blob_by_id d.blob_id)
  sha ← or_fail permanent (sha256_from_bytes row.sha256)
  content_key ← of_result permanent (unwrap_content_key p.keyring data_key d.wrapped_content_key)
  sealed ← λ w. or_fail retryable (get w.files sha) w
  let opened = open_stream p.keyring.cipher content_key sealed in plain_of opened opened.error

-- What the callback of `parse` keeps: the tables and files, and the attachments so far, each with the
-- identifier drawn for its row.
pub record Storing : Type 0 where
  pub world : World
  pub stored : List (ℕ × Attachment)

-- The callback's state on an error is the state that the error leaves.
abbrev pub Stored : Type 0
Stored = ParseError × World

module _ (env : Environment) (p : Parser) (draw : JobDraw) (data_key : DataKey) where
  -- ContentTypeOf
  abbrev pub content_type_of : Option Bytes → Bytes
  content_type_of none = codes "application/octet-stream"
  content_type_of (some t) = env.lower t

  abbrev pub attachment_for : AttachmentMeta → ℕ → Option ℕ → Attachment
  attachment_for meta size blob_id = record {
    id = 0;
    delivery_id = 0;
    filename = meta.filename;
    content_type = content_type_of (env.media_type meta.content_type);
    size_bytes = size;
    blob_id = blob_id;
  }

  abbrev pub keep_stored : ℕ → Attachment → World → Storing → Storing
  keep_stored id a w s = record { world = w; stored = s.stored ++ ((id, a) ∷ []) }

  abbrev pub acquired :
      AttachmentMeta
      → ℕ
      → AttachmentDraw
      → Storing
      → Files
      → Result StoreError (ℕ × Bool) × Db
      → Result Stored Storing
  acquired meta size drawn s files (err e, db) = err (retryable, record { db = db; files = files })
  acquired meta size drawn s files (ok (blob_id, created), db) = ok (
      keep_stored drawn.attachment_id (attachment_for meta size (some blob_id))
        (record { db = db; files = files }) s)

  abbrev pub store_sealed :
      AttachmentMeta
      → ℕ
      → AttachmentDraw
      → Storing
      → Result CryptoError Bytes
      → Result Stored Storing
  store_sealed meta size drawn s (err c) = err (retryable, s.world)
  store_sealed meta size drawn s (ok sealed) =
      let (files, address) = put env.sha256 s.world.files sealed in
      acquired meta size drawn s files (
        in_tx (acquire_blob drawn.blob_id address.0 address.1 (locate address.0) draw.now)
          s.world.db)

  -- storeAttachment of what was read, at most one byte more than is stored
  abbrev pub store_content :
      AttachmentMeta → Bytes → AttachmentDraw → Storing → Result Stored Storing
  store_content meta content drawn s =
      if ltb p.max_attachment_bytes (length content)
      then ok (
          keep_stored drawn.attachment_id (attachment_for meta p.max_attachment_bytes none) s.world
            s)
      else store_sealed meta (length content) drawn s
          (seal_with p.keyring.cipher data_key drawn.nonce content)

  -- storeAttachment
  unfoldable pub store_attachment : AttachmentMeta → Body → Storing → Result Stored Storing
  unfolding put acquire_blob in_tx seal_with
  store_attachment meta body s =
      let read = take (p.max_attachment_bytes + 1) body.unread in
      if body.fails && leb (length body.unread) p.max_attachment_bytes
      then err (retryable, s.world)
      else store_content meta read (draw.attachments (length s.stored)) s

-- What one parse produced, before it is written.
pub record Parsed : Type 0 where
  pub message : Message
  pub stored : ParsedMessage
  pub attachments : List (ℕ × Attachment)

abbrev pub sealed_body : Parser → DataKey → Bytes → Bytes → Run Bytes
sealed_body p key nonce body =
    if is_empty body
    then done []
    else of_result retryable (seal_with p.keyring.cipher key nonce body)

abbrev pub parsed_row : ℕ → Message → Bytes → Bytes → ParsedMessage
parsed_row delivery_id m text_body html_body = record {
  delivery_id = delivery_id;
  subject = m.subject;
  from_name = m.from.name;
  from_addr = m.from.addr;
  to_addrs = m.to;
  sent_at = m.sent_at;
  text_body = text_body;
  html_body = html_body;
  preview = preview m.text m.html;
}

module _ (env : Environment) (p : Parser) (draw : JobDraw) where
  abbrev pub walked :
      World
      → Result (MimeError Stored) (Message × Storing)
      → Result ParseError (Message × List (ℕ × Attachment)) × World
  walked w (err (MimeError.not_stored (e, left))) = (err permanent, left)
  walked w (err e) = (err permanent, w)
  walked w (ok (m, s)) = (ok (m, s.stored), s.world)

  abbrev pub walk : DataKey → Bytes → Run (Message × List (ℕ × Attachment))
  walk key raw w = walked w (
      parse_mime env.lower env.parse_date env.read_entity (store_attachment env p draw key) 0 0 raw
        (record { world = w; stored = [] }))

  -- parse
  unfoldable pub parse_raw : ℕ → DataKey → Bytes → Run Parsed
  unfolding store_attachment seal_with
  parse_raw delivery_id key raw = do
    (m, attachments) ← walk key raw
    html_body ←
        (if is_empty m.html
          then done []
          else of_result retryable
              (seal_with p.keyring.cipher key draw.html_nonce (env.sanitize m.html)))
    text_body ← sealed_body p key draw.text_nonce m.text
    done (record {
      message = m;
      stored = parsed_row delivery_id m text_body html_body;
      attachments = attachments;
    })

  abbrev pub mark_failed :
      {A : Type 0} → ℕ → Result ParseError A × World → Result ParseError A × World
  mark_failed id (ok a, w) = (ok a, w)
  mark_failed id (err e, w) =
      (err e, record w { db = (in_tx (mark_delivery_failed id draw.now) w.db).1 })

  abbrev pub spf_of : Delivery → Option (ℕ → Bytes → Bytes → AuthResult) → AuthResult
  spf_of d none = auth_none
  spf_of d (some f) = f d.client_ip d.helo d.envelope_from

  abbrev pub store_result : Delivery → Parsed → AuthResult → AuthResult × List Bytes → Run ℕ
  store_result d result spf (dkim, domains) = statement retryable (
      store_tx d result.stored result.attachments spf dkim
        (derive_dmarc env.lower result.message.from.addr spf d.envelope_from dkim domains) draw.now)

  abbrev pub finish : Delivery → Bytes → Parsed → Run (Unit {0})
  finish d raw result = do
    seq ← store_result d result (spf_of d p.evaluate_spf) (verify_dkim (env.dkim_verify raw))
    done tt

  -- What happens to a delivery whose identity has its key.
  abbrev pub parse_with_key : Delivery → DataKey → Run (Unit {0})
  parse_with_key d key = do
    raw ← read_blob p d key
    result ← λ w. mark_failed d.id (parse_raw d.id key raw w)
    finish d raw result

  abbrev pub parse_for : Delivery → Identity → Run (Unit {0})
  parse_for d i =
      if is_empty i.wrapped_data_key
      then done tt
      else (of_result permanent
            (unwrap p.keyring.cipher p.keyring.master (uuid_bytes i.id) i.wrapped_data_key)
          >>= parse_with_key d)

  abbrev pub parse_unless_parsed : Delivery → DeliveryState → Run (Unit {0})
  parse_unless_parsed d parsed = done tt
  parse_unless_parsed d state = statement permanent (identity_by_id d.identity_id) >>= parse_for d

  -- Parse
  unfoldable pub parse_delivery : ℕ → Run (Unit {0})
  unfolding read_blob parse_raw store_tx unwrap
  parse_delivery id = statement permanent (delivery_by_id id) >>= λ d. parse_unless_parsed d d.state
