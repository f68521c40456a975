-- ===== src/Api/Messages.antt =====
-- internal/api/messages.go: listing and reading messages.
pub mod Access
pub mod Numbers
pub mod Pages
use phenk.Prelude.{
  ℕ, Bool, true, false, not, ◌&&◌, ◌||◌, Option, none, some, List, [], ◌∷◌, map, ltb, ◌==◌,
  if◌then◌else◌, length, is_empty, keep, find_first, Bytes, eq_bytes,
}
use phenk.Prelude.Result.{Result, ok, err}
use phenk.Prelude.Run.{◌>>=◌, done, or_fail, of_result, refuse_unless}
use phenk.Strings.{runes}
use phenk.Core.Identity.{Identity, Kind, random_kind, named_kind}
use phenk.Core.Message.{Delivery, DeliveryState, ParsedMessage, Attachment, AuthResult, auth_none}
use phenk.Core.Uuid.{to_string}
use phenk.Crypto.Keys.{DataKey, unwrap, open_with}
use phenk.Crypto.Keyring.{Keyring, uuid_bytes}
use phenk.Crypto.Stream.{Outcome, open_stream}
use phenk.Store.Tables.{Db, Tx, StoreError, not_found, get_or}
use phenk.Store.Deliveries.{delivery_by_id, deliveries_since}
use phenk.Store.Identities.{identity_by_id}
use phenk.Store.Blobs.{blob_by_id}
use phenk.Store.Parsed.{parsed_message_by_delivery, attachments_for_delivery}
use phenk.Store.Files.{Files, get, sha256_from_bytes}
use phenk.Extract.{Extracted}
use phenk.Extract.Message.{message}
use phenk.Worker.Parse.{unwrap_content_key}
use phenk.Api.{
  Refusal, nothing_found, internal, Server, Detector, Handler, query, always_internal,
  missing_is_not_found, session,
}

abbrev pub default_page_size : ℕ
default_page_size = 50

pub record Address : Type 0 where
  pub address : Bytes
  pub name : Option Bytes

pub record MessageSummary : Type 0 where
  pub id : ℕ
  pub seq : ℕ
  pub subject : Bytes
  pub preview : Bytes
  pub from : Address
  pub received_at : ℕ
  pub sent_at : Option ℕ
  pub size_bytes : ℕ
  pub state : DeliveryState
  pub attachment_count : ℕ
  pub spf : AuthResult
  pub dkim : AuthResult
  pub dmarc : AuthResult
  pub extracted : Option Extracted

pub record ShownAttachment : Type 0 where
  pub id : ℕ
  pub filename : Bytes
  pub content_type : Bytes
  pub size_bytes : ℕ
  pub available : Bool

pub record Message : Type 0 where
  pub summary : MessageSummary
  pub to : List Bytes
  pub text : Option Bytes
  pub html : Option Bytes
  pub attachments : List ShownAttachment

-- since and limit, for a value that is 0 or more; a negative one is taken as 0
unfoldable pub since : Option ℕ → ℕ
since v = get_or 0 v

unfoldable pub limit : Option ℕ → ℕ
limit none = default_page_size
limit (some n) = if n == 0 then default_page_size else if ltb 200 n then 200 else n

-- authResult
abbrev pub auth_result : Option AuthResult → AuthResult
auth_result r = get_or auth_none r

-- The bytes of a name that a header may carry; the others are ASCII, so they are found by their bytes.
abbrev pub may_stand_in_header : ℕ → Bool
may_stand_in_header c = not (ltb c 32 || (c == 34 || (c == b'\\' || c == b'/')))

-- downloadName
unfoldable pub download_name : Bytes → Bytes → Bytes
download_name filename fallback =
    let cleaned = keep may_stand_in_header (runes filename) in
    if is_empty cleaned then fallback else cleaned

abbrev pub nonempty : Bytes → Option Bytes
nonempty s = if is_empty s then none else some s

abbrev pub bare_summary : Delivery → MessageSummary
bare_summary d = record {
  id = d.id;
  seq = d.seq;
  subject = [];
  preview = [];
  from = record { address = d.envelope_from; name = none };
  received_at = d.received_at;
  sent_at = none;
  size_bytes = d.size_bytes;
  state = d.state;
  attachment_count = 0;
  spf = auth_result d.spf;
  dkim = auth_result d.dkim;
  dmarc = auth_result d.dmarc;
  extracted = none;
}

-- openBodies: a body that is empty is not opened
abbrev pub open_body : Keyring → DataKey → Bytes → Handler Bytes
open_body k key body =
    if is_empty body then done [] else of_result internal (open_with k.cipher key body)

unfoldable pub open_bodies : Keyring → DataKey → ParsedMessage → Handler (Bytes × Bytes)
unfolding open_with
open_bodies k key m = do
  text ← open_body k key m.text_body
  html ← open_body k key m.html_body
  done (text, html)

abbrev pub unwrap_key : Keyring → Identity → Handler DataKey
unwrap_key k i = of_result internal (unwrap k.cipher k.master (uuid_bytes i.id) i.wrapped_data_key)

abbrev pub sender : Delivery → ParsedMessage → Address
sender d m = record {
  address = if is_empty m.from_addr then d.envelope_from else m.from_addr;
  name = nonempty m.from_name;
}

-- Finding no parsed message is an answer of `summarize`, not an error.
abbrev pub when_parsed :
    {A : Type 0}
    → A
    → (ParsedMessage → Handler A)
    → Result StoreError (ParsedMessage × Db)
    → Handler A
when_parsed unparsed f (err not_found) = done unparsed
when_parsed unparsed f (err e) = or_fail internal none
when_parsed unparsed f (ok (m, db)) = f m

module _ (detector : Detector) where
  -- extracted
  unfoldable pub extracted : Bytes → Bytes → Bytes → Extracted
  extracted = message detector.tokenize detector.parse_url

  abbrev pub detect : Option DataKey → ParsedMessage → Handler (Option Extracted)
  detect none m s = (ok none, s)
  detect (some key) m s =
      (open_bodies s.keyring key m >>= λ b. done (some (extracted m.subject b.0 b.1))) s

  abbrev pub full_summary : Delivery → ParsedMessage → Option Extracted → ℕ → MessageSummary
  full_summary d m found count = record (bare_summary d) {
    subject = m.subject;
    preview = m.preview;
    from = sender d m;
    sent_at = m.sent_at;
    extracted = found;
    attachment_count = count;
  }

  -- summarize
  unfoldable pub summarize : Delivery → Option DataKey → Handler MessageSummary
  unfolding open_bodies extracted
  summarize d key s =
      when_parsed (bare_summary d)
        (λ m. detect key m >>= λ found.
          done (full_summary d m found (length (attachments_for_delivery d.id s.db))))
        (parsed_message_by_delivery d.id s.db) s

  unfoldable pub summarize_all : List Delivery → Option DataKey → Handler (List MessageSummary)
  unfolding summarize
  summarize_all [] key = done []
  summarize_all (d ∷ ds) key = do
    first ← summarize d key
    rest ← summarize_all ds key
    done (first ∷ rest)

  abbrev pub page_key : Identity → Handler (Option DataKey)
  page_key i s =
      if is_empty i.wrapped_data_key
      then (ok none, s)
      else (unwrap_key s.keyring i >>= λ key. done (some key)) s

  -- The cursor behind a page: the number of its last delivery.
  abbrev pub last_seq : ℕ → List Delivery → ℕ
  last_seq cursor [] = cursor
  last_seq cursor (d ∷ ds) = last_seq d.seq ds

  abbrev pub render_page : Identity → ℕ → List Delivery → Handler (List MessageSummary × ℕ)
  render_page i cursor [] = done ([], cursor)
  render_page i cursor (d ∷ ds) = do
    key ← page_key i
    summaries ← summarize_all (d ∷ ds) key
    done (summaries, last_seq cursor (d ∷ ds))

  -- messagePage
  unfoldable pub message_page : Identity → ℕ → ℕ → Handler (List MessageSummary × ℕ)
  unfolding summarize_all unwrap
  message_page i cursor size s = render_page i cursor (deliveries_since i.id cursor size s.db) s

  abbrev pub shown : Attachment → ShownAttachment
  shown a = record {
    id = a.id;
    filename = a.filename;
    content_type = a.content_type;
    size_bytes = a.size_bytes;
    available = elim a.blob_id [ none ↦ false | some id ↦ true ];
  }

  -- messageFromSummary
  abbrev pub message_from_summary : MessageSummary → Message
  message_from_summary m = record {
    summary = m;
    to = [];
    text = none;
    html = none;
    attachments = [];
  }

  abbrev pub with_bodies : Delivery → Identity → MessageSummary → ParsedMessage → Handler Message
  with_bodies d i summary m s =
      (do
        key ← unwrap_key s.keyring i
        (text, html) ← open_bodies s.keyring key m
        done (record {
          summary = record summary { extracted = some (extracted m.subject text html) };
          to = m.to_addrs;
          text = nonempty text;
          html = nonempty html;
          attachments = map shown (attachments_for_delivery d.id s.db);
        }))
        s

  -- writeMessage
  unfoldable pub write_message : Delivery → Identity → Handler Message
  unfolding summarize unwrap open_bodies extracted
  write_message d i s =
      (summarize d none >>= λ summary.
      when_parsed (message_from_summary summary) (with_bodies d i summary)
        (parsed_message_by_delivery d.id s.db))
        s

abbrev pub owns : Bytes → Identity → Bool
owns caller i = not (is_empty caller) && eq_bytes i.owner_session caller

-- Who may read the messages of an identity: anyone, those of a named one; its owner, a random one's.
abbrev pub may_read : Bytes → Kind → Identity → Bool
may_read caller named_kind i = true
may_read caller random_kind i = owns caller i

-- readableMessage
unfoldable pub readable_message : Option Bytes → ℕ → Handler (Delivery × Identity)
unfolding session
readable_message cookie id = do
  d ← query missing_is_not_found (delivery_by_id id)
  i ← query always_internal (identity_by_id d.identity_id)
  _ ← refuse_unless (may_read (session cookie) i.kind i) nothing_found
  _ ← refuse_unless (not (is_empty i.wrapped_data_key)) nothing_found
  done (d, i)

-- openBlob
unfoldable pub open_blob : ℕ → Handler Bytes
open_blob id = do
  row ← query always_internal (blob_by_id id)
  sha ← or_fail internal (sha256_from_bytes row.sha256)
  λ s. or_fail internal (get s.files sha) s

abbrev pub plain_of : Outcome → Handler Bytes
plain_of o = elim o.error [ none ↦ done o.written | some e ↦ or_fail internal none ]

-- decryptBlob
unfoldable pub decrypt_blob : Identity → ℕ → Bytes → Handler Bytes
unfolding open_blob unwrap unwrap_content_key open_stream
decrypt_blob i blob_id wrapped_content_key s =
    (do
      data_key ← unwrap_key s.keyring i
      content_key ← of_result internal (unwrap_content_key s.keyring data_key wrapped_content_key)
      sealed ← open_blob blob_id
      plain_of (open_stream s.keyring.cipher content_key sealed))
      s

-- decryptAttachment
unfoldable pub decrypt_attachment : Identity → ℕ → Handler Bytes
unfolding open_blob unwrap open_with
decrypt_attachment i blob_id s =
    (do
      data_key ← unwrap_key s.keyring i
      sealed ← open_blob blob_id
      of_result internal (open_with s.keyring.cipher data_key sealed))
      s

-- GetMessage
unfoldable pub get_message : Detector → Option Bytes → ℕ → Handler Message
unfolding readable_message write_message
get_message detector cookie id = readable_message cookie id >>= λ r. write_message detector r.0 r.1

-- GetRawMessage
unfoldable pub get_raw_message : Option Bytes → ℕ → Handler Bytes
unfolding readable_message decrypt_blob
get_raw_message cookie id =
    readable_message cookie id >>= λ r. decrypt_blob r.1 r.0.blob_id r.0.wrapped_content_key

abbrev pub serve_attachment : Identity → Option Attachment → Handler (Bytes × Bytes)
serve_attachment i none = or_fail nothing_found none
serve_attachment i (some a) = elim a.blob_id [
  | none ↦ or_fail nothing_found none
  | some blob ↦
      (decrypt_attachment i blob >>= λ content.
      done (download_name a.filename (to_string (uuid_bytes a.id)), content))
]

-- GetAttachment: the name to download under, and the content
unfoldable pub get_attachment : Option Bytes → ℕ → ℕ → Handler (Bytes × Bytes)
unfolding readable_message decrypt_attachment download_name
get_attachment cookie id attachment_id = readable_message cookie id >>= λ r. λ s.
    serve_attachment r.1
      (find_first (λ (a : Attachment). a.id == attachment_id)
        (attachments_for_delivery r.0.id s.db))
      s
