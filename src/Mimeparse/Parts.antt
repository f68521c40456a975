-- ===== src/Mimeparse/Parts.antt =====
-- internal/mimeparse/mimeparse.go: `Parse`, over what github.com/emersion/go-message reads. The
-- reader of messages, of media types and of dates, and strings.ToLower, are parameters.
use phenk.Prelude.{
  ℕ, ◌+◌, ◌*◌, ◌^◌, Bool, true, false, ◌||◌, Option, none, some, List, [], ◌∷◌, ◌++◌, map, ltb, leb,
  ◌==◌, if◌then◌else◌, length, is_empty, take, drop, Bytes, codes, eq_bytes,
}
use phenk.Prelude.Result.{Result, ok, err}
use phenk.Strings.{trim_bytes, has_prefix}
use phenk.Mimeparse.{sanitize_header_text, safe_filename}

-- A body that is read once: what is still unread of it, and whether it fails at its end.
pub record Body : Type 0 where
  pub unread : Bytes
  pub fails : Bool

pub record Address : Type 0 where
  pub name : Bytes
  pub addr : Bytes

pub record AttachmentMeta : Type 0 where
  pub filename : Bytes
  pub content_type : Bytes
  pub content_id : Bytes
  pub inline : Bool

pub data Warning : Type 0 where
  not_decodable unreadable_part too_many_parts : Warning
  bad_subject bad_from bad_date bad_body bad_filename : Warning

pub record Message : Type 0 where
  pub subject : Bytes
  pub from : Address
  pub to : List Bytes
  pub cc : List Bytes
  pub reply_to : List Bytes
  pub sent_at : Option ℕ
  pub text : Bytes
  pub html : Bytes
  pub attachments : List AttachmentMeta
  pub warnings : List Warning

abbrev pub empty_message : Message
empty_message = record {
  subject = [];
  from = record { name = []; addr = [] };
  to = [];
  cc = [];
  reply_to = [];
  sent_at = none;
  text = [];
  html = [];
  attachments = [];
  warnings = [];
}

pub data MimeError (E : Type 0) : Type 0 where
  message_empty not_readable : MimeError E
  not_stored : E → MimeError E

-- What the library reads of a header: a field as it stands, decoded where that succeeds.
pub record Header : Type 0 where
  pub subject : Option Bytes
  pub raw_subject : Bytes
  pub addresses : Bytes → Option (List Address)
  pub raw_from : Bytes
  pub date : Option ℕ
  pub raw_date : Bytes

pub data Part : Type 0 where
  inline_part : Bytes → Bytes → Body → Part
  attached_part : Option Bytes → Bytes → Bytes → Body → Part
  other_part : Part

-- What `NextPart` returns until the end of the message.
pub data Next : Type 0 where
  next_part : Part → Next
  next_undecodable : Next
  next_unreadable : Next

pub record Entity : Type 0 where
  pub undecodable : Bool
  pub header : Header
  pub nexts : List Next

abbrev pub default_max_body_bytes : ℕ
default_max_body_bytes = 2 * 2 ^ 20

abbrev pub default_max_parts : ℕ
default_max_parts = 200

abbrev pub warn : Warning → Message → Message
warn w m = record m { warnings = m.warnings ++ (w ∷ []) }

-- io.ReadAll(io.LimitReader(body, n)): what is read, unless the body fails within it.
abbrev pub read_limited : ℕ → Body → Option Bytes
read_limited n b =
    if leb n (length b.unread)
    then some (take n b.unread)
    else if b.fails
    then none
    else some b.unread

-- The body behind what was read of it.
abbrev pub behind : ℕ → Body → Body
behind n b = record b { unread = drop n b.unread }

abbrev pub is_angle : ℕ → Bool
is_angle c = c == b'<' || c == b'>'

abbrev pub name_or_empty : Option Bytes → Bytes
name_or_empty none = []
name_or_empty (some name) = name

abbrev pub warn_unnamed : Option Bytes → Message → Message
warn_unnamed none m = warn bad_filename m
warn_unnamed (some name) m = m

abbrev pub with_type : AttachmentMeta → AttachmentMeta
with_type meta =
    if is_empty meta.content_type
    then record meta { content_type = codes "application/octet-stream" }
    else meta

abbrev pub inline_meta : Bytes → Bytes → AttachmentMeta
inline_meta content_type content_id = record {
  filename = [];
  content_type = content_type;
  content_id = trim_bytes is_angle content_id;
  inline = true;
}

abbrev pub attached_meta : Option Bytes → Bytes → Bytes → AttachmentMeta
attached_meta filename content_type content_id = record {
  filename = safe_filename (name_or_empty filename);
  content_type = content_type;
  content_id = trim_bytes is_angle content_id;
  inline = false;
}

module _ (lower : Bytes → Bytes) (parse_date : Bytes → Option ℕ) where
  abbrev pub read_subject : Header → Option Bytes → Message → Message
  read_subject h (some s) m = record m { subject = sanitize_header_text s }
  read_subject h none m =
      let s = sanitize_header_text h.raw_subject in
      let told = record m { subject = s } in if is_empty s then told else warn bad_subject told

  abbrev pub read_raw_from : Header → Message → Message
  read_raw_from h m =
      if is_empty h.raw_from
      then m
      else warn bad_from
          (record m { from = record { name = sanitize_header_text h.raw_from; addr = [] } })

  abbrev pub read_from : Header → Option (List Address) → Message → Message
  read_from h none m = read_raw_from h m
  read_from h (some []) m = read_raw_from h m
  read_from h (some (a ∷ as_)) m = record m {
    from = record { name = sanitize_header_text a.name; addr = lower a.addr };
  }

  abbrev pub address_list : Option (List Address) → List Bytes
  address_list none = []
  address_list (some list) = map (λ (a : Address). lower a.addr) list

  abbrev pub read_raw_date : Header → Option ℕ → Message → Message
  read_raw_date h none m = if is_empty h.raw_date then m else warn bad_date m
  read_raw_date h (some t) m = if is_empty h.raw_date then m else record m { sent_at = some t }

  abbrev pub read_date : Header → Option ℕ → Message → Message
  read_date h (some t) m = record m { sent_at = some t }
  read_date h none m = read_raw_date h (parse_date h.raw_date) m

  abbrev pub read_lists : Header → Message → Message
  read_lists h m = record m {
    to = address_list (h.addresses (codes "To"));
    cc = address_list (h.addresses (codes "Cc"));
    reply_to = address_list (h.addresses (codes "Reply-To"));
  }

  -- readHeader
  unfoldable pub read_header : Header → Message → Message
  read_header h m =
      read_date h h.date
        (read_lists h (read_from h (h.addresses (codes "From")) (read_subject h h.subject m)))

module _ (lower : Bytes → Bytes) {S E : Type 0} (store : AttachmentMeta → Body → S → Result E S)
    (max_body_bytes max_parts : ℕ) where
  abbrev pub handed_over : Message → Result E S → Result (MimeError E) (Message × S)
  handed_over m (err e) = err (not_stored e)
  handed_over m (ok s) = ok (m, s)

  -- readAttachment, with a callback
  unfoldable pub read_attachment :
      AttachmentMeta → Body → Message → S → Result (MimeError E) (Message × S)
  read_attachment meta body m s =
      handed_over (record m { attachments = m.attachments ++ (with_type meta ∷ []) })
        (store (with_type meta) body s)

  -- The `switch` on the type of an inline part: `body` is what is unread of it when it is reached.
  unfoldable pub read_inline :
      Bytes → Bytes → Bytes → Body → Message → S → Result (MimeError E) (Message × S)
  unfolding read_attachment
  read_inline content_type content_id read body m s =
      if eq_bytes (lower content_type) (codes "text/html")
      then ok (record m { html = m.html ++ read }, s)
      else if has_prefix (lower content_type) (codes "text/")
      then ok (record m { text = m.text ++ read }, s)
      else read_attachment (inline_meta content_type content_id) body m s

  abbrev pub read_inline_part :
      Bytes → Bytes → Body → Option Bytes → Message → S → Result (MimeError E) (Message × S)
  read_inline_part content_type content_id body none m s = ok (warn bad_body m, s)
  read_inline_part content_type content_id body (some read) m s =
      read_inline content_type content_id read (behind max_body_bytes body) m s

  -- readPart
  unfoldable pub read_part : Part → Message → S → Result (MimeError E) (Message × S)
  unfolding read_inline read_attachment
  read_part (inline_part content_type content_id body) m s =
      read_inline_part content_type content_id body (read_limited max_body_bytes body) m s
  read_part (attached_part filename content_type content_id body) m s =
      read_attachment (attached_meta filename content_type content_id) body
        (warn_unnamed filename m) s
  read_part other_part m s = ok (m, s)

  abbrev pub and_then :
      (Message → S → Result (MimeError E) (Message × S))
      → Result (MimeError E) (Message × S)
      → Result (MimeError E) (Message × S)
  and_then k (err e) = err e
  and_then k (ok (m, s)) = k m s

  -- The loop of `Parse`: `parts` were read before.
  unfoldable pub read_parts : List Next → ℕ → Message → S → Result (MimeError E) (Message × S)
  unfolding read_part
  read_parts [] parts m s = ok (m, s)
  read_parts (next_undecodable ∷ nexts) parts m s = read_parts nexts parts (warn not_decodable m) s
  read_parts (next_unreadable ∷ nexts) parts m s = ok (warn unreadable_part m, s)
  read_parts (next_part p ∷ nexts) parts m s =
      if ltb max_parts (parts + 1)
      then ok (warn too_many_parts m, s)
      else and_then (read_parts nexts (parts + 1)) (read_part p m s)

abbrev pub or_default : ℕ → ℕ → ℕ
or_default default n = if n == 0 then default else n

abbrev pub start_message : Entity → Message
start_message e = if e.undecodable then warn not_decodable empty_message else empty_message

module _ (lower : Bytes → Bytes) (parse_date : Bytes → Option ℕ)
    (read_entity : Bytes → Option Entity) {S E : Type 0}
    (store : AttachmentMeta → Body → S → Result E S) where
  abbrev pub parse_entity : ℕ → ℕ → Option Entity → S → Result (MimeError E) (Message × S)
  parse_entity max_body max_parts none s = err not_readable
  parse_entity max_body max_parts (some e) s =
      read_parts lower store max_body max_parts e.nexts 0
        (read_header lower parse_date e.header (start_message e)) s

  -- Parse, with the options' `MaxBodyBytes` and `MaxParts`
  unfoldable pub parse_mime : ℕ → ℕ → Bytes → S → Result (MimeError E) (Message × S)
  unfolding read_parts read_header
  parse_mime max_body max_parts raw s =
      if is_empty raw
      then err message_empty
      else parse_entity (or_default default_max_body_bytes max_body)
          (or_default default_max_parts max_parts) (read_entity raw) s
