-- ===== src/Mimeparse/Bounds.antt =====
-- internal/mimeparse/mimeparse.go: how much `Parse` keeps, and what it hands to the callback.
use phenk.Prelude.{
  ℕ, ◌+◌, ◌≤◌, ◌≡◌, inl, inr, refl, ap, ◌∙◌, false, Option, none, some, List, [], ◌∷◌, ◌++◌, arith,
  ltb, leb, if_either, Bool-cases, length, is_empty, length-append, take_all, drop_all, Bytes,
  codes, eq_bytes,
}
use phenk.Prelude.Result.{Result, ok, err}
use phenk.Strings.{has_prefix}
use phenk.Mimeparse.{sanitize_header_text}
use phenk.Mimeparse.Parts.{
  read_subject, read_raw_from, read_from, read_raw_date, read_date, read_lists, Address,
  message_empty, inline_meta, attached_meta, Body, AttachmentMeta, Message, MimeError, Header,
  Entity, Part, Next, inline_part, attached_part, other_part, next_part, next_undecodable,
  next_unreadable, handed_over, with_type, read_attachment, read_inline, read_inline_part,
  read_limited, behind, read_part, and_then, read_parts, warn, warn_unnamed, read_header,
  parse_entity, parse_mime, or_default, start_message, default_max_parts, default_max_body_bytes,
  too_many_parts,
}

module _ (lower : Bytes → Bytes) {S E : Type 0} (store : AttachmentMeta → Body → S → Result E S)
    (max_body max_parts : ℕ) where
  abbrev kept : Message → ℕ
  kept m = length m.attachments

  handed_over-kept :
      (m : Message) (r : Result E S) (n : Message) (t : S)
      → handed_over lower store max_body max_parts m r ≡ ok (n, t)
      → n ≡ m
  handed_over-kept m (err e) n t h = absurd cc
  handed_over-kept m (ok s) n t h = cc

  read_attachment-kept :
      (meta : AttachmentMeta) (body : Body) (m n : Message) (s t : S)
      → read_attachment lower store max_body max_parts meta body m s ≡ ok (n, t)
      → kept n ≡ kept m + 1
  unfolding read_attachment
  read_attachment-kept meta body m n s t h =
      let e =
        handed_over-kept (record m { attachments = m.attachments ++ (with_type meta ∷ []) })
          (store (with_type meta) body s) n t h in
      omega (arith, ap kept e, length-append m.attachments (with_type meta ∷ []))

  read_inline-kept :
      (content_type content_id read : Bytes) (body : Body) (m n : Message) (s t : S)
      → read_inline lower store max_body max_parts content_type content_id read body m s ≡ ok (n, t)
      → kept n ≤ kept m + 1
  unfolding read_inline
  read_inline-kept content_type content_id read body m n s t h =
      elim (Bool-cases (eq_bytes (lower content_type) (codes "text/html"))) [
        | inl e ↦
            let k : ok (record m { html = m.html ++ read }, s) ≡ ok (n, t) = rw e at h in
            ground (arith, k)
        | inr e ↦ elim (Bool-cases (has_prefix (lower content_type) (codes "text/"))) [
          | inl d ↦
              let k : ok (record m { text = m.text ++ read }, s) ≡ ok (n, t) = rw (e, d) at h in
              ground (arith, k)
          | inr d ↦ ground (
            arith,
            read_attachment-kept (inline_meta content_type content_id) body m n s t
                (rw (e, d) at h),
          )
        ]
      ]

  read_inline_part-kept :
      (content_type content_id : Bytes) (body : Body) (o : Option Bytes) (m n : Message) (s t : S)
      → read_inline_part lower store max_body max_parts content_type content_id body o m s
        ≡ ok (n, t)
      → kept n ≤ kept m + 1
  read_inline_part-kept content_type content_id body none m n s t h = ground (arith, h)
  read_inline_part-kept content_type content_id body (some read) m n s t h =
      read_inline-kept content_type content_id read (behind max_body body) m n s t h

  warn_unnamed-kept : (o : Option Bytes) (m : Message) → kept (warn_unnamed o m) ≡ kept m
  warn_unnamed-kept none m = refl
  warn_unnamed-kept (some a) m = refl

  read_part-kept :
      (p : Part) (m n : Message) (s t : S)
      → read_part lower store max_body max_parts p m s ≡ ok (n, t)
      → kept n ≤ kept m + 1
  unfolding read_part
  read_part-kept (inline_part content_type content_id body) m n s t h =
      read_inline_part-kept content_type content_id body (read_limited max_body body) m n s t h
  read_part-kept (attached_part filename content_type content_id body) m n s t h = omega (
    arith,
    read_attachment-kept (attached_meta filename content_type content_id) body
        (warn_unnamed filename m) n s t h,
    warn_unnamed-kept filename m,
  )
  read_part-kept other_part m n s t h = ground (arith, h)

  and_then-ok :
      (k : Message → S → Result (MimeError E) (Message × S))
      (r : Result (MimeError E) (Message × S)) (n : Message) (t : S)
      → and_then lower store max_body max_parts k r ≡ ok (n, t)
      → (m : Message) × (s : S) × (r ≡ ok (m, s)) × (k m s ≡ ok (n, t))
  and_then-ok k (err e) n t h = absurd cc
  and_then-ok k (ok (m, s)) n t h = (m, s, refl, h)

  pub read_parts-kept :
      (nexts : List Next) (parts : ℕ) (m n : Message) (s t : S)
      → kept m ≤ parts
      → parts ≤ max_parts
      → read_parts lower store max_body max_parts nexts parts m s ≡ ok (n, t)
      → kept n ≤ max_parts
  unfolding read_parts
  read_parts-kept [] parts m n s t k b h = ground (arith, h)
  read_parts-kept (next_undecodable ∷ nexts) parts m n s t k b h =
      read_parts-kept nexts parts _ n s t k b h
  read_parts-kept (next_unreadable ∷ nexts) parts m n s t k b h = ground (arith, h)
  read_parts-kept (next_part p ∷ nexts) parts m n s t k b h =
      elim (Bool-cases (ltb max_parts (parts + 1))) [
        | inl e ↦ let j : ok (warn too_many_parts m, s) ≡ ok (n, t) = rw e at h in ground (arith, j)
        | inr e ↦
            let r =
              and_then-ok (read_parts lower store max_body max_parts nexts (parts + 1))
                (read_part lower store max_body max_parts p m s) n t (rw e at h) in
            read_parts-kept nexts (parts + 1) r.0 n r.1 t
              (omega (arith, k, read_part-kept p m r.0 s r.1 r.2)) (ground (arith, e)) r.3
      ]

module _ (lower : Bytes → Bytes) (parse_date : Bytes → Option ℕ) where
  read_subject-kept :
      (h : Header) (o : Option Bytes) (m : Message)
      → (read_subject lower parse_date h o m).attachments ≡ m.attachments
  read_subject-kept h (some s) m = refl
  read_subject-kept h none m =
      if_either (λ (n : Message). n.attachments ≡ m.attachments)
        (is_empty (sanitize_header_text h.raw_subject)) refl refl

  read_raw_from-kept :
      (h : Header) (m : Message) → (read_raw_from lower parse_date h m).attachments ≡ m.attachments
  read_raw_from-kept h m =
      if_either (λ (n : Message). n.attachments ≡ m.attachments) (is_empty h.raw_from) refl refl

  read_from-kept :
      (h : Header) (o : Option (List Address)) (m : Message)
      → (read_from lower parse_date h o m).attachments ≡ m.attachments
  read_from-kept h none m = read_raw_from-kept h m
  read_from-kept h (some []) m = read_raw_from-kept h m
  read_from-kept h (some (a ∷ more)) m = refl

  read_raw_date-kept :
      (h : Header) (o : Option ℕ) (m : Message)
      → (read_raw_date lower parse_date h o m).attachments ≡ m.attachments
  read_raw_date-kept h none m =
      if_either (λ (n : Message). n.attachments ≡ m.attachments) (is_empty h.raw_date) refl refl
  read_raw_date-kept h (some t) m =
      if_either (λ (n : Message). n.attachments ≡ m.attachments) (is_empty h.raw_date) refl refl

  read_date-kept :
      (h : Header) (o : Option ℕ) (m : Message)
      → (read_date lower parse_date h o m).attachments ≡ m.attachments
  read_date-kept h (some t) m = refl
  read_date-kept h none m = read_raw_date-kept h (parse_date h.raw_date) m

  read_header-kept :
      (h : Header) (m : Message) → (read_header lower parse_date h m).attachments ≡ m.attachments
  unfolding read_header
  read_header-kept h m =
      let with_subject = read_subject lower parse_date h h.subject m in
      let with_from = read_from lower parse_date h (h.addresses (codes "From")) with_subject in
      read_date-kept h h.date (read_lists lower parse_date h with_from)
      ∙ (read_from-kept h (h.addresses (codes "From")) with_subject
          ∙ read_subject-kept h h.subject m)

start_message-kept : (e : Entity) → (start_message e).attachments ≡ []
start_message-kept e = if_either (λ (n : Message). n.attachments ≡ []) e.undecodable refl refl

module _ (lower : Bytes → Bytes) (parse_date : Bytes → Option ℕ)
    (read_entity : Bytes → Option Entity) {S E : Type 0}
    (store : AttachmentMeta → Body → S → Result E S) where
  parse_entity-kept :
      (max_body max_parts : ℕ) (o : Option Entity) (m : Message) (s t : S)
      → parse_entity lower parse_date read_entity store max_body max_parts o s ≡ ok (m, t)
      → length m.attachments ≤ max_parts
  parse_entity-kept max_body max_parts none m s t h = absurd cc
  parse_entity-kept max_body max_parts (some e) m s t h =
      let start = read_header lower parse_date e.header (start_message e) in
      let none_kept : start.attachments ≡ [] =
        read_header-kept lower parse_date e.header (start_message e) ∙ start_message-kept e in
      read_parts-kept lower store max_body max_parts e.nexts 0 start m s t
        (omega (arith, ap length none_kept)) (omega arith) h

-- A message that parses has at most as many attachments as the parts that may be read.
pub parse_mime-kept :
    (lower : Bytes → Bytes) (parse_date : Bytes → Option ℕ) (read_entity : Bytes → Option Entity)
    {S E : Type 0} (store : AttachmentMeta → Body → S → Result E S) (max_body max_parts : ℕ)
    (raw : Bytes) (m : Message) (s t : S)
    → parse_mime lower parse_date read_entity store max_body max_parts raw s ≡ ok (m, t)
    → length m.attachments ≤ or_default default_max_parts max_parts
unfolding parse_mime
parse_mime-kept lower parse_date read_entity store max_body max_parts raw m s t h =
    elim (Bool-cases (is_empty raw)) [
      | inl e ↦ let k : err message_empty ≡ ok (m, t) = rw e at h in absurd cc
      | inr e ↦
          parse_entity-kept lower parse_date read_entity store
            (or_default default_max_body_bytes max_body) (or_default default_max_parts max_parts)
            (read_entity raw) m s t (rw e at h)
    ]

read_limited-whole :
    (n : ℕ) (content : Bytes)
    → length content ≤ n
    → read_limited n (record { unread = content; fails = false }) ≡ some content
read_limited-whole n content b =
    if_either (λ (o : Option Bytes). o ≡ some content) (leb n (length content))
      (ap some (take_all n content b)) refl

read_inline-other :
    (lower : Bytes → Bytes) {S E : Type 0} (store : AttachmentMeta → Body → S → Result E S)
    (max_body max_parts : ℕ) (content_type content_id read : Bytes) (body : Body) (m : Message)
    (s : S)
    → eq_bytes (lower content_type) (codes "text/html") ≡ false
    → has_prefix (lower content_type) (codes "text/") ≡ false
    → read_inline lower store max_body max_parts content_type content_id read body m s
      ≡ read_attachment lower store max_body max_parts
          (inline_meta content_type content_id)
          body
          m
          s
unfolding read_inline
read_inline-other lower store max_body max_parts content_type content_id read body m s e d =
    rw (e, d) refl

-- An inline part that is no text and no longer than the limit on bodies reaches the callback with
-- nothing left to read: its bytes were read before its type was looked at.
pub read_part-inline_unread :
    (lower : Bytes → Bytes) {S E : Type 0} (store : AttachmentMeta → Body → S → Result E S)
    (max_body max_parts : ℕ) (content_type content_id content : Bytes) (m : Message) (s : S)
    → length content ≤ max_body
    → eq_bytes (lower content_type) (codes "text/html") ≡ false
    → has_prefix (lower content_type) (codes "text/") ≡ false
    → read_part lower store max_body max_parts
        (inline_part content_type content_id (record { unread = content; fails = false }))
        m
        s
      ≡ read_attachment lower store max_body max_parts
          (inline_meta content_type content_id)
          (record { unread = []; fails = false })
          m
          s
unfolding read_part
read_part-inline_unread lower store max_body max_parts content_type content_id content m s b e d =
    rw (read_limited-whole max_body content b, drop_all max_body content b)
      (read_inline-other lower store max_body max_parts content_type content_id content
        (record { unread = []; fails = false }) m s e d)
