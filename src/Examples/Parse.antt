-- ===== src/Examples/Parse.antt =====
-- internal/worker/parse, internal/store/pg/parsed.go and internal/store/blob: the theorems at concrete
-- inputs.
use phenk.Prelude.{
  ℕ, ◌≡◌, inl, inr, refl, true, false, none, some, [], ◌∷◌, if◌then◌else◌, Bool-cases, length, keep,
  Bytes, codes, eq_bytes, eq_bytes_iff,
}
use phenk.Prelude.Assoc.{lookup}
use phenk.Core.Uuid.{hex_encode}
use phenk.Strings.{has_suffix}
use phenk.Core.Message.{Attachment, Delivery, received}
use phenk.Store.Tables.{Db, empty_db}
use phenk.Store.Parsed.{attached, replace_attachments}
use phenk.Store.Parsed.Replaced.{rows_for, of_others, replace_attachments-exact}
use phenk.Store.Files.{put, get, locate, IsAlone, get-put_file}
use phenk.Worker.Parse.Auth.{aligned}

abbrev same_text : Bytes → Bytes
same_text s = s

abbrev a_sender : Bytes
a_sender = codes "a@b.c"

-- Two hosts of one organisation do not align with each other.
siblings_not_aligned : aligned (codes "a.b.c") (codes "d.b.c") ≡ false
unfolding aligned eq_bytes has_suffix
siblings_not_aligned = refl

abbrev a_content : Bytes
a_content = codes "mail"

-- A hash that tells this content from every other.
abbrev a_hash : Bytes → Bytes
a_hash s = if eq_bytes s a_content then 1 ∷ [] else 2 ∷ []

a_content-IsAlone : IsAlone a_hash a_content
unfolding locate eq_bytes hex_encode
a_content-IsAlone other e = elim (Bool-cases (eq_bytes other a_content)) [
  | inl same ↦ (eq_bytes_iff other a_content).0 same
  | inr differ ↦
      let k : locate (1 ∷ []) ≡ locate (2 ∷ []) = rw differ at e in
      let f : false ≡ true = (eq_bytes_iff (locate (1 ∷ [])) (locate (2 ∷ []))).1 k in absurd cc
]

get-put_file_example :
    (get (put a_hash [] a_content).0 (put a_hash [] a_content).1.0 ≡ some a_content)
    × ((put a_hash [] a_content).1.1 ≡ length a_content)
unfolding lookup
get-put_file_example = get-put_file a_hash [] a_content (λ path c h. absurd cc) a_content-IsAlone

abbrev a_delivery : Delivery
a_delivery = record {
  id = 4;
  identity_id = 1;
  seq = 1;
  blob_id = 2;
  envelope_from = a_sender;
  client_ip = 0;
  helo = [];
  tls = false;
  size_bytes = 3;
  spf = none;
  dkim = none;
  dmarc = none;
  state = received;
  received_at = 0;
  parsed_at = none;
  wrapped_content_key = [];
}

abbrev an_attachment : ℕ → Attachment
an_attachment id = record {
  id = id;
  delivery_id = 4;
  filename = codes "a.txt";
  content_type = codes "text/plain";
  size_bytes = 1;
  blob_id = none;
}

abbrev a_db : Db
a_db = record empty_db { deliveries = a_delivery ∷ []; attachments = an_attachment 7 ∷ [] }

abbrev replaced_db : Db
replaced_db = record empty_db { deliveries = a_delivery ∷ []; attachments = an_attachment 8 ∷ [] }

replace_attachments-exact_example :
    (keep (attached 4) replaced_db.attachments ≡ rows_for 4 ((8, an_attachment 0) ∷ []))
    × (keep (of_others 4) replaced_db.attachments ≡ keep (of_others 4) a_db.attachments)
    × (replaced_db.blobs ≡ a_db.blobs)
unfolding replace_attachments
replace_attachments-exact_example =
    replace_attachments-exact 4 ((8, an_attachment 0) ∷ []) a_db tt replaced_db refl
