-- ===== src/Examples/Api.antt =====
-- internal/api: the theorems at concrete inputs.
use phenk.Prelude.{
  ℕ, ◌<◌, ◌*◌, ◌≤◌, ◌≡◌, ◌≢◌, ◌↔◌, inl, inr, refl, sym, ap, true, false, ◌&&◌, Option, none, some,
  [], ◌∷◌, map, arith, if◌then◌else◌, length, Bytes, codes, eq_bytes,
}
use mathlib.Core.Logic.{◌∨₁◌}
use mathlib.Core.List.{Mem, mem-cons_self, Pairwise-singleton}
use phenk.Prelude.Result.{Result, ok, err}
use phenk.Core.Domain.{Domain, DomainState, public}
use phenk.Core.Identity.{Identity, IdentityState, Kind, named_kind, random_kind}
use phenk.Core.Message.{Delivery, failed, message_received}
use phenk.Crypto.Aead.{toy}
use phenk.Crypto.Keyring.{Keyring}
use phenk.Store.Tables.{empty_db, order_by, in_tx}
use phenk.Store.Deliveries.{delivery_by_id, deliveries_since}
use phenk.Store.Identities.{identity_by_id, named_identity_by_local_part}
use phenk.Store.Domains.{domain_by_id}
use phenk.Store.Parsed.{parsed_message_by_delivery}
use phenk.Core.Address.{normalize_local_part, validate_named_local_part}
use phenk.Alloc.{Draw, new_allocator, resolve_or_create_named}
use phenk.Smtpd.Limits.Tokens.{new_rate_limiter, allow}
use phenk.Api.{Server, Refusal, Detector, nothing_found, second}
use phenk.Api.Messages.{
  MessageSummary, bare_summary, readable_message, message_page, get_message, get_raw_message,
  get_attachment,
}
use phenk.Api.Messages.Access.{readable_message_exact, forbidden_message_hides, IsReadable}
use phenk.Api.Messages.Pages.{message_page_skips_nothing}
use phenk.Api.Identities.{owned_identity}
use phenk.Api.Named.{named_identity, open_named}
use phenk.Api.Named.Doors.{named_identity-owned_identity_apart, is_unused, open_named_charges}
use phenk.Api.Wait.{
  shorter, wait_timeout, hung_up, deadline, notified, Moments, held, page_at, wait, Page,
}
use phenk.Api.Wait.Answers.{wait_timeout_clamped, IsAnswer, wait-IsAnswer, wait-ends}

abbrev bytes_32 : Bytes
bytes_32 = codes "0123456789abcdef0123456789abcdef"

abbrev an_identity : ℕ → Kind → Bytes → Identity
an_identity id kind key = record {
  id = id;
  local_part = codes "hello";
  domain_id = 1;
  kind = kind;
  state = IdentityState.active;
  owner_session = codes "cookie";
  wrapped_data_key = key;
  retention_hours = none;
  delivery_seq = 2;
  quota_messages = 10;
  quota_bytes = 100;
  used_messages = 1;
  used_bytes = 3;
  created_at = 0;
  expires_at = none;
  purged_at = none;
  reserved_until = none;
}

abbrev a_domain : Domain
a_domain = record {
  id = 1;
  name = codes "ph.ex";
  pool = public;
  state = DomainState.active;
  created_at = 0;
  burned_at = none;
}

abbrev pub a_delivery : Delivery
a_delivery = record {
  id = 4;
  identity_id = 1;
  seq = 2;
  blob_id = 2;
  envelope_from = codes "a@b.c";
  client_ip = 0;
  helo = [];
  tls = false;
  size_bytes = 3;
  spf = none;
  dkim = none;
  dmarc = none;
  state = failed;
  received_at = 0;
  parsed_at = none;
  wrapped_content_key = [];
}

-- A private address, with a key or without, and a public one.
abbrev pub owned_with : Bytes → Identity
owned_with key = an_identity 1 random_kind key

abbrev a_public : Identity
a_public = an_identity 2 named_kind (1 ∷ [])

abbrev a_keyring : Keyring
a_keyring = record { cipher = toy; master = [] }

abbrev pub a_server : Bytes → Server
a_server key = record {
  config = record { max_wait_timeout = 0; default_ttl = 0; disposable = true };
  db = record empty_db {
    domains = a_domain ∷ [];
    identities = owned_with key ∷ a_public ∷ [];
    deliveries = a_delivery ∷ [];
  };
  files = [];
  keyring = a_keyring;
  allocator =
      new_allocator a_keyring (record { default_ttl = 0; max_ttl = 0; named_retention = 0 });
  named_rate = new_rate_limiter 1 1;
}

abbrev pub a_detector : Detector
a_detector = record { tokenize = λ (s : Bytes). []; parse_url = λ (s : Bytes). none }

abbrev a_cookie : Option Bytes
a_cookie = some (codes "cookie")

readable_message_exact_example :
    ((readable_message a_cookie 4 (a_server (1 ∷ []))
        ≡ (ok (a_delivery, owned_with (1 ∷ [])), a_server (1 ∷ [])))
      ↔ IsReadable a_cookie (owned_with (1 ∷ [])))
    × ((readable_message a_cookie 4 (a_server (1 ∷ [])) ≡ (err nothing_found, a_server (1 ∷ [])))
        ↔ ¬ IsReadable a_cookie (owned_with (1 ∷ [])))
unfolding delivery_by_id identity_by_id
readable_message_exact_example =
    readable_message_exact a_cookie 4 a_delivery (owned_with (1 ∷ [])) (a_server (1 ∷ [])) refl refl

not_for_strangers : ¬ IsReadable none (owned_with (1 ∷ []))
not_for_strangers h = elim h.0 [ inl e ↦ absurd cc | inr o ↦ absurd cc ]

forbidden_message_hides_example :
    let s = a_server (1 ∷ []) in
    (get_message a_detector none 4 s ≡ get_message a_detector none 9 s)
    × (get_raw_message none 4 s ≡ get_raw_message none 9 s)
    × (get_attachment none 4 2 s ≡ get_attachment none 9 2 s)
unfolding delivery_by_id identity_by_id
forbidden_message_hides_example =
    forbidden_message_hides a_detector none 4 9 2 a_delivery (owned_with (1 ∷ []))
      (a_server (1 ∷ [])) refl refl refl not_for_strangers

message_page_skips_nothing_example :
    (map (λ (m : MessageSummary). m.id) (bare_summary a_delivery ∷ [])
      ≡ map (λ (d : Delivery). d.id) (deliveries_since 1 0 50 (a_server []).db))
    × (length (bare_summary a_delivery ∷ []) ≤ 50)
    × (Mem a_delivery (deliveries_since 1 0 50 (a_server []).db) ∨₁ (2 < 2))
unfolding message_page deliveries_since order_by parsed_message_by_delivery
message_page_skips_nothing_example =
    message_page_skips_nothing a_detector (owned_with []) 0 50 (a_server [])
      (bare_summary a_delivery ∷ []) 2 (a_server []) a_delivery refl
      (Pairwise-singleton _ a_delivery) mem-cons_self refl

named_identity-owned_identity_apart_example :
    (a_public.kind ≡ named_kind)
    × ((owned_with []).kind ≡ random_kind)
    × ((owned_with []).owner_session ≢ [])
    × (a_cookie ≡ some (owned_with []).owner_session)
    × (a_public ≢ owned_with [])
unfolding named_identity eq_bytes owned_identity in_tx identity_by_id domain_by_id
named_identity-owned_identity_apart_example =
    named_identity-owned_identity_apart (codes "hello") (a_server []) a_public (a_server [])
      a_cookie 1 (a_server []) (owned_with []) a_domain (a_server []) refl refl

abbrev a_draw : Draw
a_draw = record {
  id = 7;
  key = record { nonce = []; raw = [] };
  local_bytes = [];
  pick = 0;
  now = 3;
}

abbrev a_hash : Bytes → ℕ
a_hash s = 0

abbrev a_caller : Bytes
a_caller = codes "10.0.0.1"

open_named_charges_example :
    ((open_named a_hash a_caller 5 a_draw (codes "Hello") 201 (a_server [])).1.named_rate ≡ (
      if is_unused (named_identity_by_local_part (codes "hello") (a_server []).db)
      then (allow (a_server []).named_rate a_caller 5).0
      else (a_server []).named_rate))
    × ((open_named a_hash a_caller 5 a_draw (codes "Hello") 201 (a_server [])).1.db ≡ (
        if is_unused (named_identity_by_local_part (codes "hello") (a_server []).db)
          && (allow (a_server []).named_rate a_caller 5).1
        then (resolve_or_create_named a_hash
            (a_server []).allocator
            a_draw
            (codes "hello")
            (a_server []).db).1
        else (a_server []).db))
unfolding normalize_local_part validate_named_local_part
open_named_charges_example =
    open_named_charges a_hash a_caller 5 a_draw (codes "Hello") 201 (a_server []) refl

wait_timeout_clamped_example :
    (wait_timeout (some 9223372037) (120 * second) ≤ 120 * second)
    × (wait_timeout (some 600) (120 * second) ≡ shorter (600 * second) (120 * second))
    × (wait_timeout none (120 * second) ≡ wait_timeout (some 0) (120 * second))
wait_timeout_clamped_example =
    wait_timeout_clamped (some 9223372037) 600 (120 * second) (omega arith)

-- A request for longer than 64 bits of nanoseconds is answered at once.
overflow_waits_for_nothing : wait_timeout (some 9223372037) (120 * second) ≡ 0
unfolding wait_timeout
overflow_waits_for_nothing = refl

abbrev some_moments : Moments
some_moments =
    (notified message_received, a_server []) ∷ (deadline, a_server []) ∷ (hung_up, a_server []) ∷ []

wait-ends_example : wait a_detector (owned_with []) 0 (a_server []) some_moments ≢ held
wait-ends_example = wait-ends a_detector (owned_with []) 0 (a_server []) some_moments refl

-- A page whose cursor is the caller's, or the number of the one message.
abbrev HasCursor : Page → Type 0
HasCursor p = p.1 ≡ 2

ok_inj : (p q : Page) → ◌≡◌ {A = Result Refusal Page} (ok p) (ok q) → p ≡ q
ok_inj p q e = cc

page_HasCursor :
    (p : Page) → page_at a_detector (owned_with []) 0 (a_server []) ≡ ok p → HasCursor p
unfolding message_page deliveries_since order_by parsed_message_by_delivery
page_HasCursor p e = sym (ap (λ (q : Page). q.1) (ok_inj (bare_summary a_delivery ∷ [], 2) p e))

wait-IsAnswer_example :
    IsAnswer a_detector
      (owned_with [])
      0
      HasCursor
      (wait a_detector (owned_with []) 0 (a_server []) some_moments)
wait-IsAnswer_example =
    wait-IsAnswer a_detector (owned_with []) 0 HasCursor (a_server []) some_moments page_HasCursor
      (page_HasCursor, (page_HasCursor, (page_HasCursor, tt)))
