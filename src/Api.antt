-- ===== src/Api.antt =====
-- internal/api: the HTTP handlers, as steps on the server's state that end in a reply or a refusal.
-- Requests are read and replies written by net/http and the generated package apigen, which are left
-- out: a handler takes the parameters of its operation and returns the value that it writes.
pub mod Messages
pub mod Identities
pub mod Named
pub mod Wait
pub mod Stream
use phenk.Prelude.{ℕ, ◌*◌, ◌%◌, ◌^◌, Bool, Option, List, [], ltb, if◌then◌else◌, Bytes}
use phenk.Prelude.Result.{Result, ok, err}
use phenk.Prelude.Run.{RunOf}
use phenk.Crypto.Keyring.{Keyring}
use phenk.Store.Tables.{Db, Tx, StoreError, not_found, in_tx, get_or}
use phenk.Store.Files.{Files}
use phenk.Alloc.{Allocator}
use phenk.Smtpd.Limits.Tokens.{RateLimiter}
use phenk.Extract.Links.{Url}
use phenk.Extract.Html.{Token}

-- What is written in place of a reply: `notFound`, `badRequest`, `internalError` and the other
-- errors, by their codes.
pub data Refusal : Type 0 where
  nothing_found bad_request internal rate_limited unavailable feature_disabled : Refusal

-- The settings that the handlers read while they run.
pub record Config : Type 0 where
  pub max_wait_timeout : ℕ
  pub default_ttl : ℕ
  pub disposable : Bool

-- The state that handlers share. The tables and the limiter of named addresses change. The hub, whose
-- events a wait takes as a list, the sanitizer and the image proxy are left out.
pub record Server : Type 0 where
  pub config : Config
  pub db : Db
  pub files : Files
  pub keyring : Keyring
  pub allocator : Allocator
  pub named_rate : RateLimiter

-- The libraries for HTML and URLs that the detection of codes and links uses.
pub record Detector : Type 0 where
  pub tokenize : Bytes → List Token
  pub parse_url : Bytes → Option Url

abbrev pub Handler : Type 0 → Type 0
Handler A = RunOf Server Refusal A

-- What a handler makes of an error of the database: that there is no row, or any other.
abbrev pub not_found_or : Refusal → Refusal → StoreError → Refusal
not_found_or missing other not_found = missing
not_found_or missing other e = other

abbrev pub answered :
    {A : Type 0}
    → (StoreError → Refusal)
    → Server
    → Result StoreError A × Db
    → Result Refusal A × Server
answered f s (err e, db) = (err (f e), record s { db = db })
answered f s (ok a, db) = (ok a, record s { db = db })

-- A statement by itself, or a transaction.
abbrev pub query : {A : Type 0} → (StoreError → Refusal) → Tx A → Handler A
query f m s = answered f s (in_tx m s.db)

abbrev pub always_internal : StoreError → Refusal
always_internal e = internal

abbrev pub missing_is_not_found : StoreError → Refusal
missing_is_not_found = not_found_or nothing_found internal

-- session: the value of the cookie, empty when there is none
unfoldable pub session : Option Bytes → Bytes
session cookie = get_or [] cookie

-- A whole number of seconds as a time.Duration, whose 64 bits wrap around; a negative one is taken as
-- 0, as every use here takes it.
abbrev pub second : ℕ
second = 10 ^ 9

unfoldable pub seconds_as_duration : ℕ → ℕ
seconds_as_duration n = let d = n * second % 2 ^ 64 in if ltb d (2 ^ 63) then d else 0
