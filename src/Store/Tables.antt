-- ===== src/Store/Tables.antt =====
-- internal/store/pg/db.go and migrations/0001_init.sql: the tables, transactions, and the parts that
-- the statements share.
use phenk.Prelude.{
  ℕ, Bool, true, false, not, ◌&&◌, Option, none, some, List, [], ◌∷◌, leb, ◌==◌, if◌then◌else◌,
  keep, Bytes, eq_bytes,
}
use phenk.Prelude.Result.{Result, ok, err}
use phenk.Core.Domain.{Domain}
use phenk.Core.Identity.{Identity}
use phenk.Core.Message.{Blob, Delivery, ParsedMessage, Attachment, Event}

pub record Db : Type 0 where
  pub domains : List Domain
  pub identities : List Identity
  pub blocked : List Bytes
  pub blobs : List Blob
  pub deliveries : List Delivery
  pub parsed_messages : List ParsedMessage
  pub attachments : List Attachment
  pub events : List Event
  pub next_event_seq : ℕ

abbrev pub empty_db : Db
empty_db = record {
  domains = [];
  identities = [];
  blocked = [];
  blobs = [];
  deliveries = [];
  parsed_messages = [];
  attachments = [];
  events = [];
  next_event_seq = 1;
}

-- `not_found` and `conflict` are the errors that `mapError` tells apart; `violation` is any other
-- constraint of a table, and `invalid` what a function refuses before it asks the database.
pub data StoreError : Type 0 where
  not_found conflict violation invalid : StoreError

-- A transaction that fails with errors of its own, and one of statements only.
abbrev pub TxOf : Type 0 → Type 0 → Type 0
TxOf E A = Db → Result E (A × Db)

abbrev pub Tx : Type 0 → Type 0
Tx A = TxOf StoreError A

-- What a statement of a transaction returns, with the tables that it leaves.
abbrev pub or_not_found : {A : Type 0} → Option A → Db → Result StoreError (A × Db)
or_not_found none db = err not_found
or_not_found (some a) db = ok (a, db)

infixl 5 ◌>>=◌ ◌>>◌
abbrev pub ◌>>=◌ : {E A B : Type 0} → TxOf E A → (A → TxOf E B) → TxOf E B
◌>>=◌ m f db = elim (m db) [ err e ↦ err e | ok (a, db') ↦ f a db' ]

abbrev pub ◌>>◌ : {E A B : Type 0} → TxOf E A → TxOf E B → TxOf E B
m >> k = m >>= λ _. k

abbrev pub pure : {E A : Type 0} → A → TxOf E A
pure a db = ok (a, db)

abbrev pub fail : {E A : Type 0} → E → TxOf E A
fail e db = err e

abbrev pub lift : {E F A : Type 0} → (E → F) → TxOf E A → TxOf F A
lift f m db = elim (m db) [ err e ↦ err (f e) | ok r ↦ ok r ]

abbrev pub ended : {E A : Type 0} → Db → Result E (A × Db) → Result E A × Db
ended db (err e) = (err e, db)
ended db (ok (a, db')) = (ok a, db')

-- DB.InTx: the tables after the transaction, and what it returned.
unfoldable pub in_tx : {E A : Type 0} → TxOf E A → Db → Result E A × Db
in_tx m db = ended db (m db)

-- UPDATE … SET … WHERE
abbrev pub update_where : {A : Type 0} → (A → Bool) → (A → A) → List A → List A
update_where p f [] = []
update_where p f (x ∷ xs) = (if p x then f x else x) ∷ update_where p f xs

-- DELETE … WHERE
abbrev pub delete_where : {A : Type 0} → (A → Bool) → List A → List A
delete_where p xs = keep (λ x. not (p x)) xs

-- ORDER BY a number, rows with the same number as they stand
abbrev pub insert_by : {A : Type 0} → (A → ℕ) → A → List A → List A
insert_by key x [] = x ∷ []
insert_by key x (y ∷ ys) = if leb (key x) (key y) then x ∷ y ∷ ys else y ∷ insert_by key x ys

unfoldable pub order_by : {A : Type 0} → (A → ℕ) → List A → List A
order_by key [] = []
order_by key (x ∷ xs) = insert_by key x (order_by key xs)

abbrev pub get_or : {A : Type 0} → A → Option A → A
get_or d none = d
get_or d (some a) = a

abbrev pub is_some : {A : Type 0} → Option A → Bool
is_some none = false
is_some (some a) = true

abbrev pub has_id : ℕ → Identity → Bool
has_id id i = i.id == id

abbrev pub has_address : Bytes → ℕ → Identity → Bool
has_address local domain i = eq_bytes i.local_part local && (i.domain_id == domain)
