-- ===== src/Store/Identities.antt =====
-- internal/store/pg/identities.go. A named identity has no owner session and no expiry; that and the
-- unique address are the constraints of the table.
use phenk.Prelude.{
  ℕ, Bool, true, false, not, ◌&&◌, ◌||◌, Option, none, some, List, [], ◌∷◌, ◌++◌, ◌==◌,
  if◌then◌else◌, is_empty, keep, find_first, any, Bytes, eq_bytes,
}
use phenk.Prelude.Result.{ok, err}
use phenk.Core.Domain.{Domain}
use phenk.Core.Identity.{Identity, IdentityState, eq_state, is_named, expired, purged, reserved}
use phenk.Store.Tables.{
  Db, Tx, not_found, conflict, violation, invalid, or_not_found, update_where, get_or, is_some,
  has_id, has_address, order_by, ◌>>=◌, ◌>>◌,
}

-- validateIdentity: `true` where it finds nothing wrong
unfoldable pub valid_identity : Identity → Bool
valid_identity id =
    if is_empty id.wrapped_data_key
    then false
    else if is_named id.kind
    then is_empty id.owner_session && not (is_some id.expires_at)
    else true

-- The row of a new identity: the counters start at their defaults.
abbrev pub new_row : Identity → Identity
new_row id = record id {
  delivery_seq = 0;
  used_messages = 0;
  used_bytes = 0;
  purged_at = none;
  reserved_until = none;
}

abbrev pub with_id : ℕ → Identity → Identity
with_id fresh_id id = if id.id == 0 then record id { id = fresh_id } else id

abbrev pub knows_domain : Db → ℕ → Bool
knows_domain db domain = any (λ d. d.id == domain) db.domains

abbrev pub add_identity : Db → Identity → Db
add_identity db id = record db { identities = db.identities ++ new_row id ∷ [] }

-- CreateIdentity; `fresh_id` is the identifier that `NewUUID` mints for an identity that has none
unfoldable pub create_identity : ℕ → Identity → Tx (Unit {0})
unfolding valid_identity
create_identity fresh_id id₀ db =
    let id = with_id fresh_id id₀ in
    if not (valid_identity id)
    then err invalid
    else if any (λ r. has_id id.id r || has_address id.local_part id.domain_id r) db.identities
    then err conflict
    else if not (knows_domain db id.domain_id)
    then err violation
    else ok (tt, add_identity db id)

unfoldable pub identity_by_id : ℕ → Tx Identity
identity_by_id id db = or_not_found (find_first (has_id id) db.identities) db

unfoldable pub identity_by_address : Bytes → ℕ → Tx Identity
identity_by_address local domain db =
    or_not_found (find_first (has_address local domain) db.identities) db

-- IdentityForUpdate: within a transaction the row lock changes nothing that is read.
unfoldable pub identity_for_update : ℕ → Tx Identity
identity_for_update id db = or_not_found (find_first (has_id id) db.identities) db

-- INSERT … ON CONFLICT (local_part, domain_id) DO NOTHING
unfoldable pub insert_if_absent : Identity → Tx (Unit {0})
insert_if_absent id db =
    if any (has_address id.local_part id.domain_id) db.identities
    then ok (tt, db)
    else if any (has_id id.id) db.identities
    then err conflict
    else if not (knows_domain db id.domain_id)
    then err violation
    else ok (tt, add_identity db id)

-- CreateIdentityIfAbsent
unfoldable pub create_identity_if_absent : ℕ → Identity → Tx (Identity × Bool)
unfolding valid_identity insert_if_absent identity_by_address
create_identity_if_absent fresh_id id₀ db =
    let id = with_id fresh_id id₀ in
    let insert_and_read : Tx (Identity × Bool) = do
      insert_if_absent id
      stored ← identity_by_address id.local_part id.domain_id
      λ db'. ok ((stored, stored.id == id.id), db')
    in if not (valid_identity id) then err invalid else insert_and_read db

-- IdentitiesByOwner, newest first
unfoldable pub identities_by_owner : Bytes → Db → List Identity
unfolding order_by
identities_by_owner session db =
    if is_empty session
    then []
    else mathlib.Core.List.reverse
        (order_by (λ i. i.created_at) (keep (λ i. eq_bytes i.owner_session session) db.identities))

abbrev pub in_state : IdentityState → Identity → Identity
in_state to i = record i { state = to }

abbrev pub movable : ℕ → List IdentityState → Identity → Bool
movable id from i = has_id id i && (is_empty from || any (eq_state i.state) from)

-- SetIdentityState: whether a row moved
unfoldable pub set_identity_state : ℕ → IdentityState → List IdentityState → Tx Bool
set_identity_state id to from db = ok (
  any (movable id from) db.identities,
  record db { identities = update_where (movable id from) (in_state to) db.identities },
)

abbrev pub purgeable : ℕ → Identity → Bool
purgeable id i = has_id id i && (eq_state i.state expired || eq_state i.state purged)

abbrev pub tombstone : ℕ → ℕ → Identity → Identity
tombstone now until i = record i {
  wrapped_data_key = [];
  state = reserved;
  purged_at = some (get_or now i.purged_at);
  reserved_until = some until;
}

-- DestroyDataKey: whether a row moved
unfoldable pub destroy_data_key : ℕ → ℕ → ℕ → Tx Bool
destroy_data_key id until now db = ok (
  any (purgeable id) db.identities,
  record db { identities = update_where (purgeable id) (tombstone now until) db.identities },
)

unfoldable pub is_local_part_blocked : Bytes → Db → Bool
is_local_part_blocked local db = any (eq_bytes local) db.blocked

-- BlockLocalPart; the reason is left out
unfoldable pub block_local_part : Bytes → Db → Db
block_local_part local db =
    if any (eq_bytes local) db.blocked then db else record db { blocked = db.blocked ++ local ∷ [] }

abbrev pub named_as : Bytes → Identity → Bool
named_as local i = eq_bytes i.local_part local && is_named i.kind

abbrev pub first : {A : Type 0} → List A → Option A
first [] = none
first (x ∷ xs) = some x

abbrev with_domain : Option Identity → Tx (Identity × Domain)
with_domain none db = err not_found
with_domain (some i) db = elim (find_first (λ d. d.id == i.domain_id) db.domains) [
  | none ↦ err not_found
  | some d ↦ ok ((i, d), db)
]

-- NamedIdentityByLocalPart: the oldest of that name
unfoldable pub named_identity_by_local_part : Bytes → Tx (Identity × Domain)
unfolding order_by
named_identity_by_local_part local db =
    with_domain (first (order_by (λ i. i.created_at) (keep (named_as local) db.identities))) db
