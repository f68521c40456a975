-- ===== src/Store/Domains.antt =====
-- internal/store/pg/domains.go. Names are ordered by their bytes.
use phenk.Prelude.{
  ℕ, Bool, true, false, ◌&&◌, ◌||◌, some, List, [], ◌∷◌, ◌++◌, ltb, ◌==◌, if◌then◌else◌, keep,
  find_first, any, Bytes, eq_bytes,
}
use phenk.Prelude.Result.{ok, err}
use phenk.Core.Domain.{Domain, DomainState, Pool, eq_pool, is_active, is_burned}
use phenk.Store.Tables.{Db, Tx, not_found, conflict, or_not_found, update_where, get_or}

abbrev pub domain_named : Bytes → Domain → Bool
domain_named name d = eq_bytes d.name name

-- CreateDomain; `fresh_id` is the identifier that `NewUUID` mints for a domain that has none
unfoldable pub create_domain : ℕ → Domain → Tx (Unit {0})
create_domain fresh_id d₀ db =
    let d : Domain = if d₀.id == 0 then record d₀ { id = fresh_id } else d₀ in
    if any (λ r. (r.id == d.id) || domain_named d.name r) db.domains
    then err conflict
    else ok (tt, record db { domains = db.domains ++ d ∷ [] })

unfoldable pub domain_by_name : Bytes → Tx Domain
domain_by_name name db = or_not_found (find_first (domain_named name) db.domains) db

unfoldable pub domain_by_id : ℕ → Tx Domain
domain_by_id id db = or_not_found (find_first (λ d. d.id == id) db.domains) db

-- a comes before b, or is the same name
unfoldable pub name_le : Bytes → Bytes → Bool
name_le [] t = true
name_le (c ∷ s) [] = false
name_le (c ∷ s) (d ∷ t) = ltb c d || ((c == d) && name_le s t)

unfoldable pub insert_by_name : Domain → List Domain → List Domain
insert_by_name d [] = d ∷ []
insert_by_name d (r ∷ rs) = if name_le d.name r.name then d ∷ r ∷ rs else r ∷ insert_by_name d rs

unfoldable pub order_by_name : List Domain → List Domain
unfolding insert_by_name
order_by_name [] = []
order_by_name (d ∷ ds) = insert_by_name d (order_by_name ds)

abbrev pub allocatable : Pool → Domain → Bool
allocatable pool d = eq_pool d.pool pool && is_active d.state

unfoldable pub allocatable_domains : Pool → Db → List Domain
unfolding order_by_name
allocatable_domains pool db = order_by_name (keep (allocatable pool) db.domains)

abbrev pub in_state : DomainState → ℕ → Domain → Domain
in_state state now d = record d {
  state = state;
  burned_at = if is_burned state then some (get_or now d.burned_at) else d.burned_at;
}

unfoldable pub set_domain_state : ℕ → DomainState → ℕ → Tx (Unit {0})
set_domain_state id state now db =
    if any (λ d. d.id == id) db.domains
    then ok
        (tt, record db { domains = update_where (λ d. d.id == id) (in_state state now) db.domains })
    else err not_found
