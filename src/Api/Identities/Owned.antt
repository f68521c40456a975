-- ===== src/Api/Identities/Owned.antt =====
-- internal/api/identities.go: what a private address is given out to, and what destroying it leaves.
use phenk.Prelude.{ℕ, ◌≡◌, refl, sym, ap, ◌∙◌, Bool, true, false, not, Option, Bytes}
use phenk.Prelude.Result.{ok}
use phenk.Prelude.Run.{continue-ok, refuse_unless, done, done-ok, ◌>>=◌}
use phenk.Core.Domain.{Domain}
use phenk.Core.Identity.{Identity, is_named}
use phenk.Store.Domains.{domain_by_id}
use phenk.Store.Identities.{identity_by_id}
use phenk.Api.{
  Refusal, nothing_found, Server, query, always_internal, missing_is_not_found, session,
}
use phenk.Api.Messages.{owns}
use phenk.Api.Identities.{owned_identity}

refuse_unless-ok :
    (b : Bool) (e : Refusal) (s : Server) (u : Unit {0}) (t : Server)
    → refuse_unless b e s ≡ (ok u, t)
    → b ≡ true
refuse_unless-ok true e s u t h = refl
refuse_unless-ok false e s u t h = absurd cc

-- What the handlers of private addresses give out is never a named inbox, and belongs to the session
-- of the caller, which has one.
pub owned_identity-IsOwned :
    (cookie : Option Bytes) (id : ℕ) (s : Server) (i : Identity) (d : Domain) (t : Server)
    → owned_identity cookie id s ≡ (ok (i, d), t)
    → (is_named i.kind ≡ false) × (owns (session cookie) i ≡ true)
unfolding owned_identity
owned_identity-IsOwned cookie id s i d t h =
    let last = λ (j : Identity) (e : Domain). done {S = Server} {E = Refusal} (j, e) in
    let rest = λ (j : Identity). query always_internal (domain_by_id j.domain_id) >>= last j in
    let guard = λ (j : Identity). λ (u : Unit {0}).
      refuse_unless {S = Server} (owns (session cookie) j) nothing_found >>= λ (v : Unit {0}).
      rest j in
    let a =
      continue-ok
        (λ (j : Identity).
          refuse_unless {S = Server} (not (is_named j.kind)) nothing_found >>= guard j)
        (query missing_is_not_found (identity_by_id id) s) (i, d) t h in
    let j = a.0 in
    let b =
      continue-ok (guard j) (refuse_unless (not (is_named j.kind)) nothing_found a.1) (i, d) t
        a.3 in
    let c =
      continue-ok (λ (v : Unit {0}). rest j)
        (refuse_unless (owns (session cookie) j) nothing_found b.1) (i, d) t b.3 in
    let e =
      continue-ok (last j) (query always_internal (domain_by_id j.domain_id) c.1) (i, d) t c.3 in
    let same : j ≡ i = ap (λ (x : Identity × Domain). x.0) (done-ok (j, e.0) (i, d) e.1 t e.3) in
    let named = refuse_unless-ok (not (is_named j.kind)) nothing_found a.1 b.0 b.1 b.2 in
    let owned = refuse_unless-ok (owns (session cookie) j) nothing_found b.1 c.0 c.1 c.2 in
    (
      ap (λ (x : Identity). is_named x.kind) (sym same) ∙ negated (is_named j.kind) named,
      ap (owns (session cookie)) (sym same) ∙ owned,
    )
  where
    negated : (x : Bool) → not x ≡ true → x ≡ false
    negated true h = absurd cc
    negated false h = refl
