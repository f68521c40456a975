-- ===== src/Worker/Parse/Auth.antt =====
-- internal/worker/parse/auth.go: the results of DKIM and DMARC. The package that verifies signatures
-- and strings.ToLower are parameters.
pub mod Alignment
use phenk.Prelude.{
  ◌≡◌, ◌↔◌, refl, ap, ◌∙◌, Bool, true, false, not, ◌&&◌, ◌||◌, Option, none, some, List, [], ◌∷◌,
  ◌++◌, arith, ◌==◌, if◌then◌else◌, is_empty, any, Bytes, codes, eq_bytes,
}
use phenk.Strings.{trim_space, has_suffix}
use phenk.Core.Message.{
  AuthResult, auth_none, auth_soft_fail, auth_neutral, auth_pass, auth_fail, auth_temp_error,
  auth_perm_error,
}

-- A signature's domain, and its error when it has one: whether it is a temporary failure.
pub record Verification : Type 0 where
  pub domain : Bytes
  pub failure : Option Bool

-- What dkim.Verify returns: nothing to read, an error, or its verifications.
pub data Verified : Type 0 where
  end_of_file : Verified
  not_verified : Bytes → Verified
  verified : List Verification → Verified

abbrev pub is_pass : AuthResult → Bool
is_pass auth_pass = true
is_pass _ = false

abbrev pub is_none : AuthResult → Bool
is_none auth_none = true
is_none _ = false

abbrev pub after_failure : Bool → AuthResult → AuthResult
after_failure temporary result =
    if temporary && not (is_pass result) then auth_temp_error else result

abbrev pub verified_step :
    Verification → Option Bool → AuthResult × List Bytes → AuthResult × List Bytes
verified_step v none (result, domains) = (auth_pass, domains ++ (v.domain ∷ []))
verified_step v (some temporary) (result, domains) = (after_failure temporary result, domains)

-- The loop of `verifyDKIM`
unfoldable pub verify_all : List Verification → AuthResult × List Bytes → AuthResult × List Bytes
verify_all [] r = r
verify_all (v ∷ vs) r = verify_all vs (verified_step v v.failure r)

-- verifyDKIM
unfoldable pub verify_dkim : Verified → AuthResult × List Bytes
unfolding verify_all
verify_dkim end_of_file = (auth_none, [])
verify_dkim (not_verified message) = (auth_perm_error, (codes "dkim: " ++ message) ∷ [])
verify_dkim (verified []) = (auth_none, [])
verify_dkim (verified (v ∷ vs)) = verify_all (v ∷ vs) (auth_fail, [])

-- What stands behind the last `@`.
abbrev pub behind_last : Bytes → Option Bytes
behind_last [] = none
behind_last (c ∷ s) = elim (behind_last s) [
  | some r ↦ some r
  | none ↦ if c == b'@' then some s else none
]

-- aligned
unfoldable pub aligned : Bytes → Bytes → Bool
aligned from_domain identifier =
    if is_empty identifier
    then false
    else eq_bytes from_domain identifier
      || (has_suffix from_domain (b'.' ∷ identifier) || has_suffix identifier (b'.' ∷ from_domain))

module _ (lower : Bytes → Bytes) where
  abbrev pub domain_or_empty : Option Bytes → Bytes
  domain_or_empty none = []
  domain_or_empty (some r) = if is_empty r then [] else lower (trim_space r)

  -- domainOf
  unfoldable pub domain_of : Bytes → Bytes
  domain_of address = domain_or_empty (behind_last address)

  abbrev pub aligns_with_any : Bytes → List Bytes → Bool
  aligns_with_any from_domain = any (λ (d : Bytes). aligned from_domain (lower d))

  -- deriveDMARC
  unfoldable pub derive_dmarc : Bytes → AuthResult → Bytes → AuthResult → List Bytes → AuthResult
  unfolding domain_of aligned
  derive_dmarc from_addr spf envelope_from dkim dkim_domains =
      let from_domain = domain_of from_addr in
      if is_empty from_domain
      then auth_none
      else if is_pass dkim && aligns_with_any from_domain dkim_domains
      then auth_pass
      else if is_pass spf && aligned from_domain (domain_of envelope_from)
      then auth_pass
      else if is_none spf && is_none dkim
      then auth_none
      else auth_fail

abbrev pub is_valid : Verification → Bool
is_valid v = elim v.failure [ none ↦ true | some t ↦ false ]

after_failure-pass : (t : Bool) (r : AuthResult) → is_pass (after_failure t r) ≡ is_pass r
after_failure-pass false r = refl
after_failure-pass true auth_none = refl
after_failure-pass true auth_pass = refl
after_failure-pass true auth_fail = refl
after_failure-pass true auth_soft_fail = refl
after_failure-pass true auth_neutral = refl
after_failure-pass true auth_temp_error = refl
after_failure-pass true auth_perm_error = refl

abbrev pub succeeds : Option Bool → Bool
succeeds none = true
succeeds (some temporary) = false

-- Whether some signature has no error.
abbrev pub some_succeeds : List Verification → Bool
some_succeeds = any (λ (v : Verification). succeeds v.failure)

verified_step-pass :
    (v : Verification) (o : Option Bool) (r : AuthResult × List Bytes)
    → is_pass (verified_step v o r).0 ≡ (succeeds o || is_pass r.0)
verified_step-pass v none r = refl
verified_step-pass v (some t) r = after_failure-pass t r.0

or_assoc : (a b c : Bool) → (b || (a || c)) ≡ ((if a then true else b) || c)
or_assoc a b c = ground arith

verify_all-pass :
    (vs : List Verification) (r : AuthResult × List Bytes)
    → is_pass (verify_all vs r).0 ≡ (some_succeeds vs || is_pass r.0)
unfolding verify_all
verify_all-pass [] r = refl
verify_all-pass (v ∷ vs) r =
    verify_all-pass vs (verified_step v v.failure r)
    ∙ (ap (λ (b : Bool). some_succeeds vs || b) (verified_step-pass v v.failure r)
        ∙ or_assoc (succeeds v.failure) (some_succeeds vs) (is_pass r.0))

or_false : (b : Bool) → (b || false) ≡ b
or_false true = refl
or_false false = refl

-- DKIM passes exactly when some signature is valid, whatever becomes of the others.
pub verify_dkim-passes :
    (vs : List Verification) → is_pass (verify_dkim (verified vs)).0 ≡ some_succeeds vs
unfolding verify_dkim
verify_dkim-passes [] = refl
verify_dkim-passes (v ∷ vs) =
    verify_all-pass (v ∷ vs) (auth_fail, []) ∙ or_false (some_succeeds (v ∷ vs))
