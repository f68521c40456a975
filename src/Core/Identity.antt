-- ===== src/Core/Identity.antt =====
-- internal/core/identity.go: an address and all that governs its life.
use phenk.Prelude.{ℕ, ◌+◌, ◌*◌, ◌^◌, Bool, true, false, not, ◌||◌, Option, ltb, Bytes}
use phenk.Core.Domain.{Pool, random, public}

pub data Kind : Type 0 where
  random_kind named_kind : Kind

-- Kind.Pool
unfoldable pub pool_of : Kind → Pool
pool_of named_kind = public
pool_of random_kind = random

abbrev pub is_named : Kind → Bool
is_named named_kind = true
is_named random_kind = false

pub data IdentityState : Type 0 where
  active expiring expired purged reserved : IdentityState

abbrev pub eq_state : IdentityState → IdentityState → Bool
eq_state active active = true
eq_state expiring expiring = true
eq_state expired expired = true
eq_state purged purged = true
eq_state reserved reserved = true
eq_state _ _ = false

-- IdentityState.AcceptsMail
unfoldable pub accepts_mail : IdentityState → Bool
accepts_mail s = eq_state s active || eq_state s expiring

abbrev pub default_random_quota_messages : ℕ
default_random_quota_messages = 200

abbrev pub default_random_quota_bytes : ℕ
default_random_quota_bytes = 100 * 2 ^ 20

abbrev pub default_named_quota_messages : ℕ
default_named_quota_messages = 50

abbrev pub default_named_quota_bytes : ℕ
default_named_quota_bytes = 25 * 2 ^ 20

abbrev pub default_named_retention_hours : ℕ
default_named_retention_hours = 168

pub record Identity : Type 0 where
  pub id : ℕ
  pub local_part : Bytes
  pub domain_id : ℕ
  pub kind : Kind
  pub state : IdentityState
  pub owner_session : Bytes
  pub wrapped_data_key : Bytes
  pub retention_hours : Option ℕ
  pub delivery_seq : ℕ
  pub quota_messages : ℕ
  pub quota_bytes : ℕ
  pub used_messages : ℕ
  pub used_bytes : ℕ
  pub created_at : ℕ
  pub expires_at : Option ℕ
  pub purged_at : Option ℕ
  pub reserved_until : Option ℕ

-- Identity.QuotaExceeded
unfoldable pub quota_exceeded : Identity → ℕ → Bool
quota_exceeded i size =
    ltb i.quota_messages (i.used_messages + 1) || ltb i.quota_bytes (i.used_bytes + size)

-- Identity.EligibleForScopedAccess
unfoldable pub eligible_for_scoped_access : Identity → Bool
eligible_for_scoped_access i = not (is_named i.kind)
