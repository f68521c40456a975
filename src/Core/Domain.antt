-- ===== src/Core/Domain.antt =====
-- internal/core/domain.go. An identifier is the 128-bit number that its sixteen bytes spell, and a
-- time a number of nanoseconds; `none` is a null pointer.
use phenk.Prelude.{ℕ, Bool, true, false, Option, Bytes}

pub data Pool : Type 0 where
  random public : Pool

pub data DomainState : Type 0 where
  fresh active burned retired : DomainState

pub record Domain : Type 0 where
  pub id : ℕ
  pub name : Bytes
  pub state : DomainState
  pub pool : Pool
  pub created_at : ℕ
  pub burned_at : Option ℕ

abbrev pub is_public : Pool → Bool
is_public public = true
is_public random = false

abbrev pub eq_pool : Pool → Pool → Bool
eq_pool random random = true
eq_pool public public = true
eq_pool _ _ = false

abbrev pub is_retired : DomainState → Bool
is_retired retired = true
is_retired _ = false

abbrev pub is_active : DomainState → Bool
is_active active = true
is_active _ = false

abbrev pub is_burned : DomainState → Bool
is_burned burned = true
is_burned _ = false
