-- ===== src/Api/Messages/Access.antt =====
-- internal/api/messages.go: who may read a message.
use phenk.Prelude.{
  ℕ, ◌≡◌, ◌≢◌, ◌↔◌, ◌⊎◌, inl, inr, refl, sym, ap, ◌∙◌, Bool, true, false, not, ◌&&◌, Option, none,
  some, [], ◌∷◌, if◌then◌else◌, is_empty, Bytes, eq_bytes_iff,
}
use phenk.Prelude.Result.{Result, ok, err}
use phenk.Prelude.Run.{refuse_unless, done, ◌>>=◌}
use phenk.Core.Identity.{Identity, Kind, named_kind, random_kind}
use phenk.Core.Message.{Delivery}
use phenk.Store.Tables.{Tx, StoreError, not_found, in_tx}
use phenk.Store.Deliveries.{delivery_by_id}
use phenk.Store.Identities.{identity_by_id}
use phenk.Api.{
  Refusal, nothing_found, Server, Detector, query, always_internal, missing_is_not_found, session,
}
use phenk.Api.Messages.{
  owns, may_read, readable_message, get_message, get_raw_message, get_attachment,
}

pub query-read :
    {A : Type 0} (f : StoreError → Refusal) (m : Tx A) (a : A) (s : Server)
    → m s.db ≡ ok (a, s.db)
    → query f m s ≡ (ok a, s)
unfolding in_tx
query-read f m a s h = rw h refl

pub query-fails :
    {A : Type 0} (f : StoreError → Refusal) (m : Tx A) (e : StoreError) (s : Server)
    → m s.db ≡ err e
    → query f m s ≡ (err (f e), s)
unfolding in_tx
query-fails f m e s h = rw h refl

and-true : (a b : Bool) → (a && b) ≡ true → (a ≡ true) × (b ≡ true)
and-true true b h = (refl, h)
and-true false b h = absurd cc

guarded :
    {A : Type 0} (b c : Bool) (a : A) (s : Server)
    → ((refuse_unless {S = Server} b nothing_found >>= λ _.
          refuse_unless c nothing_found >>= λ _. done a)
        s)
      ≡ ((if b && c then ok a else err nothing_found), s)
guarded true true a s = refl
guarded true false a s = refl
guarded false c a s = refl

-- Who may read the messages of an identity: anyone where it is named, and otherwise who sends the
-- cookie that its owner was given.
abbrev pub MayRead : Option Bytes → Identity → Type 0
MayRead cookie i =
    (i.kind ≡ named_kind) ⊎ ((i.owner_session ≢ []) × (cookie ≡ some i.owner_session))

-- There is something left to read, and the caller may read it.
abbrev pub IsReadable : Option Bytes → Identity → Type 0
IsReadable cookie i = MayRead cookie i × (i.wrapped_data_key ≢ [])

not_empty_iff : (s : Bytes) → (not (is_empty s) ≡ true) ↔ (s ≢ [])
not_empty_iff [] = (λ h e. cc, λ h. absurd (h refl))
not_empty_iff (c ∷ s) = (λ h e. cc, λ h. refl)

pub owns_iff :
    (cookie : Option Bytes) (i : Identity)
    → (owns (session cookie) i ≡ true) ↔ ((i.owner_session ≢ []) × (cookie ≡ some i.owner_session))
unfolding session
owns_iff none i = (λ h. absurd cc, λ h. absurd cc)
owns_iff (some c) i = (
  λ h.
      let owner = (eq_bytes_iff i.owner_session c).0 (and-true (not (is_empty c)) _ h).1 in
      (
        λ e. (not_empty_iff c).0 (and-true (not (is_empty c)) _ h).0 (sym owner ∙ e),
        ap some (sym owner),
      ),
  λ h.
      let same : c ≡ i.owner_session = cc in
      rw
        (
          (not_empty_iff c).1 (λ e. h.0 (sym same ∙ e)),
          (eq_bytes_iff i.owner_session c).1 (sym same),
        )
        refl,
)

may_read_iff :
    (cookie : Option Bytes) (i : Identity) (k : Kind)
    → (may_read (session cookie) k i ≡ true)
      ↔ ((k ≡ named_kind) ⊎ ((i.owner_session ≢ []) × (cookie ≡ some i.owner_session)))
may_read_iff cookie i named_kind = (λ h. inl refl, λ h. refl)
may_read_iff cookie i random_kind = (
  λ h. inr ((owns_iff cookie i).0 h),
  λ h. elim h [ inl e ↦ absurd cc | inr o ↦ (owns_iff cookie i).1 o ],
)

IsReadable-iff :
    (cookie : Option Bytes) (i : Identity)
    → ((may_read (session cookie) i.kind i && not (is_empty i.wrapped_data_key)) ≡ true)
      ↔ IsReadable cookie i
IsReadable-iff cookie i = (
  λ h.
      let b = and-true (may_read (session cookie) i.kind i) _ h in
      ((may_read_iff cookie i i.kind).0 b.0, (not_empty_iff i.wrapped_data_key).0 b.1),
  λ h. rw ((may_read_iff cookie i i.kind).1 h.0, (not_empty_iff i.wrapped_data_key).1 h.1) refl,
)

-- A test that decides a property, and two replies that differ.
decided :
    {A : Type 0} (b : Bool) (P : Type 0) (a : A) (s : Server) (r : Result Refusal A × Server)
    → r ≡ ((if b then ok a else err nothing_found), s)
    → (b ≡ true) ↔ P
    → ((r ≡ (ok a, s)) ↔ P) × ((r ≡ (err nothing_found, s)) ↔ ¬ P)
decided true P a s r e d =
    ((λ h. d.0 refl, λ p. e), (λ h p. let k = sym e ∙ h in cc, λ n. absurd (n (d.0 refl))))
decided false P a s r e d = (
  (λ h. let k = sym e ∙ h in absurd cc, λ p. let k = d.1 p in absurd cc),
  (λ h p. let k = d.1 p in cc, λ n. e),
)

readable_message-tested :
    (cookie : Option Bytes) (id : ℕ) (d : Delivery) (i : Identity) (s : Server)
    → delivery_by_id id s.db ≡ ok (d, s.db)
    → identity_by_id d.identity_id s.db ≡ ok (i, s.db)
    → readable_message cookie id s ≡ (
      (if may_read (session cookie) i.kind i && not (is_empty i.wrapped_data_key)
          then ok (d, i)
          else err nothing_found),
      s,
    )
unfolding readable_message
readable_message-tested cookie id d i s e g =
    rw (query-read missing_is_not_found (delivery_by_id id) d s e) (
      rw (query-read always_internal (identity_by_id d.identity_id) i s g)
        (guarded (may_read (session cookie) i.kind i) (not (is_empty i.wrapped_data_key)) (d, i) s))

-- A message whose rows are there is given out exactly when its identity still has its key, and is
-- named or has an owner whose cookie the caller sends; in every other case, and in no other, the reply
-- is that there is no such thing. In no case does anything change.
pub readable_message_exact :
    (cookie : Option Bytes) (id : ℕ) (d : Delivery) (i : Identity) (s : Server)
    → delivery_by_id id s.db ≡ ok (d, s.db)
    → identity_by_id d.identity_id s.db ≡ ok (i, s.db)
    → ((readable_message cookie id s ≡ (ok (d, i), s)) ↔ IsReadable cookie i)
      × ((readable_message cookie id s ≡ (err nothing_found, s)) ↔ ¬ IsReadable cookie i)
readable_message_exact cookie id d i s e g =
    decided (may_read (session cookie) i.kind i && not (is_empty i.wrapped_data_key))
      (IsReadable cookie i) (d, i) s (readable_message cookie id s)
      (readable_message-tested cookie id d i s e g) (IsReadable-iff cookie i)

missing_is_hidden :
    (cookie : Option Bytes) (missing : ℕ) (s : Server)
    → delivery_by_id missing s.db ≡ err not_found
    → readable_message cookie missing s ≡ (err nothing_found, s)
unfolding readable_message
missing_is_hidden cookie missing s m =
    rw (query-fails missing_is_not_found (delivery_by_id missing) not_found s m) refl

-- To a caller who does not send the cookie of a message's owner where its identity is not named, and
-- of a message whose identity has lost its key, all three requests for a message, for the message, its
-- raw text and an attachment, are answered as for a message that does not exist, with the same state.
pub forbidden_message_hides :
    (detector : Detector) (cookie : Option Bytes) (id missing attachment_id : ℕ) (d : Delivery)
    (i : Identity) (s : Server)
    → delivery_by_id id s.db ≡ ok (d, s.db)
    → identity_by_id d.identity_id s.db ≡ ok (i, s.db)
    → delivery_by_id missing s.db ≡ err not_found
    → ¬ IsReadable cookie i
    → (get_message detector cookie id s ≡ get_message detector cookie missing s)
      × (get_raw_message cookie id s ≡ get_raw_message cookie missing s)
      × (get_attachment cookie id attachment_id s ≡ get_attachment cookie missing attachment_id s)
unfolding get_message get_raw_message get_attachment
forbidden_message_hides detector cookie id missing attachment_id d i s e g m n =
    let hidden = (readable_message_exact cookie id d i s e g).1.1 n in
    let absent = missing_is_hidden cookie missing s m in
    (rw (hidden, absent) refl, rw (hidden, absent) refl, rw (hidden, absent) refl)
