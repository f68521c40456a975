-- ===== src/Events/Soundness.antt =====
-- internal/events/hub.go: what the hub keeps to, call by call.
use phenk.Prelude.{
  ℕ, ◌+◌, ◌≤◌, ◌<◌, ◌≡◌, ◌≢◌, inl, inr, refl, sym, ap, ◌∙◌, Bool, true, false, not, ◌&&◌, ◌||◌,
  Option, none, some, List, [], ◌∷◌, arith, ltb, leb, ◌==◌, if◌then◌else◌, ltb→lt, ==_iff,
  if_either, Bool-cases, length, drop, length-append, any, length-drop,
}
use mathlib.Core.Path.{subst}
use phenk.Prelude.Keys.{nat_key}
use phenk.Prelude.Assoc.{Assoc, lookup, insert, lookup-insert, lookup-remove}
use phenk.Events.{
  Notification, Subscription, Hub, group_or_empty, group, subscribe, without, leave_group, leave,
  end_subscription, buffered, subscriber_buffer, send_to, taken,
}

-- The subscription is of this identity, neither ended nor closed.
abbrev pub live_for : ℕ → Option Subscription → Bool
live_for identity none = false
live_for identity (some s) = not s.is_closed && (not s.once_done && s.identity == identity)

abbrev pub live : Hub → ℕ → ℕ → Bool
live h identity id = live_for identity (lookup id h.subscriptions)

-- A channel is closed only by the end of its subscription, and holds no more than its buffer.
abbrev pub fits : Option Subscription → Bool
fits none = true
fits (some s) = (s.once_done || not s.is_closed) && leb (length s.buffer) subscriber_buffer

abbrev pub member : ℕ → List ℕ → Bool
member id = any (λ (j : ℕ). j == id)

abbrev pub IsFresh : ℕ → Option Subscription → Type 0
IsFresh n o = o ≡ none

pub record IsSound (h : Hub) : Type 0 where
  pub grouped : (identity id : ℕ) → member id (group h identity) ≡ true → live h identity id ≡ true
  pub fitting : (id : ℕ) → fits (lookup id h.subscriptions) ≡ true
  pub fresh : (id : ℕ) → h.next_id < id → lookup id h.subscriptions ≡ none

-- What a call returns when it does not panic.
abbrev pub Succeeds : Option Hub → Type 0
Succeeds o = (h : Hub) × (o ≡ some h) × IsSound h

-- What holds of a map after an insertion, split by the key.
pub at_insert :
    {V : Type 0} (P : Option V → Type 0) (k j : ℕ) (v : V) (m : Assoc ℕ V)
    → (k ≡ j → P (some v))
    → ((k == j) ≡ false → P (lookup j m))
    → P (lookup j (insert k v m))
at_insert P k j v m f g =
    subst P (sym (lookup-insert k j v m))
      (elim (Bool-cases (k == j)) [ inl e ↦ rw e (f ((==_iff k j).0 e)) | inr e ↦ rw e (g e) ])

module _ (h : Hub) (sound : IsSound h) where
  not_grouped :
      (identity id : ℕ) → lookup id h.subscriptions ≡ none → member id (group h identity) ≡ false
  not_grouped identity id e = elim (Bool-cases (member id (group h identity))) [
    | inl m ↦ let k : false ≡ true = rw e at (sound.grouped identity id m) in absurd cc
    | inr m ↦ m
  ]

  at_key :
      (id j : ℕ) (s : Subscription)
      → id ≡ j
      → lookup id h.subscriptions ≡ some s
      → lookup j h.subscriptions ≡ some s
  at_key id j s k e = ap (λ (n : ℕ). lookup n h.subscriptions) (sym k) ∙ e

  still_fits :
      (b : Bool) (m n : ℕ)
      → (b && leb m subscriber_buffer) ≡ true
      → n ≤ subscriber_buffer
      → (b && leb n subscriber_buffer) ≡ true
  still_fits b m n e l = ground arith

  pub subscribe-IsSound : (identity : ℕ) → IsSound (subscribe h identity).1
  unfolding subscribe group
  subscribe-IsSound identity = record {
    grouped = λ other id.
        at_insert
          (λ o. member id (group_or_empty o) ≡ true → live (subscribe h identity).1 other id ≡ true)
          identity other ((h.next_id + 1) ∷ group h identity) h.subs
          (λ same m.
            at_insert (λ o. live_for other o ≡ true) (h.next_id + 1) id _ h.subscriptions
              (λ e. ground (arith, same))
              (λ e. sound.grouped other id (ground (arith, m, e, same))))
          (λ differ m.
            at_insert (λ o. live_for other o ≡ true) (h.next_id + 1) id _ h.subscriptions
              (λ e.
                let n : member id (group h other) ≡ false =
                  not_grouped other id (sound.fresh id (omega arith)) in
                absurd cc)
              (λ e. sound.grouped other id m));
    fitting = λ id.
        at_insert (λ o. fits o ≡ true) (h.next_id + 1) id _ h.subscriptions (λ e. refl)
          (λ e. sound.fitting id);
    fresh = λ id l.
        at_insert (λ o. o ≡ none) (h.next_id + 1) id _ h.subscriptions (λ e. absurd (omega arith))
          (λ e. sound.fresh id (omega arith));
  }

  -- Another subscription in place of one that is there, still live for the same identity.
  replaced-IsSound :
      (id : ℕ) (s t : Subscription)
      → lookup id h.subscriptions ≡ some s
      → (t.identity ≡ s.identity) × (t.is_closed ≡ s.is_closed) × (t.once_done ≡ s.once_done)
      → length t.buffer ≤ subscriber_buffer
      → IsSound (record h { subscriptions = insert id t h.subscriptions })
  unfolding group
  replaced-IsSound id s t e same b = record {
    grouped = λ other j m.
        at_insert (λ o. live_for other o ≡ true) id j t h.subscriptions
          (λ k.
            rw (same.0, same.1, same.2)
              (subst (λ o. live_for other o ≡ true) (at_key id j s k e) (sound.grouped other j m)))
          (λ k. sound.grouped other j m);
    fitting = λ j.
        at_insert (λ o. fits o ≡ true) id j t h.subscriptions
          (λ k.
            let f : fits (some s) ≡ true =
              subst (λ o. fits o ≡ true) (at_key id j s k e) (sound.fitting j) in
            rw (same.1, same.2)
              (still_fits (s.once_done || not s.is_closed) (length s.buffer) (length t.buffer) f b))
          (λ k. sound.fitting j);
    fresh = λ j l.
        at_insert (λ o. o ≡ none) id j t h.subscriptions
          (λ k. let n : none ≡ some s = sym (sound.fresh j l) ∙ at_key id j s k e in absurd cc)
          (λ k. sound.fresh j l);
  }

  buffered-fits :
      (n : Notification) (s : Subscription)
      → length s.buffer ≤ subscriber_buffer
      → length (buffered n s).buffer ≤ subscriber_buffer
  buffered-fits n s b = elim (Bool-cases (ltb (length s.buffer) subscriber_buffer)) [
    | inl e ↦ rw e (
        omega
          (arith, length-append s.buffer (n ∷ []), ltb→lt (length s.buffer) subscriber_buffer e))
    | inr e ↦ rw e b
  ]

  buffered-same :
      (n : Notification) (s : Subscription)
      → ((buffered n s).identity ≡ s.identity)
        × ((buffered n s).is_closed ≡ s.is_closed)
        × ((buffered n s).once_done ≡ s.once_done)
  buffered-same n s =
      if_either
        (λ (t : Subscription).
          (t.identity ≡ s.identity) × (t.is_closed ≡ s.is_closed) × (t.once_done ≡ s.once_done))
        (ltb (length s.buffer) subscriber_buffer) (refl, refl, refl) (refl, refl, refl)

  fits_within : (s : Subscription) → fits (some s) ≡ true → length s.buffer ≤ subscriber_buffer
  fits_within s f = ground (arith, f)

  pub taken-IsSound :
      (id : ℕ) (o : Option Subscription) → lookup id h.subscriptions ≡ o → IsSound (taken o h id)
  taken-IsSound id none e = sound
  taken-IsSound id (some s) e =
      replaced-IsSound id s (record s { buffer = drop 1 s.buffer }) e (refl, refl, refl)
        (omega (
          arith,
          length-drop 1 s.buffer,
          fits_within s (subst (λ o. fits o ≡ true) e (sound.fitting id)),
        ))

  pub send_to-Succeeds :
      (n : Notification) (identity id : ℕ) (o : Option Subscription)
      → lookup id h.subscriptions ≡ o
      → live_for identity o ≡ true
      → (g : Hub) × (send_to h n id o ≡ some g)
        × IsSound g
        × ((j : ℕ) → live h identity j ≡ true → live g identity j ≡ true)
  send_to-Succeeds n identity id none e l = absurd cc
  send_to-Succeeds n identity id (some s) e l =
      let same = buffered-same n s in
      let is_open : s.is_closed ≡ false = ground (arith, l) in
      (
        record h { subscriptions = insert id (buffered n s) h.subscriptions },
        rw is_open refl,
        replaced-IsSound id s (buffered n s) e same
            (buffered-fits n s (fits_within s (subst (λ o. fits o ≡ true) e (sound.fitting id)))),
        λ j k.
            at_insert (λ o. live_for identity o ≡ true) id j (buffered n s) h.subscriptions
              (λ _. rw (same.0, same.1, same.2) l) (λ _. k),
      )

  -- What the end of a subscription leaves of the groups.
  leave_group-lookup :
      (identity other : ℕ) (ids : List ℕ)
      → group_or_empty (lookup other (leave_group identity ids h.subs))
        ≡ (if identity == other then ids else group h other)
  unfolding group
  leave_group-lookup identity other [] = ground (arith, lookup-remove identity other h.subs)
  leave_group-lookup identity other (id ∷ ids) =
      ground (arith, lookup-insert identity other (id ∷ ids) h.subs)

  without-lacks : (id : ℕ) (ids : List ℕ) → member id (without id ids) ≡ false
  without-lacks id [] = refl
  without-lacks id (j ∷ ids) = ground (arith, without-lacks id ids)

  without-keeps : (id j : ℕ) (ids : List ℕ) → member j (without id ids) ≡ true → member j ids ≡ true
  without-keeps id j [] m = m
  without-keeps id j (k ∷ ids) m = ground (arith, without-keeps id j ids)

  left_members :
      (identity id other j : ℕ) (ids : List ℕ)
      → lookup identity h.subs ≡ some ids
      → member j (if identity == other then without id ids else group h other) ≡ true
      → (b : Bool) → (identity == other) ≡ b
      → (member j (group h other) ≡ true) × ((identity ≡ other) → j ≢ id)
  unfolding group
  left_members identity id other j ids e c true q =
      let same = (==_iff identity other).0 q in
      let k : member j (without id ids) ≡ true = rw q at c in
      (
        subst (λ (o : Option (List ℕ)). member j (group_or_empty o) ≡ true)
            (sym (ap (λ (n : ℕ). lookup n h.subs) (sym same) ∙ e)) (without-keeps id j ids k),
        λ _ d.
            let f : false ≡ true =
              sym (without-lacks id ids)
              ∙ subst (λ (n : ℕ). member n (without id ids) ≡ true) d k in
            absurd cc,
      )
  left_members identity id other j ids e c false q =
      (rw q at c, λ same. absurd (ground (arith, q, same)))

  -- Who is left in a group was in it, and is not the one who has left.
  leave-members :
      (identity id other j : ℕ) (o : Option (List ℕ))
      → lookup identity h.subs ≡ o
      → member j (group_or_empty (lookup other (leave identity id h.subs o))) ≡ true
      → (member j (group h other) ≡ true) × ((identity ≡ other) → j ≢ id)
  unfolding group
  leave-members identity id other j none e m = (
    m,
    λ k.
        let f : false ≡ true =
          subst (λ (o : Option (List ℕ)). member j (group_or_empty o) ≡ true)
            (ap (λ (n : ℕ). lookup n h.subs) (sym k) ∙ e) m in
        absurd cc,
  )
  leave-members identity id other j (some ids) e m =
      let c : member j (if identity == other then without id ids else group h other) ≡ true =
        subst (λ (l : List ℕ). member j l ≡ true)
          (leave_group-lookup identity other (without id ids)) m in
      left_members identity id other j ids e c (identity == other) refl

  ended-IsSound :
      (id : ℕ) (s : Subscription)
      → lookup id h.subscriptions ≡ some s
      → IsSound (record h {
        subs = leave s.identity id h.subs (lookup s.identity h.subs);
        subscriptions = insert id (record s { is_closed = true; once_done = true }) h.subscriptions;
      })
  unfolding group
  ended-IsSound id s e = record {
    grouped = λ other j m.
        let left = leave-members s.identity id other j (lookup s.identity h.subs) refl m in
        at_insert (λ o. live_for other o ≡ true) id j _ h.subscriptions
          (λ k.
            let l : live_for other (some s) ≡ true =
              subst (λ o. live_for other o ≡ true) (at_key id j s k e)
                (sound.grouped other j left.0) in
            absurd (left.1 (ground (arith, l)) (sym k)))
          (λ k. sound.grouped other j left.0);
    fitting = λ j.
        at_insert (λ o. fits o ≡ true) id j _ h.subscriptions
          (λ k. ground (arith, fits_within s (subst (λ o. fits o ≡ true) e (sound.fitting id))))
          (λ k. sound.fitting j);
    fresh = λ j l.
        at_insert (λ o. o ≡ none) id j _ h.subscriptions
          (λ k. let n : none ≡ some s = sym (sound.fresh j l) ∙ at_key id j s k e in absurd cc)
          (λ k. sound.fresh j l);
  }

  pub end_subscription-Succeeds :
      (id : ℕ) (o : Option Subscription)
      → lookup id h.subscriptions ≡ o
      → Succeeds (end_subscription h id o)
  end_subscription-Succeeds id none e = (h, refl, sound)
  end_subscription-Succeeds id (some s) e = elim (Bool-cases s.once_done) [
    | inl d ↦ (h, rw d refl, sound)
    | inr d ↦
        let f : fits (some s) ≡ true = subst (λ o. fits o ≡ true) e (sound.fitting id) in
        let is_open : s.is_closed ≡ false = ground (arith, f, d) in
        (
          record h {
            subs = leave s.identity id h.subs (lookup s.identity h.subs);
            subscriptions =
                insert id (record s { is_closed = true; once_done = true }) h.subscriptions;
          },
          rw (d, is_open) refl,
          ended-IsSound id s e,
        )
  ]
