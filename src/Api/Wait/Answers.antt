-- ===== src/Api/Wait/Answers.antt =====
-- internal/api/wait.go: what a wait answers, and that it ends.
use phenk.Prelude.{
  ℕ, ◌*◌, ◌^◌, ◌≤◌, ◌<◌, ◌≡◌, ◌≢◌, ◌⊎◌, inl, inr, refl, Bool, true, false, Option, none, some, [],
  ◌∷◌, arith, ◌==◌, if◌then◌else◌, if_either, is_empty, any, All,
}
use phenk.Prelude.Result.{Result, ok, err}
use phenk.Core.Identity.{Identity}
use phenk.Api.{Refusal, Server, Detector, seconds_as_duration, second}
use phenk.Api.Wait.{
  default_wait_timeout, shorter, wait_timeout, WaitEvent, hung_up, deadline, grace, poll, closed,
  notified, Ending, held, gone, refused, wrote, all_parsed, is_message_received, refreshes, Page,
  Moments, refreshed, found, page_at, settle_loop, settle, wait_loop, wait,
}

shorter-le : (a max : ℕ) → shorter a max ≤ max
shorter-le a max = ground arith

wait_timeout-le : (asked : Option ℕ) (max : ℕ) → wait_timeout asked max ≤ max
unfolding wait_timeout
wait_timeout-le none max = shorter-le default_wait_timeout max
wait_timeout-le (some n) max =
    if_either (λ (w : ℕ). w ≤ max) (n == 0) (shorter-le default_wait_timeout max)
      (shorter-le (seconds_as_duration n) max)

-- No request waits for longer than the server's maximum. One for a number of seconds that is short
-- enough to be counted in nanoseconds waits for that long, or for the maximum where that is shorter;
-- one for no seconds, or for 0, takes the default in place of its own number.
pub wait_timeout_clamped :
    (asked : Option ℕ) (n max : ℕ)
    → n * second < 2 ^ 63
    → (wait_timeout asked max ≤ max)
      × (wait_timeout (some n) max
          ≡ shorter (if n == 0 then default_wait_timeout else n * second) max)
      × (wait_timeout none max ≡ wait_timeout (some 0) max)
unfolding wait_timeout seconds_as_duration
wait_timeout_clamped asked n max b = (wait_timeout-le asked max, ground arith, refl)

abbrev pub is_deadline : WaitEvent × Server → Bool
is_deadline (deadline, s) = true
is_deadline _ = false

module _ (detector : Detector) (i : Identity) (since_seq : ℕ) where
  refreshed-ends :
      (f : Page → Ending) (r : Result Refusal Page)
      → ((p : Page) → f p ≢ held)
      → refreshed f r ≢ held
  refreshed-ends f (err e) h = λ k. cc
  refreshed-ends f (ok p) h = if_either (λ (e : Ending). e ≢ held) (all_parsed p.0) (λ k. cc) (h p)

  settle_loop-ends :
      (more : Moments) (p : Page)
      → any is_deadline more ≡ true
      → settle_loop detector i since_seq more p ≢ held
  unfolding settle_loop
  settle_loop-ends [] p d = absurd cc
  settle_loop-ends ((hung_up, s) ∷ more) p d = λ k. cc
  settle_loop-ends ((grace, s) ∷ more) p d = λ k. cc
  settle_loop-ends ((deadline, s) ∷ more) p d = λ k. cc
  settle_loop-ends ((closed, s) ∷ more) p d = λ k. cc
  settle_loop-ends ((poll, s) ∷ more) p d =
      refreshed-ends (settle_loop detector i since_seq more) (page_at detector i since_seq s)
        (λ q. settle_loop-ends more q d)
  settle_loop-ends ((notified type, s) ∷ more) p d =
      if_either (λ (e : Ending). e ≢ held) (refreshes type)
        (refreshed-ends (settle_loop detector i since_seq more) (page_at detector i since_seq s)
          (λ q. settle_loop-ends more q d))
        (settle_loop-ends more p d)

  settle-ends :
      (more : Moments) (p : Page)
      → any is_deadline more ≡ true
      → settle detector i since_seq more p ≢ held
  unfolding settle
  settle-ends more p d =
      if_either (λ (e : Ending). e ≢ held) (all_parsed p.0) (λ k. cc) (settle_loop-ends more p d)

  found-ends :
      (f : Page → Ending) (e : Ending) (r : Result Refusal Page)
      → ((p : Page) → f p ≢ held)
      → e ≢ held
      → found f e r ≢ held
  found-ends f e (err x) h g = λ k. cc
  found-ends f e (ok (ms, c)) h g = if_either (λ (x : Ending). x ≢ held) (is_empty ms) g (h (ms, c))

  wait_loop-ends :
      (more : Moments) → any is_deadline more ≡ true → wait_loop detector i since_seq more ≢ held
  unfolding wait_loop
  wait_loop-ends [] d = absurd cc
  wait_loop-ends ((hung_up, s) ∷ more) d = λ k. cc
  wait_loop-ends ((deadline, s) ∷ more) d = λ k. cc
  wait_loop-ends ((closed, s) ∷ more) d = λ k. cc
  wait_loop-ends ((grace, s) ∷ more) d = wait_loop-ends more d
  wait_loop-ends ((poll, s) ∷ more) d = wait_loop-ends more d
  wait_loop-ends ((notified type, s) ∷ more) d =
      if_either (λ (e : Ending). e ≢ held) (is_message_received type)
        (found-ends (settle detector i since_seq more) (wait_loop detector i since_seq more)
          (page_at detector i since_seq s) (λ q. settle-ends more q d) (wait_loop-ends more d))
        (wait_loop-ends more d)

  -- A wait whose deadline comes has ended by then, whatever came before it.
  pub wait-ends :
      (s : Server) (more : Moments)
      → any is_deadline more ≡ true
      → wait detector i since_seq s more ≢ held
  unfolding wait
  wait-ends s more d =
      found-ends (settle detector i since_seq more) (wait_loop detector i since_seq more)
        (page_at detector i since_seq s) (λ q. settle-ends more q d) (wait_loop-ends more d)

  -- What was read at a moment has a property.
  module _ (P : Page → Type 0) where
    abbrev pub Gives : Server → Type 0
    Gives s = (p : Page) → page_at detector i since_seq s ≡ ok p → P p

    abbrev pub GivesAt : WaitEvent × Server → Type 0
    GivesAt m = Gives m.1

    -- An answer with mail has the property; one without says that nothing came.
    abbrev pub IsAnswer : Ending → Type 0
    IsAnswer held = Unit
    IsAnswer gone = Unit
    IsAnswer (refused e) = Unit
    IsAnswer (wrote r) =
        ((r.timed_out ≡ false) × P (r.messages, r.cursor))
        ⊎ ((r.timed_out ≡ true) × (r.messages ≡ []) × (r.cursor ≡ since_seq))

    refreshed-IsAnswer :
        (f : Page → Ending) (r : Result Refusal Page)
        → ((p : Page) → r ≡ ok p → P p)
        → ((p : Page) → P p → IsAnswer (f p))
        → IsAnswer (refreshed f r)
    refreshed-IsAnswer f (err e) g h = tt
    refreshed-IsAnswer f (ok p) g h =
        if_either IsAnswer (all_parsed p.0) (inl (refl, g p refl)) (h p (g p refl))

    settle_loop-IsAnswer :
        (more : Moments) (p : Page)
        → All GivesAt more
        → P p
        → IsAnswer (settle_loop detector i since_seq more p)
    unfolding settle_loop
    settle_loop-IsAnswer [] p g h = tt
    settle_loop-IsAnswer ((hung_up, s) ∷ more) p g h = tt
    settle_loop-IsAnswer ((grace, s) ∷ more) p g h = inl (refl, h)
    settle_loop-IsAnswer ((deadline, s) ∷ more) p g h = inl (refl, h)
    settle_loop-IsAnswer ((closed, s) ∷ more) p g h = inl (refl, h)
    settle_loop-IsAnswer ((poll, s) ∷ more) p g h =
        refreshed-IsAnswer (settle_loop detector i since_seq more) (page_at detector i since_seq s)
          g.0 (λ q k. settle_loop-IsAnswer more q g.1 k)
    settle_loop-IsAnswer ((notified type, s) ∷ more) p g h =
        if_either IsAnswer (refreshes type)
          (refreshed-IsAnswer (settle_loop detector i since_seq more)
            (page_at detector i since_seq s) g.0 (λ q k. settle_loop-IsAnswer more q g.1 k))
          (settle_loop-IsAnswer more p g.1 h)

    settle-IsAnswer :
        (more : Moments) (p : Page)
        → All GivesAt more
        → P p
        → IsAnswer (settle detector i since_seq more p)
    unfolding settle
    settle-IsAnswer more p g h =
        if_either IsAnswer (all_parsed p.0) (inl (refl, h)) (settle_loop-IsAnswer more p g h)

    found-IsAnswer :
        (f : Page → Ending) (e : Ending) (r : Result Refusal Page)
        → ((p : Page) → r ≡ ok p → P p)
        → ((p : Page) → P p → IsAnswer (f p))
        → IsAnswer e
        → IsAnswer (found f e r)
    found-IsAnswer f e (err x) g h k = tt
    found-IsAnswer f e (ok (ms, c)) g h k =
        if_either IsAnswer (is_empty ms) k (h (ms, c) (g (ms, c) refl))

    wait_loop-IsAnswer :
        (more : Moments) → All GivesAt more → IsAnswer (wait_loop detector i since_seq more)
    unfolding wait_loop
    wait_loop-IsAnswer [] g = tt
    wait_loop-IsAnswer ((hung_up, s) ∷ more) g = tt
    wait_loop-IsAnswer ((deadline, s) ∷ more) g = inr (refl, refl, refl)
    wait_loop-IsAnswer ((closed, s) ∷ more) g = inr (refl, refl, refl)
    wait_loop-IsAnswer ((grace, s) ∷ more) g = wait_loop-IsAnswer more g.1
    wait_loop-IsAnswer ((poll, s) ∷ more) g = wait_loop-IsAnswer more g.1
    wait_loop-IsAnswer ((notified type, s) ∷ more) g =
        if_either IsAnswer (is_message_received type)
          (found-IsAnswer (settle detector i since_seq more) (wait_loop detector i since_seq more)
            (page_at detector i since_seq s) g.0 (λ q k. settle-IsAnswer more q g.1 k)
            (wait_loop-IsAnswer more g.1))
          (wait_loop-IsAnswer more g.1)

    -- A wait that answers gives mail as a page showed it at the start or at one of the moments it was
    -- read, so whatever holds of those pages holds of the answer; or it says that it timed out, with
    -- no messages and the caller's own cursor.
    pub wait-IsAnswer :
        (s : Server) (more : Moments)
        → Gives s
        → All GivesAt more
        → IsAnswer (wait detector i since_seq s more)
    unfolding wait
    wait-IsAnswer s more g gs =
        found-IsAnswer (settle detector i since_seq more) (wait_loop detector i since_seq more)
          (page_at detector i since_seq s) g (λ q k. settle-IsAnswer more q gs k)
          (wait_loop-IsAnswer more gs)
