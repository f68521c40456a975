-- ===== src/Api/Stream/Order.antt =====
-- internal/api/stream.go: the order of the messages that a stream sends.
use phenk.Prelude.{
  ℕ, ◌<◌, ◌≡◌, refl, sym, ap, ◌∙◌, List, [], ◌∷◌, ◌++◌, map, arith, if_either, keep, take, All,
  All-take,
}
use mathlib.Core.Path.{subst}
use mathlib.Core.Bool.{Bool-set}
use mathlib.Core.List.{Pairwise}
use phenk.Prelude.Result.{Result, ok, err}
use phenk.Core.Identity.{Identity}
use phenk.Core.Message.{Delivery, EventType, message_received}
use phenk.Store.Tables.{Db}
use phenk.Store.Deliveries.{after_cursor, deliveries_since}
use phenk.Extract.{sort_stably}
use phenk.Extract.Sorting.{
  sort_stably-IsOrdered, All-sort_stably, Pairwise-take, IsOrdered, All-of_mem,
}
use phenk.Extract.Distinct.{IsDistinct, first_sorted-IsDistinct}
use phenk.Api.{Refusal, Server, Detector}
use phenk.Api.Messages.{MessageSummary, last_seq, message_page, default_page_size}
use phenk.Api.Messages.Pages.{message_page-shows}
use phenk.Api.Messages.Numbers.{
  is_earlier, is_earlier-WeakOrder, order_by-sort_stably, HasUniqueNumbers, behind-IsDistinct,
}
use phenk.Api.Wait.{Page, refreshes}
use phenk.Api.Stream.{
  Frame, keepalive, message_frame, cursor_frame, StreamEvent, disconnects, closes, beats, notifies,
  StreamMoments, message_frames, is_message_parsed, told, caught_up, page_behind, stream_loop,
  stream,
}

-- The numbers of the messages among the frames.
abbrev pub numbers : List Frame → List ℕ
numbers [] = []
numbers (message_frame type m ∷ rest) = m.seq ∷ numbers rest
numbers (keepalive ∷ rest) = numbers rest
numbers (cursor_frame type c ∷ rest) = numbers rest

-- Each number is higher than the one before it, and the first higher than the start.
abbrev pub AscendsFrom : ℕ → List ℕ → Type 0
AscendsFrom c [] = Unit
AscendsFrom c (n ∷ ns) = (c < n) × AscendsFrom n ns

abbrev last_of : ℕ → List ℕ → ℕ
last_of c [] = c
last_of c (n ∷ ns) = last_of n ns

AscendsFrom-append :
    (c : ℕ) (xs ys : List ℕ)
    → AscendsFrom c xs
    → AscendsFrom (last_of c xs) ys
    → AscendsFrom c (xs ++ ys)
AscendsFrom-append c [] ys h k = k
AscendsFrom-append c (x ∷ xs) ys h k = (h.0, AscendsFrom-append x xs ys h.1 k)

numbers-append :
    (type : EventType) (ms : List MessageSummary) (rest : List Frame)
    → numbers (message_frames type ms ++ rest)
      ≡ map (λ (m : MessageSummary). m.seq) ms ++ numbers rest
numbers-append type [] rest = refl
numbers-append type (m ∷ ms) rest = ap (λ (ns : List ℕ). m.seq ∷ ns) (numbers-append type ms rest)

after-All :
    (id cursor : ℕ) (l : List Delivery)
    → All (λ (d : Delivery). cursor < d.seq) (keep (after_cursor id cursor) l)
after-All id cursor [] = tt
after-All id cursor (d ∷ l) = ground (arith, after-All id cursor l)

-- An ascending list without repetitions, above a number.
sorted-Ascends :
    (c : ℕ) (ds : List Delivery)
    → IsOrdered is_earlier ds
    → IsDistinct (λ (d : Delivery). d.seq) ds
    → All (λ (d : Delivery). c < d.seq) ds
    → AscendsFrom c (map (λ (d : Delivery). d.seq) ds)
sorted-Ascends c [] o u a = tt
sorted-Ascends c (d ∷ ds) (Pairwise.cons low o) (Pairwise.cons apart u) a = (
  a.0,
  sorted-Ascends d.seq ds o u
      (All-of_mem (λ (e : Delivery). d.seq < e.seq) ds (λ e m. ground (arith, low e m, apart e m))),
)

page-Ascends :
    (i : Identity) (cursor size : ℕ) (db : Db)
    → HasUniqueNumbers i db
    → AscendsFrom cursor (map (λ (d : Delivery). d.seq) (deliveries_since i.id cursor size db))
unfolding deliveries_since
page-Ascends i cursor size db u =
    let found = keep (after_cursor i.id cursor) db.deliveries in
    let unique = behind-IsDistinct i cursor db u in
    rw (order_by-sort_stably found) (
      sorted-Ascends cursor (take size (sort_stably is_earlier found))
        (Pairwise-take size (sort_stably is_earlier found) (λ _ _. Bool-set _ _)
          (sort_stably-IsOrdered is_earlier is_earlier-WeakOrder found))
        (first_sorted-IsDistinct (λ (d : Delivery). d.seq) is_earlier size found unique)
        (All-take (λ (d : Delivery). cursor < d.seq) size (sort_stably is_earlier found)
          (All-sort_stably is_earlier (λ (d : Delivery). cursor < d.seq) found
            (after-All i.id cursor db.deliveries))))

frames-Ascend :
    (type : EventType) (ms : List MessageSummary) (c next : ℕ) (rest : List Frame)
    → AscendsFrom c (map (λ (m : MessageSummary). m.seq) ms)
    → next ≡ last_of c (map (λ (m : MessageSummary). m.seq) ms)
    → AscendsFrom next (numbers rest)
    → AscendsFrom c (numbers (message_frames type ms ++ rest))
frames-Ascend type ms c next rest a e k = rw (numbers-append type ms rest) (
    AscendsFrom-append c (map (λ (m : MessageSummary). m.seq) ms) (numbers rest) a
      (subst (λ n. AscendsFrom n (numbers rest)) e k))

module _ (detector : Detector) (i : Identity) where
  last_seq-last_of :
      (c : ℕ) (ds : List Delivery)
      → last_seq detector c ds ≡ last_of c (map (λ (d : Delivery). d.seq) ds)
  last_seq-last_of c [] = refl
  last_seq-last_of c (d ∷ ds) = last_seq-last_of d.seq ds

  -- A page goes on from the cursor, and its own cursor is the number it ends with.
  abbrev GoesOn : ℕ → Page → Type 0
  GoesOn cursor p =
      AscendsFrom cursor (map (λ (m : MessageSummary). m.seq) p.0)
      × (p.1 ≡ last_of cursor (map (λ (m : MessageSummary). m.seq) p.0))

  page_behind-GoesOn :
      (cursor : ℕ) (s : Server) (p : Page)
      → HasUniqueNumbers i s.db
      → page_behind detector i cursor s ≡ ok p
      → GoesOn cursor p
  page_behind-GoesOn cursor s p u e =
      let t = (message_page detector i cursor default_page_size s).1 in
      let r =
        message_page-shows detector (λ m. m.seq) (λ d. d.seq) (λ d. refl) (λ d q found n. refl) i
          cursor default_page_size s p.0 p.1 t (ap (λ (x : Result Refusal Page). (x, t)) e) in
      let page = deliveries_since i.id cursor default_page_size s.db in
      (
        subst (AscendsFrom cursor) (sym r.0) (page-Ascends i cursor default_page_size s.db u),
        r.1 ∙ (last_seq-last_of cursor page ∙ ap (last_of cursor) (sym r.0)),
      )

  told-Ascends :
      (type : EventType) (more : ℕ → List Frame) (cursor : ℕ) (r : Result Refusal Page)
      → ((p : Page) → r ≡ ok p → GoesOn cursor p)
      → ((c : ℕ) → AscendsFrom c (numbers (more c)))
      → AscendsFrom cursor (numbers (told type more cursor r))
  told-Ascends type more cursor (err e) h k = tt
  told-Ascends type more cursor (ok ([], c)) h k =
      if_either (λ l. AscendsFrom cursor (numbers l)) (is_message_parsed type) (k cursor) (k cursor)
  told-Ascends type more cursor (ok (m ∷ ms, c)) h k =
      let g = h (m ∷ ms, c) refl in frames-Ascend type (m ∷ ms) cursor c (more c) g.0 g.1 (k c)

  caught_up-Ascends :
      (more : ℕ → List Frame) (cursor : ℕ) (r : Result Refusal Page)
      → ((p : Page) → r ≡ ok p → GoesOn cursor p)
      → ((c : ℕ) → AscendsFrom c (numbers (more c)))
      → AscendsFrom cursor (numbers (caught_up more cursor r))
  caught_up-Ascends more cursor (err e) h k = k cursor
  caught_up-Ascends more cursor (ok (ms, c)) h k =
      let g = h (ms, c) refl in frames-Ascend message_received ms cursor c (more c) g.0 g.1 (k c)

  abbrev pub IsNumbered : StreamEvent × Server → Type 0
  IsNumbered m = HasUniqueNumbers i m.1.db

  stream_loop-Ascends :
      (more : StreamMoments) (cursor : ℕ)
      → All IsNumbered more
      → AscendsFrom cursor (numbers (stream_loop detector i more cursor))
  unfolding stream_loop
  stream_loop-Ascends [] cursor u = tt
  stream_loop-Ascends ((disconnects, s) ∷ more) cursor u = tt
  stream_loop-Ascends ((closes, s) ∷ more) cursor u = tt
  stream_loop-Ascends ((beats written, s) ∷ more) cursor u =
      if_either (λ l. AscendsFrom cursor (numbers l)) written (stream_loop-Ascends more cursor u.1)
        tt
  stream_loop-Ascends ((notifies type, s) ∷ more) cursor u =
      if_either (λ l. AscendsFrom cursor (numbers l)) (refreshes type)
        (told-Ascends type (stream_loop detector i more) cursor (page_behind detector i cursor s)
          (λ p e. page_behind-GoesOn cursor s p u.0 e) (λ c. stream_loop-Ascends more c u.1))
        (stream_loop-Ascends more cursor u.1)

  -- The numbers of the messages that a stream sends ascend from the caller's cursor, over any events
  -- and whatever becomes of the tables meanwhile, so that no message is sent twice and none out of
  -- order; at no moment do two messages of the identity have the same number, which the index
  -- deliveries_cursor sees to.
  pub stream-Ascends :
      (since_seq : ℕ) (s : Server) (more : StreamMoments)
      → HasUniqueNumbers i s.db
      → All IsNumbered more
      → AscendsFrom since_seq (numbers (stream detector i since_seq s more))
  unfolding stream
  stream-Ascends since_seq s more u us =
      caught_up-Ascends (stream_loop detector i more) since_seq (page_behind detector i since_seq s)
        (λ p e. page_behind-GoesOn since_seq s p u e) (λ c. stream_loop-Ascends more c us)
