-- ===== src/Api/Messages/Pages.antt =====
-- internal/api/messages.go: what a page of messages holds, and its cursor.
use phenk.Prelude.{
  ℕ, ◌<◌, ◌≢◌, ◌≤◌, ◌≡◌, refl, sym, ap, ◌∙◌, Bool, true, false, Option, List, [], ◌∷◌, map, arith,
  if_either, length, length-map, keep, All, All-imp, length-take-le,
}
use mathlib.Core.Path.{subst}
use mathlib.Core.Logic.{◌∨₁◌}
use mathlib.Core.Logic.Or
use mathlib.Core.HLevel.{→_prop}
use mathlib.Core.List.{Mem, Mem-prop, forall_mem-cons, not-mem-nil, mem-cons_self, mem-cons_of_mem}
use phenk.Prelude.Result.{Result, ok, err}
use phenk.Prelude.Run.{continue-ok, done, done-ok, ◌>>=◌}
use phenk.Core.Identity.{Identity}
use phenk.Core.Message.{Delivery, ParsedMessage}
use phenk.Crypto.Keys.{DataKey}
use phenk.Store.Tables.{Db, order_by, StoreError, not_found, conflict, violation, invalid}
use phenk.Store.Deliveries.{after_cursor, deliveries_since}
use phenk.Store.Parsed.{parsed_message_by_delivery, attachments_for_delivery}
use phenk.Extract.{Extracted}
use phenk.Extract.Sorting.{sort_strictly_best}
use phenk.Api.Messages.Numbers.{
  is_earlier, is_earlier-WeakOrder, order_by-sort_stably, HasUniqueNumbers, behind-IsDistinct,
}
use phenk.Api.{Refusal, Server, Detector, Handler}
use phenk.Api.Messages.{
  MessageSummary, bare_summary, summarize, summarize_all, when_parsed, detect, full_summary,
  render_page, page_key, last_seq, message_page,
}

mem-keep :
    (p : Delivery → Bool) (xs : List Delivery) (d : Delivery)
    → Mem d xs
    → p d ≡ true
    → Mem d (keep p xs)
mem-keep p [] d m h = absurd (not-mem-nil m)
mem-keep p (x ∷ xs) d m h =
    (forall_mem-cons {p = λ (e : Delivery). p e ≡ true → Mem e (keep p (x ∷ xs))}
        (λ _. →_prop Mem-prop)).1
      (
        (λ e. rw e mem-cons_self),
        (λ z j e.
            if_either (λ l. Mem z l) (p x) (mem-cons_of_mem x (mem-keep p xs z j e))
              (mem-keep p xs z j e)),
      )
      d m h

-- What the summaries of a page have from their deliveries, whether or not these are parsed.
module _ (detector : Detector) (shows : MessageSummary → ℕ) (has : Delivery → ℕ)
    (bare : (d : Delivery) → shows (bare_summary d) ≡ has d)
    (full : (d : Delivery) (p : ParsedMessage) (found : Option Extracted) (n : ℕ)
      → shows (full_summary detector d p found n) ≡ has d) where
  when_parsed-shows :
      (d : Delivery) (f : ParsedMessage → Handler MessageSummary)
      (r : Result StoreError (ParsedMessage × Db)) (s : Server) (m : MessageSummary) (t : Server)
      → ((p : ParsedMessage) → f p s ≡ (ok m, t) → shows m ≡ has d)
      → when_parsed (bare_summary d) f r s ≡ (ok m, t)
      → shows m ≡ has d
  when_parsed-shows d f (err not_found) s m t k h =
      let e : bare_summary d ≡ m = cc in sym (ap shows e) ∙ bare d
  when_parsed-shows d f (err conflict) s m t k h = absurd cc
  when_parsed-shows d f (err violation) s m t k h = absurd cc
  when_parsed-shows d f (err invalid) s m t k h = absurd cc
  when_parsed-shows d f (ok (p, db)) s m t k h = k p h

  summarize-shows :
      (d : Delivery) (key : Option DataKey) (s : Server) (m : MessageSummary) (t : Server)
      → summarize detector d key s ≡ (ok m, t)
      → shows m ≡ has d
  unfolding summarize
  summarize-shows d key s m t h =
      let count = length (attachments_for_delivery d.id s.db) in
      let rest = λ (p : ParsedMessage) (found : Option Extracted).
        done {S = Server} {E = Refusal} (full_summary detector d p found count) in
      when_parsed-shows d (λ p. detect detector key p >>= rest p)
        (parsed_message_by_delivery d.id s.db) s m t
        (λ p g.
          let c = continue-ok (rest p) (detect detector key p s) m t g in
          let e : full_summary detector d p c.0 count ≡ m = cc in
          sym (ap shows e) ∙ full d p c.0 count)
        h

  summarize_all-shows :
      (ds : List Delivery) (key : Option DataKey) (s : Server) (ms : List MessageSummary)
      (t : Server)
      → summarize_all detector ds key s ≡ (ok ms, t)
      → map shows ms ≡ map has ds
  unfolding summarize_all
  summarize_all-shows [] key s ms t h = let e : [] ≡ ms = cc in sym (ap (map shows) e)
  summarize_all-shows (d ∷ ds) key s ms t h =
      let last = λ (first : MessageSummary) (rest : List MessageSummary).
        done {S = Server} {E = Refusal} (first ∷ rest) in
      let c =
        continue-ok (λ first. summarize_all detector ds key >>= last first)
          (summarize detector d key s) ms t h in
      let b = continue-ok (last c.0) (summarize_all detector ds key c.1) ms t c.3 in
      let e : (c.0 ∷ b.0) ≡ ms = cc in
      ap (map shows) (sym e)
      ∙ (ap (λ (n : ℕ). n ∷ map shows b.0) (summarize-shows d key s c.0 c.1 c.2)
          ∙ ap (λ (ns : List ℕ). has d ∷ ns) (summarize_all-shows ds key c.1 b.0 b.1 b.2))

  render_page-shows :
      (i : Identity) (cursor : ℕ) (ds : List Delivery) (s : Server) (ms : List MessageSummary)
      (c : ℕ) (t : Server)
      → render_page detector i cursor ds s ≡ (ok (ms, c), t)
      → (map shows ms ≡ map has ds) × (c ≡ last_seq detector cursor ds)
  render_page-shows i cursor [] s ms c t h =
      let e = done-ok ([], cursor) (ms, c) s t h in
      (
        sym (ap (λ (x : List MessageSummary × ℕ). map shows x.0) e),
        sym (ap (λ (x : List MessageSummary × ℕ). x.1) e),
      )
  render_page-shows i cursor (d ∷ ds) s ms c t h =
      let last = λ (summaries : List MessageSummary).
        done {S = Server} {E = Refusal} (summaries, last_seq detector cursor (d ∷ ds)) in
      let k =
        continue-ok (λ key. summarize_all detector (d ∷ ds) key >>= last) (page_key detector i s)
          (ms, c) t h in
      let b = continue-ok last (summarize_all detector (d ∷ ds) k.0 k.1) (ms, c) t k.3 in
      let e = done-ok (b.0, last_seq detector cursor (d ∷ ds)) (ms, c) b.1 t b.3 in
      (
        sym (ap (λ (x : List MessageSummary × ℕ). map shows x.0) e)
            ∙ summarize_all-shows (d ∷ ds) k.0 k.1 b.0 b.1 b.2,
        sym (ap (λ (x : List MessageSummary × ℕ). x.1) e),
      )

  -- The summaries of a page show what its deliveries have, and its cursor is the last number.
  pub message_page-shows :
      (i : Identity) (cursor size : ℕ) (s : Server) (ms : List MessageSummary) (c : ℕ) (t : Server)
      → message_page detector i cursor size s ≡ (ok (ms, c), t)
      → (map shows ms ≡ map has (deliveries_since i.id cursor size s.db))
        × (c ≡ last_seq detector cursor (deliveries_since i.id cursor size s.db))
  unfolding message_page
  message_page-shows i cursor size s ms c t h =
      render_page-shows i cursor (deliveries_since i.id cursor size s.db) s ms c t h

module _ (detector : Detector) where
  abbrev id_in : MessageSummary → ℕ
  id_in m = m.id

  abbrev delivery_id_in : Delivery → ℕ
  delivery_id_in d = d.id

  last_seq-below :
      (cursor : ℕ) (n : ℕ) (ds : List Delivery)
      → cursor < n
      → All (λ (e : Delivery). e.seq < n) ds
      → last_seq detector cursor ds < n
  last_seq-below cursor n [] h a = h
  last_seq-below cursor n (d ∷ ds) h a = last_seq-below d.seq n ds a.0 a.1

  length_of_ids :
      (ms : List MessageSummary) (page : List Delivery) (size : ℕ)
      → map id_in ms ≡ map delivery_id_in page
      → length page ≤ size
      → length ms ≤ size
  length_of_ids ms page size e h =
      omega (arith, length-map id_in ms, length-map delivery_id_in page, ap length e)

  after : (id cursor : ℕ) (d : Delivery) → after_cursor id cursor d ≡ true → cursor < d.seq
  after id cursor d h = ground (arith, h)

  earlier : (d e : Delivery) → is_earlier e d ≡ true → e.seq < d.seq
  earlier d e h = ground (arith, h)

  earlier_total : (a b : Delivery) → is_earlier b a ≡ false → a.seq ≢ b.seq → is_earlier a b ≡ true
  earlier_total a b h k = ground arith

  best_of :
      (i : Identity) (cursor size : ℕ) (db : Db) (d : Delivery)
      → HasUniqueNumbers i db
      → Mem d db.deliveries
      → after_cursor i.id cursor d ≡ true
      → Mem d (deliveries_since i.id cursor size db)
        ∨₁ All (λ (e : Delivery). is_earlier e d ≡ true) (deliveries_since i.id cursor size db)
  unfolding deliveries_since
  best_of i cursor size db d u m a =
      let found = keep (after_cursor i.id cursor) db.deliveries in
      rw (order_by-sort_stably found) (
        sort_strictly_best is_earlier is_earlier-WeakOrder (λ (d : Delivery). d.seq) earlier_total
          size found d (behind-IsDistinct i cursor db u)
          (mem-keep (after_cursor i.id cursor) db.deliveries d m a))

  -- A page that is given out lists the deliveries of the identity behind the cursor, at most as many
  -- as the page may hold, and no message is passed over: each delivery behind the cursor is on the
  -- page, or its number is higher than the cursor that the page returns, so that the next page asks
  -- for it. No two messages of the identity have the same number, as the index deliveries_cursor has it.
  pub message_page_skips_nothing :
      (i : Identity) (cursor size : ℕ) (s : Server) (ms : List MessageSummary) (c : ℕ) (t : Server)
      (d : Delivery)
      → message_page detector i cursor size s ≡ (ok (ms, c), t)
      → HasUniqueNumbers i s.db
      → Mem d s.db.deliveries
      → after_cursor i.id cursor d ≡ true
      → (map (λ (m : MessageSummary). m.id) ms
          ≡ map (λ (d : Delivery). d.id) (deliveries_since i.id cursor size s.db))
        × (length ms ≤ size)
        × (Mem d (deliveries_since i.id cursor size s.db) ∨₁ (c < d.seq))
  unfolding deliveries_since
  message_page_skips_nothing i cursor size s ms c t d h u m a =
      let page = deliveries_since i.id cursor size s.db in
      let r =
        message_page-shows detector id_in delivery_id_in (λ d. refl) (λ d p found n. refl) i cursor
          size s ms c t h in
      (
        r.0,
        length_of_ids ms page size r.0 (
            length-take-le size
              (order_by (λ d. d.seq) (keep (after_cursor i.id cursor) s.db.deliveries))),
        Or.imp (λ k. k)
            (λ f.
              subst (λ (n : ℕ). n < d.seq) (sym r.1)
                (last_seq-below cursor d.seq page (after i.id cursor d a) (
                  All-imp (λ (e : Delivery). is_earlier e d ≡ true)
                    (λ (e : Delivery). e.seq < d.seq) (earlier d) page f)))
            (best_of i cursor size s.db d u m a),
      )
