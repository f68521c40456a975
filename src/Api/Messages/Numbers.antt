-- ===== src/Api/Messages/Numbers.antt =====
-- internal/api/messages.go: the deliveries behind a cursor, in the order of their numbers.
use phenk.Prelude.{
  ℕ, ◌≡◌, refl, sym, ap, ◌∙◌, Bool, List, [], ◌∷◌, arith, ltb, ◌&&◌, if_either, keep,
}
use mathlib.Core.Path.{subst}
use mathlib.Core.List.{Pairwise, Mem, Mem-prop, forall_mem-cons, mem-cons_self, mem-cons_of_mem}
use phenk.Core.Identity.{Identity}
use phenk.Core.Message.{Delivery}
use phenk.Store.Tables.{Db, insert_by, order_by}
use phenk.Store.Deliveries.{of_identity, after_cursor}
use phenk.Extract.{insert_stably, sort_stably}
use phenk.Extract.Sorting.{WeakOrder}
use phenk.Extract.Distinct.{IsDistinct}

-- ORDER BY is the stable sort by the numbers.
abbrev pub is_earlier : Delivery → Delivery → Bool
is_earlier a b = ltb a.seq b.seq

insert_by-insert_stably :
    (x : Delivery) (l : List Delivery)
    → insert_by (λ (d : Delivery). d.seq) x l ≡ insert_stably is_earlier x l
insert_by-insert_stably x [] = refl
insert_by-insert_stably x (y ∷ ys) = ground (arith, insert_by-insert_stably x ys)

pub order_by-sort_stably :
    (l : List Delivery) → order_by (λ (d : Delivery). d.seq) l ≡ sort_stably is_earlier l
unfolding order_by sort_stably
order_by-sort_stably [] = refl
order_by-sort_stably (x ∷ xs) =
    ap (insert_by (λ (d : Delivery). d.seq) x) (order_by-sort_stably xs)
    ∙ insert_by-insert_stably x (sort_stably is_earlier xs)

pub is_earlier-WeakOrder : WeakOrder is_earlier
is_earlier-WeakOrder = record { asym = λ a b h. ground arith; keeps = λ a b c h k. ground arith }

-- The index deliveries_cursor: no two messages of an identity have the same number.
abbrev pub HasUniqueNumbers : Identity → Db → Type 0
HasUniqueNumbers i db = IsDistinct (λ (d : Delivery). d.seq) (keep (of_identity i.id) db.deliveries)

keep-keep :
    (p q : Delivery → Bool) (l : List Delivery)
    → keep (λ (d : Delivery). p d && q d) l ≡ keep q (keep p l)
keep-keep p q [] = refl
keep-keep p q (d ∷ l) = ground (arith, keep-keep p q l)

keep-mem : (p : Delivery → Bool) (l : List Delivery) (d : Delivery) → Mem d (keep p l) → Mem d l
keep-mem p [] d m = m
keep-mem p (x ∷ xs) d m =
    if_either (λ l. Mem d l → Mem d (x ∷ xs)) (p x)
      (λ k.
        (forall_mem-cons {p = λ (e : Delivery). Mem e (x ∷ xs)} (λ _. Mem-prop)).1
          (mem-cons_self, λ z j. mem-cons_of_mem x (keep-mem p xs z j)) d k)
      (λ k. mem-cons_of_mem x (keep-mem p xs d k)) m

keep-IsDistinct :
    (p : Delivery → Bool) (l : List Delivery)
    → IsDistinct (λ (d : Delivery). d.seq) l
    → IsDistinct (λ (d : Delivery). d.seq) (keep p l)
keep-IsDistinct p [] h = h
keep-IsDistinct p (x ∷ xs) (Pairwise.cons below s) =
    if_either (IsDistinct (λ (d : Delivery). d.seq)) (p x)
      (Pairwise.cons (λ z m. below z (keep-mem p xs z m)) (keep-IsDistinct p xs s))
      (keep-IsDistinct p xs s)

pub behind-IsDistinct :
    (i : Identity) (cursor : ℕ) (db : Db)
    → HasUniqueNumbers i db
    → IsDistinct (λ (d : Delivery). d.seq) (keep (after_cursor i.id cursor) db.deliveries)
behind-IsDistinct i cursor db u =
    subst (IsDistinct (λ (d : Delivery). d.seq))
      (sym (keep-keep (of_identity i.id) (λ d. ltb cursor d.seq) db.deliveries))
      (keep-IsDistinct (λ d. ltb cursor d.seq) (keep (of_identity i.id) db.deliveries) u)
