-- ===== src/Extract/Links/Chosen.antt =====
-- internal/extract/extract.go: what `links` returns.
use phenk.Prelude.{
  ℕ, zero, suc, ◌+◌, ◌≤◌, ◌≡◌, ◌⊎◌, ltb, inl, inr, refl, true, false, Option, none, some, List, [],
  ◌∷◌, ◌++◌, arith, leb, leb→le, Bool-cases, length, is_empty, take, length-append, All-take, All,
  All-append, length-take-le, Bytes, codes,
}
use mathlib.Core.Bool.{Bool-set}
use mathlib.Core.List.{Pairwise}
use mathlib.Core.List.Pairwise
use phenk.Extract.{
  LinkKind, verify, other, unsubscribe, Link, max_links, max_text, truncate, rune_cut, ellipsis,
  sort_stably,
}
use phenk.Extract.Sorting.{sort_stably-IsOrdered, All-sort_stably, Pairwise-take, WeakOrder}
use phenk.Extract.Links.{
  Url, bare_links, rank, ranks_before, is_web, seen_url, classify, checked_url, clean_url,
  kept_link, add_cleaned, kept_links, links_of,
}
use phenk.Extract.Distinct.{IsDistinct, snoc-IsDistinct, first_sorted-IsDistinct}
use phenk.Strings.{trim_space, fields, join}

-- Links to act on come before the others, and those to unsubscribe behind them.
in_turn :
    (x y : LinkKind) → ltb (rank y) (rank x) ≡ false → (x ≡ verify) ⊎ ((y ≡ unsubscribe) ⊎ (x ≡ y))
in_turn verify y h = inl refl
in_turn other unsubscribe h = inr (inl refl)
in_turn other other h = inr (inr refl)
in_turn other verify h = absurd cc
in_turn unsubscribe unsubscribe h = inr (inl refl)
in_turn unsubscribe other h = absurd cc
in_turn unsubscribe verify h = absurd cc

rune_cut-le : (s : Bytes) (n : ℕ) → rune_cut s n ≤ n
unfolding rune_cut
rune_cut-le s zero = omega arith
rune_cut-le s (suc n) = ground (arith, rune_cut-le s n)

-- A text that is cut takes three bytes more at most, those of the ellipsis.
pub length-truncate-le : (s : Bytes) (n : ℕ) → length (truncate s n) ≤ n + 3
unfolding truncate
length-truncate-le s n = elim (Bool-cases (leb (length s) n)) [
  | inl e ↦ rw e (omega (arith, leb→le (length s) n e))
  | inr e ↦ rw e (
      omega (
        arith,
        length-append (take (rune_cut s n) s) ellipsis,
        length-take-le (rune_cut s n) s,
        rune_cut-le s n,
      ))
]

abbrev url_in : Link → Bytes
url_in l = l.url

module _ (parse_url : Bytes → Option Url) where
  -- The text of an URL that was parsed, on the web and with a host.
  pub IsWebUrl : Bytes → Type 0
  IsWebUrl s =
      (raw : Bytes) × (u : Url) × (parse_url raw ≡ some u)
      × (is_empty u.host ≡ false)
      × (is_web u ≡ true)
      × (s ≡ u.text)

  pub IsLink : Link → Type 0
  IsLink l =
      IsWebUrl l.url × (l.kind ≡ classify parse_url l.url l.text) × (length l.text ≤ max_text + 3)

  abbrev pub IsKept : List Link → Type 0
  IsKept out = All IsLink out × IsDistinct url_in out

  checked_url-IsWebUrl :
      (raw : Bytes) (o : Option Url) (s : Bytes)
      → parse_url raw ≡ o
      → checked_url parse_url o ≡ some s
      → IsWebUrl s
  unfolding IsWebUrl
  checked_url-IsWebUrl raw none s e h = cc
  checked_url-IsWebUrl raw (some u) s e h =
      (raw, u, e, ground (arith, h), ground (arith, h), ground (arith, h))

  kept_link-IsLink : (u text : Bytes) → IsWebUrl u → IsLink (kept_link parse_url u text)
  unfolding kept_link IsLink
  kept_link-IsLink u text w =
      (w, refl, length-truncate-le (join (codes " ") (fields text)) max_text)

  add_cleaned-IsKept :
      (text : Bytes) (o : Option Bytes) (out : List Link)
      → ((u : Bytes) → o ≡ some u → IsWebUrl u)
      → IsKept out
      → IsKept (add_cleaned parse_url text o out)
  unfolding seen_url kept_link
  add_cleaned-IsKept text none out c h = h
  add_cleaned-IsKept text (some u) out c h = elim (Bool-cases (seen_url u out)) [
    | inl e ↦ rw e h
    | inr e ↦ rw e (
      All-append IsLink out _ h.0 (kept_link-IsLink u text (c u refl), tt),
      snoc-IsDistinct url_in out (kept_link parse_url u text) e h.1,
    )
  ]

  kept_links-IsKept : (ls out : List Link) → IsKept out → IsKept (kept_links parse_url ls out)
  unfolding kept_links clean_url
  kept_links-IsKept [] out h = h
  kept_links-IsKept (l ∷ ls) out h =
      kept_links-IsKept ls (add_cleaned parse_url l.text (clean_url parse_url l.url) out) (
        add_cleaned-IsKept l.text (clean_url parse_url l.url) out
          (λ u e. checked_url-IsWebUrl (trim_space l.url) (parse_url (trim_space l.url)) u refl e)
          h)

  ranks_before-WeakOrder : WeakOrder ranks_before
  ranks_before-WeakOrder = record {
    asym = λ a b h. ground arith;
    keeps = λ a b c h k. ground arith;
  }

  abbrev pub StandsLower : Link → Link → Type 0
  StandsLower a b = (a.kind ≡ verify) ⊎ ((b.kind ≡ unsubscribe) ⊎ (a.kind ≡ b.kind))

  -- At most ten links are returned. Each has the text of an URL that was parsed, with a host and the
  -- scheme http or https, the kind that `classify` gives it, and a text of at most 203 bytes; no URL
  -- is returned twice; and the links to act on stand first, those to unsubscribe last.
  pub links_of-are_links :
      (anchors : List Link) (text : Bytes)
      → (length (links_of parse_url anchors text) ≤ max_links)
        × All IsLink (links_of parse_url anchors text)
        × IsDistinct (λ (l : Link). l.url) (links_of parse_url anchors text)
        × Pairwise StandsLower (links_of parse_url anchors text)
  unfolding links_of
  links_of-are_links anchors text =
      let kept = kept_links parse_url (anchors ++ bare_links text) [] in
      let h = kept_links-IsKept (anchors ++ bare_links text) [] (tt, Pairwise.nil) in
      let sorted = sort_stably ranks_before kept in
      (
        length-take-le max_links sorted,
        All-take IsLink max_links sorted (All-sort_stably ranks_before IsLink kept h.0),
        first_sorted-IsDistinct url_in ranks_before max_links kept h.1,
        Pairwise.imp (λ a b e. in_turn a.kind b.kind e)
            (Pairwise-take max_links sorted (λ _ _. Bool-set _ _)
              (sort_stably-IsOrdered ranks_before ranks_before-WeakOrder kept)),
      )
