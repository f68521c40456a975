-- ===== src/Examples/Extract.antt =====
-- internal/extract and internal/mimeparse: the theorems at concrete inputs.
use phenk.Prelude.{
  ℕ, ◌≤◌, ◌≡◌, refl, false, Option, some, List, [], ◌∷◌, arith, length, All, Bytes, codes, eq_bytes,
}
use mathlib.Core.Logic.{◌∨₁◌}
use mathlib.Core.List.{Mem, Pairwise, mem-cons_self}
use phenk.Prelude.Result.{Result, ok}
use phenk.Strings.{
  has_prefix, has_suffix, split_at, trim_space, trim_right_bytes, trim_bytes, to_valid_utf8,
}
use phenk.Regexp.{matches, find_all}
use phenk.Extract.Candidates.{is_digits}
use phenk.Extract.{Code, Link, max_codes, max_links, other, truncate}
use phenk.Extract.Distinct.{IsDistinct}
use phenk.Extract.Codes.{Scored, seen, score_of, codes_of, found_codes, best_codes}
use phenk.Extract.Codes.Found.{Outranks, IsCodeValue, codes_of-are_codes, codes_of-are_best}
use phenk.Extract.Links.{Url, links_of}
use phenk.Extract.Links.Chosen.{IsLink, StandsLower, links_of-are_links}
use phenk.Mimeparse.{safe_filename, max_filename}
use phenk.Mimeparse.Names.{IsNameByte, safe_filename-IsSafe}
use phenk.Mimeparse.Parts.{
  Body, AttachmentMeta, inline_part, inline_meta, read_part, read_attachment, empty_message,
}
use phenk.Mimeparse.Bounds.{read_part-inline_unread}

abbrev a_subject : Bytes
a_subject = codes "Your code: 482913"

abbrev a_text : Bytes
a_text = codes "PIN K7QX9, use before 2027"

codes_of-are_codes_example :
    (length (codes_of a_subject a_text) ≤ max_codes)
    × All (λ (c : Code). IsCodeValue c.value) (codes_of a_subject a_text)
    × IsDistinct (λ (c : Code). c.value) (codes_of a_subject a_text)
codes_of-are_codes_example = codes_of-are_codes a_subject a_text

abbrev a_code : Scored
a_code = record {
  code = record { value = codes "482913"; context = a_subject };
  score = 7;
  order = 0;
}

codes_of-are_best_example :
    Pairwise Outranks (best_codes a_subject a_text)
    × (Mem a_code (best_codes a_subject a_text)
        ∨₁ All (λ (g : Scored). Outranks g a_code) (best_codes a_subject a_text))
unfolding found_codes split_at trim_space trim_right_bytes matches find_all has_suffix eq_bytes seen
    truncate score_of is_digits
codes_of-are_best_example = codes_of-are_best a_subject a_text a_code mem-cons_self

-- Every text is an URL of one host.
abbrev a_parser : Bytes → Option Url
a_parser s =
    some (record { scheme = codes "https"; host = codes "a.b"; path = s; raw_query = []; text = s })

abbrev some_anchors : List Link
some_anchors =
    record { url = codes "https://a.b/u"; text = codes "Unsubscribe"; kind = other }
    ∷ record { url = codes "https://a.b/v"; text = codes "Verify email"; kind = other }
    ∷ []

links_of-are_links_example :
    (length (links_of a_parser some_anchors a_text) ≤ max_links)
    × All (IsLink a_parser) (links_of a_parser some_anchors a_text)
    × IsDistinct (λ (l : Link). l.url) (links_of a_parser some_anchors a_text)
    × Pairwise (StandsLower a_parser) (links_of a_parser some_anchors a_text)
links_of-are_links_example = links_of-are_links a_parser some_anchors a_text

abbrev a_name : Bytes
a_name = codes "../../etc/invoice.pdf"

safe_filename-IsSafe_example :
    (length (safe_filename a_name) ≤ max_filename) × All IsNameByte (safe_filename a_name)
safe_filename-IsSafe_example = safe_filename-IsSafe a_name

-- The dots are trimmed before the spaces are, so a name of dots can be left.
dots_left : safe_filename (codes ". .. .") ≡ codes ".."
unfolding safe_filename trim_space trim_bytes to_valid_utf8
dots_left = refl

abbrev same_text : Bytes → Bytes
same_text s = s

-- A callback that keeps how much there was to read of each body.
abbrev keep_length : AttachmentMeta → Body → List ℕ → Result ℕ (List ℕ)
keep_length meta body kept = ok (length body.unread ∷ kept)

read_part-inline_unread_example :
    read_part same_text keep_length 8 3
      (inline_part (codes "image/png") [] (record { unread = codes "PNG!"; fails = false }))
      empty_message
      []
    ≡ read_attachment same_text keep_length 8 3
        (inline_meta (codes "image/png") [])
        (record { unread = []; fails = false })
        empty_message
        []
unfolding eq_bytes has_prefix
read_part-inline_unread_example =
    read_part-inline_unread same_text keep_length 8 3 (codes "image/png") [] (codes "PNG!")
      empty_message [] (omega arith) refl refl
