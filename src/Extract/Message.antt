-- ===== src/Extract/Message.antt =====
-- internal/extract/extract.go: `Message`, over the tokenizer and the parser of URLs.
use phenk.Prelude.{Option, List, [], if◌then◌else◌, is_empty, Bytes}
use phenk.Strings.{trim_space}
use phenk.Extract.{Link, Extracted, clip}
use phenk.Extract.Codes.{codes_of}
use phenk.Extract.Links.{Url, links_of}
use phenk.Extract.Html.{Token, read_html}

module _ (tokenize : Bytes → List Token) (parse_url : Bytes → Option Url) where
  -- The text to search and the anchors, of a body that is clipped.
  unfoldable pub searched : Bytes → Bytes → Bytes × List Link
  unfolding read_html
  searched text html =
      let read = read_html tokenize html in
      if is_empty html
      then (text, [])
      else ((if is_empty (trim_space text) then read.0 else text), read.1)

  unfoldable pub message : Bytes → Bytes → Bytes → Extracted
  unfolding searched codes_of links_of
  message subject text html =
      let s = searched (clip text) (clip html) in
      record { codes_found = codes_of subject s.0; links_found = links_of parse_url s.1 s.0 }
