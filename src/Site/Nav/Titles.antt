-- ===== src/Site/Nav/Titles.antt =====
-- internal/site/nav/nav.go: `pathOf`, `segmentsOf`, `titleFromSlug` and `titleCase`.
use docsearch.Strings.{split, last_index, join, trim_suffix}
use docsearch.Site.Nav.{Go}
use docsearch.Prelude.{
  ℕ, ◌+◌, not, ◌&&◌, ◌||◌, none, some, List, [], ◌∷◌, ◌++◌, map, ◌==◌, if◌then◌else◌, drop,
  is_empty, select, Text, codes,
}

module _ ⦃go : Go⦄ where
  unfoldable pub path_of : Text → Text
  path_of raw = elim (go.parse_path raw) [ none ↦ [] | some path ↦ path ]

  unfoldable pub segments_of : Text → List Text
  unfolding path_of split
  segments_of raw = select (λ seg. not (is_empty seg)) (split (codes "/") (path_of raw))

  -- One word of `titleCase`: `w[:1]` is its first byte.
  unfoldable pub title_word : Text → Text
  title_word [] = []
  title_word (b ∷ w) = go.to_upper (b ∷ []) ++ go.to_lower w

  unfoldable pub title_case : Text → Text
  unfolding title_word split join
  title_case text = join (codes " ") (map title_word (split (codes " ") text))

  -- `strings.Trim(slug, "/")`.
  unfoldable pub strip_left : ℕ → Text → Text
  strip_left cut [] = []
  strip_left cut (b ∷ s) = let rest = strip_left cut s in if b == cut then rest else b ∷ s

  unfoldable pub strip_right : ℕ → Text → Text
  strip_right cut [] = []
  strip_right cut (b ∷ s) =
      let rest = strip_right cut s in if b == cut && is_empty rest then [] else b ∷ rest

  -- `strings.NewReplacer("-", " ", "_", " ")`.
  unfoldable pub spaced : ℕ → ℕ
  spaced b = if b == b'-' || b == b'_' then b' ' else b

  unfoldable pub last_segment : Text → Text
  unfolding last_index
  last_segment text = elim (last_index (codes "/") text) [
    | some i ↦ drop (i + 1) text
    | none ↦ text
  ]

  unfoldable pub title_from_slug : Text → Text
  unfolding title_case strip_left strip_right trim_suffix spaced last_segment
  title_from_slug slug =
      let text = last_segment (strip_right b'/' (strip_left b'/' slug)) in
      let bare =
        trim_suffix (codes ".md") (trim_suffix (codes ".htm") (trim_suffix (codes ".html") text)) in
      let words = go.trim_space (map spaced bare) in
      if is_empty words then codes "Untitled" else title_case words

  -- `titleOr`.
  unfoldable pub title_or : Text → Text → Text
  unfolding title_from_slug path_of
  title_or title raw = if is_empty title then title_from_slug (path_of raw) else title
