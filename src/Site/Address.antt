-- ===== src/Site/Address.antt =====
-- internal/site/fetch/normalize.go: the one spelling of a URL.
pub mod Clean
-- A URL that is parsed: fields and methods of `url.URL`.
use docsearch.Strings.{ends_with, split, join}
use docsearch.Results.{◌>>=◌, Result, or_err, ok}
use docsearch.Prelude.{
  ◌-◌, Bool, not, ◌&&◌, ◌||◌, List, [], ◌∷◌, ◌++◌, arith, ltb, ◌==◌, if◌then◌else◌, length, take,
  is_empty, any, Text, codes, text_eq,
}

pub record Url : Type 0 where
  pub scheme : Text
  pub host : Text
  pub hostname : Text
  pub port : Text
  pub path : Text
  pub escaped_path : Text
  pub raw_query : Text

-- `url.Parse`, a reference that a URL resolves (`String` of `base.Parse(href)`), and functions of
-- Go's `strings`.
pub record Net : Type 0 where
  pub parse_url : Text → Result Text Url
  pub resolve : Text → Text → Result Text Text
  pub to_lower : Text → Text
  pub equal_fold : Text → Text → Bool
  pub trim_space : Text → Text

abbrev pub dot : Text
dot = codes "."

abbrev pub dots : Text
dots = codes ".."

unfoldable pub apply_segment : List Text → Text → List Text
unfolding text_eq
apply_segment out seg =
    if text_eq seg dot
    then out
    else if text_eq seg dots
    then if ltb 1 (length out) then take (length out - 1) out else out
    else out ++ seg ∷ []

-- The loop of `removeDotSegments`.
unfoldable pub apply_segments : List Text → List Text → List Text
unfolding apply_segment
apply_segments out [] = out
apply_segments out (seg ∷ segs) = apply_segments (apply_segment out seg) segs

unfoldable pub ends_in_dots : Text → Bool
unfolding ends_with
ends_in_dots path = ends_with (codes "/.") path || ends_with (codes "/..") path

unfoldable pub remove_dot_segments : Text → Text
unfolding apply_segments split join ends_in_dots
remove_dot_segments path =
    let joined = join (codes "/") (apply_segments [] (split (codes "/") path)) in
    if ends_in_dots path && not (ends_with (codes "/") joined) then joined ++ codes "/" else joined

module _ ⦃net : Net⦄ where
  unfoldable pub bracketed : Text → Text
  bracketed host = if any (λ b. b == b':') host then codes "[" ++ host ++ codes "]" else host

  unfoldable pub authority : Url → Text → Text
  unfolding bracketed text_eq
  authority u scheme =
      let host = bracketed (net.to_lower u.hostname) in
      if is_empty u.port
        || text_eq scheme (codes "http") && text_eq u.port (codes "80")
        || text_eq scheme (codes "https") && text_eq u.port (codes "443")
      then host
      else host ++ codes ":" ++ u.port

  unfoldable pub rendered : Url → Text
  unfolding authority remove_dot_segments
  rendered u =
      let scheme = net.to_lower u.scheme in
      let cleaned = remove_dot_segments u.escaped_path in
      let path = if is_empty cleaned then codes "/" else cleaned in
      let query = if is_empty u.raw_query then [] else codes "?" ++ u.raw_query in
      scheme ++ codes "://" ++ authority u scheme ++ path ++ query

  unfoldable pub normalize : Text → Result Text Text
  unfolding rendered
  normalize raw =
      or_err (λ e. codes "unparseable URL " ++ raw ++ codes ": " ++ e)
        (net.parse_url raw >>= λ u. ok (rendered u))
