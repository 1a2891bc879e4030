-- ===== src/Site/Nav.antt =====
-- internal/site/nav/nav.go: a navigation tree, the placement of a page, and the titles read from
-- slugs. A text is the bytes of a Go string here, since the source slices it by bytes.
pub mod Titles
pub mod Flatten
pub mod Places
pub mod Paths
pub mod Derive
pub mod Once
pub mod Whole
-- `[]*node`: each node with its title, its URL and its children, before the nodes that follow it.
-- The URL is empty for a category that is not a page.
use docsearch.Prelude.{
  ℕ, Option, List, [], ◌∷◌, ◌++◌, arith, if◌then◌else◌, is_empty, count_if, Text, text_eq,
}

pub data NavTree : Type 0 where
  nil : NavTree
  node : Text → Text → NavTree → NavTree → NavTree

pub record Placement : Type 0 where
  pub url : Text
  pub section : Text
  pub title : Text
  pub ancestry : List Text

-- What the code calls that is not its own: `net/url`'s `Parse`, for the path of a URL, and Go's
-- `strings.ToUpper`, `ToLower` and `TrimSpace`.
pub record Go : Type 0 where
  pub parse_path : Text → Option Text
  pub to_upper : Text → Text
  pub to_lower : Text → Text
  pub trim_space : Text → Text

-- The URLs of the nodes that are pages, in the order of the document.
unfoldable pub page : Text → List Text
page url = if is_empty url then [] else url ∷ []

unfoldable pub pages_of : NavTree → List Text
unfolding page
pages_of nil = []
pages_of (node title url children rest) = page url ++ (pages_of children ++ pages_of rest)
