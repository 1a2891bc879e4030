-- ===== src/Site/Discover.antt =====
-- internal/site/discover/discover.go: the interfaces of discovery and its tests of URLs.
pub mod Manifests
pub mod Sitemaps
pub mod Union
pub mod Run
pub mod Twins
pub mod Scope
pub mod Under
pub mod Promise
pub mod Reads
pub mod Ends
pub mod Total
use docsearch.Strings.{ends_with, starts_with, last_index, cut, trim_suffix}
use docsearch.Prelude.{
  ℕ, ◌+◌, Bool, false, not, ◌&&◌, ◌||◌, Option, none, some, List, [], ◌∷◌, ◌++◌, arith,
  if◌then◌else◌, drop, is_empty, any, Text, codes, text_eq,
}
use docsearch.Site.Address.{Net, Url}
use docsearch.Site.Web.{Fetched}
use docsearch.Results.{ok, err, Result}

-- `Fetcher`; `W` is the world that a request changes.
pub record Fetcher (W : Type 0) : Type 0 where
  pub fetch : Text → Bool → W → Result Text Fetched × W
  pub robots : Text → W → Result Text Text × W

-- A token of a sitemap, of `encoding/xml`, with the local name of an element.
pub data Token : Type 0 where
  start_element : Text → Token
  end_element : Token
  char_data : Text → Token
  other : Token

pub record TitledUrl : Type 0 where
  pub title : Text
  pub url : Text

-- The tokens before the decoder's first error; the `href` of each link of a page outside its
-- scripts and styles, as goquery finds them; the matches of `llmsLink` in a body that
-- `pystr.ReadText` has decoded; `path.Dir`.
pub record Parsers : Type 0 where
  pub xml_tokens : Text → List Token
  pub hrefs : Text → Result Text (List Text)
  pub llms_links : Text → List (Text × Text)
  pub dir_of : Text → Text

pub record SitemapRef : Type 0 where
  pub url : Text
  pub depth : ℕ
  pub optional : Bool

abbrev pub max_sitemap_depth : ℕ
max_sitemap_depth = 3

module _ ⦃net : Net⦄ where
  -- `InPrefixScope`, on the URLs parsed.
  unfoldable pub in_scope : Result Text Url → Result Text Url → Bool
  unfolding ends_with starts_with text_eq
  in_scope (ok u) (ok s) =
      let base = if ends_with (codes "/") s.path then s.path else s.path ++ codes "/" in
      net.equal_fold u.hostname s.hostname && (text_eq u.path s.path || starts_with base u.path)
  in_scope _ _ = false

  unfoldable pub in_prefix_scope : Text → Text → Bool
  unfolding in_scope
  in_prefix_scope raw seed = in_scope (net.parse_url raw) (net.parse_url seed)

  unfoldable pub origin_of : Text → Text
  origin_of raw = elim (net.parse_url raw) [ ok u ↦ u.scheme ++ codes "://" ++ u.host | err e ↦ [] ]

unfoldable pub is_page_link : Text → Bool
unfolding starts_with
is_page_link href =
    not (is_empty href || starts_with (codes "#") href)
    && not (
        any (λ scheme. starts_with scheme href)
          (codes "mailto:" ∷ codes "javascript:" ∷ codes "tel:" ∷ []))

-- The end of `pageOfTwin`: what the twin's URL is without the suffix, and its query.
unfoldable pub page_of : Text → Text
unfolding ends_with trim_suffix
page_of bare =
    if ends_with (codes "/index.html") bare then trim_suffix (codes "index.html") bare else bare

unfoldable pub ask : Text → Text → Bool → Text
ask head query has_query = if has_query then head ++ (codes "?" ++ query) else head

-- `pageOfTwin`; `none` is no twin.
unfoldable pub page_of_twin : Text → Option Text
unfolding cut ends_with trim_suffix page_of ask
page_of_twin raw =
    let (head, query, has_query) = cut b'?' raw in
    if not (ends_with (codes ".md") head)
    then none
    else some (ask (page_of (trim_suffix (codes ".md") head)) query has_query)

unfoldable pub name_of : Text → Text
unfolding last_index
name_of head = elim (last_index (codes "/") head) [ some i ↦ drop (i + 1) head | none ↦ head ]

unfoldable pub is_manifest : Text → Bool
unfolding cut name_of text_eq
is_manifest raw =
    let name = name_of (cut b'?' raw).0 in
    text_eq name (codes "llms.txt") || text_eq name (codes "llms-full.txt")
