-- ===== src/Site/Crawl/Html.antt =====
-- What a response says of itself: whether it is HTML, whether it holds content, and the URL it
-- declares as canonical.
use docsearch.Site.Crawl.{Refusal, http_status, not_html, soft_404}
use docsearch.Results.{Result, ok, err, ◌>>=◌}
use docsearch.Site.Web.{Web, Fetched, LinkElement}
use docsearch.Prelude.{
  Bool, true, not, ◌||◌, Option, none, some, List, [], ◌∷◌, ◌==◌, if◌then◌else◌, is_empty, any,
  Text, codes,
}

unfoldable pub before_semicolon : Text → Text
before_semicolon [] = []
before_semicolon (r ∷ rs) = let rest = r ∷ before_semicolon rs in if r == b';' then [] else rest

abbrev pub html_types : List Text
html_types = codes "text/html" ∷ codes "application/xhtml+xml" ∷ []

module _ {W S H : Type 0} (web : Web W S H) where
  -- `slicesContainsFold`.
  unfoldable pub contains_fold : List Text → Text → Bool
  contains_fold list want = any (λ item. web.equal_fold item want) list

  unfoldable pub is_html : Text → Bool
  unfolding contains_fold before_semicolon
  is_html content_type =
      if is_empty content_type
      then true
      else contains_fold html_types (web.trim_space (before_semicolon content_type))

  unfoldable pub refusal : S → Fetched → Result Text (Option Refusal)
  refusal signature res =
      if not (res.status == 200)
      then ok (some (http_status res.status))
      else if not (is_html res.content_type)
      then ok (some (not_html res.content_type))
      else web.looks_absent res.body signature >>= λ absent.
          ok (if absent then some soft_404 else none)

  unfoldable pub canonical_href : Text → LinkElement → Option Text
  unfolding contains_fold
  canonical_href base link =
      let href = web.trim_space link.href in
      if not (contains_fold (web.fields link.rel) (codes "canonical")) || is_empty href
      then none
      else elim (web.resolve base href) [
        | err _ ↦ none
        | ok next ↦ elim (web.normalize next) [ err _ ↦ none | ok u ↦ some u ]
      ]

  -- The first link element that is canonical; empty when there is none.
  unfoldable pub first_canonical : Text → List LinkElement → Text
  unfolding canonical_href
  first_canonical base [] = []
  first_canonical base (link ∷ links) =
      let rest = first_canonical base links in
      elim (canonical_href base link) [ some u ↦ u | none ↦ rest ]

  unfoldable pub canonical_of : Text → Text → Result Text Text
  unfolding first_canonical
  canonical_of body base = web.link_elements body >>= λ links.
      web.parse_url base >>= λ base_url. ok (first_canonical base_url links)
