-- ===== src/Site/Discover/Twins.antt =====
-- internal/site/discover/discover.go: the Markdown twin of a page, and the page of a twin.
-- The twin of a page as llmstxt.org asks for it: the page's URL with ".md" appended, and
-- "index.html.md" for a URL that ends in a slash.
use mathlib.Core.Path.{subst}
use docsearch.Strings.Suffix.{cut-none, ends_with-suffix, cut-here, trim_suffix-suffix}
use docsearch.Strings.Pieces.{HasNot, ends_with-append}
use docsearch.Site.Discover.{page_of_twin, ask, page_of, cut, trim_suffix}
use docsearch.Strings.{ends_with, trim_suffix}
use docsearch.Prelude.{
  ℕ, ◌≡◌, sym, ap, ◌∙◌, inl, inr, Bool, true, false, not, Option, none, some, [], ◌++◌,
  append_assoc, arith, ◌==◌, if◌then◌else◌, Bool-cases, if-false, if-true, any-append, Text, codes,
  refl,
}

unfoldable pub twin_of : Text → Text
unfolding ends_with
twin_of head =
    if ends_with (codes "/") head then head ++ codes "index.html.md" else head ++ codes ".md"

-- A URL with the query it may have.
unfoldable pub with_query : Text → Option Text → Text
with_query head none = head
with_query head (some query) = head ++ (codes "?" ++ query)

page_of_twin-cut :
    (raw bare query : Text) (asked : Bool)
    → cut b'?' raw ≡ (bare ++ codes ".md", query, asked)
    → page_of_twin raw ≡ some (ask (page_of bare) query asked)
unfolding page_of_twin
page_of_twin-cut raw bare query asked h =
    subst
      (λ (c : Text × Text × Bool).
        (if not (ends_with (codes ".md") c.0)
          then none
          else some (ask (page_of (trim_suffix (codes ".md") c.0)) c.1 c.2))
        ≡ some (ask (page_of bare) query asked))
      (sym h)
      (if-false _ none _ (ap not (ends_with-suffix bare (codes ".md")))
        ∙ ap (λ b. some (ask (page_of b) query asked)) (trim_suffix-suffix (codes ".md") bare))

page_of_twin-bare :
    (bare : Text) (query : Option Text)
    → HasNot b'?' (bare ++ codes ".md")
    → page_of_twin (with_query (bare ++ codes ".md") query) ≡ some (with_query (page_of bare) query)
unfolding with_query ask
page_of_twin-bare bare none h =
    page_of_twin-cut _ bare [] false (cut-none b'?' (bare ++ codes ".md") h)
page_of_twin-bare bare (some query) h =
    page_of_twin-cut _ bare query true (cut-here b'?' (bare ++ codes ".md") query h)

page_of-slash : (t : Text) → page_of ((t ++ codes "/") ++ codes "index.html") ≡ t ++ codes "/"
unfolding page_of
page_of-slash t =
    if-true _ _ _ (
      ap (ends_with (codes "/index.html")) (append_assoc t (codes "/") (codes "index.html"))
      ∙ ends_with-suffix t (codes "/index.html"))
    ∙ trim_suffix-suffix (codes "index.html") (t ++ codes "/")

page_of-other : (s : Text) → ends_with (codes "/index.html") s ≡ false → page_of s ≡ s
unfolding page_of
page_of-other s h = if-false _ _ _ h

HasNot-append : (c : ℕ) (s t : Text) → HasNot c s → HasNot c t → HasNot c (s ++ t)
HasNot-append c s t h k = any-append (λ d. c == d) s t ∙ ground (arith, h, k)

-- A twin made of a text that `page_of` reads as the page.
twin-page :
    (twin bare head : Text) (query : Option Text)
    → twin ≡ bare ++ codes ".md"
    → HasNot b'?' bare
    → page_of bare ≡ head
    → page_of_twin (with_query twin query) ≡ some (with_query head query)
twin-page twin bare head query same h page =
    ap (λ s. page_of_twin (with_query s query)) same
    ∙ page_of_twin-bare bare query (HasNot-append b'?' bare (codes ".md") h refl)
    ∙ ap (λ s. some (with_query s query)) page

page_of-index :
    (head : Text) → ends_with (codes "/") head ≡ true → page_of (head ++ codes "index.html") ≡ head
page_of-index head e =
    let (t, same) = ends_with-append (codes "/") head e in
    subst (λ s. page_of (s ++ codes "index.html") ≡ s) (sym same) (page_of-slash t)

-- The page of a page's Markdown twin is the page, with the query it has, for a page whose URL does
-- not end in "/index.html" before the query.
pub page_of_twin-twin_of :
    (head : Text) (query : Option Text)
    → HasNot b'?' head
    → ends_with (codes "/index.html") head ≡ false
    → page_of_twin (with_query (twin_of head) query) ≡ some (with_query head query)
unfolding twin_of
page_of_twin-twin_of head query h k = elim (Bool-cases (ends_with (codes "/") head)) [
  | inl e ↦
      twin-page _ (head ++ codes "index.html") head query
        (if-true _ _ _ e ∙ sym (append_assoc head (codes "index.html") (codes ".md")))
        (HasNot-append b'?' head (codes "index.html") h refl) (page_of-index head e)
  | inr e ↦ twin-page _ head head query (if-false _ _ _ e) h (page_of-other head k)
]
