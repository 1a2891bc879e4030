-- ===== src/Site/Nav/Once.antt =====
-- internal/site/nav/nav.go: the URLs of the tree that `urlPathTree` makes.
use mathlib.Core.Bool.{true}
use docsearch.Site.Nav.Titles.{segments_of, title_from_slug, path_of}
use docsearch.Site.Nav.Paths.{
  to_nodes, Branches, append_leaf, new_branch, hang, place_path, place_paths, url_path_tree, leaf,
  none_left, subtree,
}
use docsearch.Maps.{has, has-append}
use docsearch.Prelude.{
  ℕ, zero, suc, ◌<◌, ◌≡◌, refl, ap, ◌∙◌, inl, inr, Bool, false, ◌||◌, List, [], ◌∷◌, ◌++◌, arith,
  leb, tests, Bool-cases, length, drop, is_empty, Text, codes, text_eq,
}
use docsearch.Site.Nav.{page, Go, pages_of}

abbrev holds : Text → Branches → Bool
holds u none_left = false
holds u (leaf t v rest) = has u (page v) || holds u rest
holds u (subtree p t children rest) = holds u children || holds u rest

holds-pages : (u : Text) (b : Branches) → has u (pages_of (to_nodes b)) ≡ holds u b
unfolding to_nodes pages_of has page
holds-pages u none_left = refl
holds-pages u (leaf t v rest) =
    has-append u (page v) (pages_of (to_nodes rest))
    ∙ ap (λ b. has u (page v) || b) (holds-pages u rest)
holds-pages u (subtree p t children rest) =
    has-append u (pages_of (to_nodes children)) (pages_of (to_nodes rest))
    ∙ ground (arith, holds-pages u children, holds-pages u rest)

abbrev Adds : Text → Text → Branches → Branches → Type 0
Adds u url b added = holds u added ≡ (has u (page url) || holds u b)

append_leaf-Adds : (u title url : Text) (b : Branches) → Adds u url b (append_leaf title url b)
append_leaf-Adds u title url none_left = ground arith
append_leaf-Adds u title url (leaf t v rest) = ground (arith, append_leaf-Adds u title url rest)
append_leaf-Adds u title url (subtree p t children rest) =
    ground (arith, append_leaf-Adds u title url rest)

not_same : (u raw : Text) → is_empty u ≡ false → is_empty raw ≡ true → text_eq raw u ≡ false
unfolding text_eq
not_same (x ∷ u) [] h e = refl
not_same [] raw h e = cc h
not_same (x ∷ u) (y ∷ raw) h e = cc e

module _ ⦃go : Go⦄ where
  new_branch-Adds :
      (u prefix seg : Text) (more : List Text) (url : Text)
      → Adds u url none_left (new_branch prefix (seg ∷ more) url)
  unfolding new_branch
  new_branch-Adds u prefix seg [] url = ground arith
  new_branch-Adds u prefix seg (next ∷ more) url =
      ground (arith, new_branch-Adds u (prefix ++ codes "/" ++ seg) next more url)

  hang-Adds :
      (u : Text) (b : Branches) (prefix seg : Text) (more : List Text) (url : Text)
      → Adds u url b (hang b prefix (seg ∷ more) url)
  unfolding hang
  hang-Adds u none_left prefix seg more url = new_branch-Adds u prefix seg more url
  hang-Adds u (leaf t v rest) prefix seg more url =
      ground (arith, hang-Adds u rest prefix seg more url)
  hang-Adds u (subtree p t children rest) prefix seg [] url =
      ground (arith, hang-Adds u rest prefix seg [] url)
  hang-Adds u (subtree p t children rest) prefix seg (next ∷ more) url =
      elim (Bool-cases (text_eq p (prefix ++ codes "/" ++ seg))) [
        | inl e ↦ rw e (ground (arith, hang-Adds u children p next more url))
        | inr e ↦ rw e (ground (arith, hang-Adds u rest prefix seg (next ∷ more) url))
      ]

  drop-more :
      (n : ℕ) (xs : List Text)
      → n < length xs
      → (x : Text) × (ys : List Text) × (drop n xs ≡ x ∷ ys)
  drop-more n [] h = absurd (omega (arith, h))
  drop-more zero (x ∷ xs) h = (x, xs, refl)
  drop-more (suc n) (x ∷ xs) h = drop-more n xs (omega (arith, h))

  place_path-Adds :
      (u : Text) (n : ℕ) (raw : Text) (b : Branches) → Adds u raw b (place_path n raw b)
  unfolding place_path
  place_path-Adds u n raw b = elim (Bool-cases (leb (length (segments_of raw)) n)) [
    | inl e ↦ rw e (append_leaf-Adds u (title_from_slug (path_of raw)) raw b)
    | inr e ↦ rw e (
        let (x, ys, h) = drop-more n (segments_of raw) (omega (tests, e)) in
        rw h (hang-Adds u b [] x ys raw))
  ]

  moved :
      (u raw : Text)
      → is_empty u ≡ false
      → (x y : Bool) → (x || (has u (page raw) || y)) ≡ (text_eq raw u || x || y)
  unfolding page has
  moved u raw h x y = elim (Bool-cases (is_empty raw)) [
    | inl e ↦ rw e (ground (arith, not_same u raw h e))
    | inr e ↦ rw e (ground arith)
  ]

  place_paths-holds :
      (u : Text) (n : ℕ) (urls : List Text) (b : Branches)
      → is_empty u ≡ false
      → holds u (place_paths n urls b) ≡ (has u urls || holds u b)
  unfolding place_paths has
  place_paths-holds u n [] b h = refl
  place_paths-holds u n (raw ∷ urls) b h =
      place_paths-holds u n urls (place_path n raw b) h
      ∙ ap (λ b. has u urls || b) (place_path-Adds u n raw b)
      ∙ moved u raw h (has u urls) (holds u b)

  pub url_path_tree-pages :
      (u : Text) (urls : List Text) (seed : Text)
      → is_empty u ≡ false
      → has u (pages_of (url_path_tree urls seed)) ≡ has u urls
  unfolding url_path_tree
  url_path_tree-pages u urls seed h =
      holds-pages u _ ∙ place_paths-holds u _ urls none_left h ∙ ground arith
