-- ===== src/Site/Nav/Paths.antt =====
-- internal/site/nav/nav.go: `urlPathTree`. The tree it builds, in which a subtree stands with its
-- prefix, the key it has in the source's `groups`: a map from prefixes to nodes of the tree, which
-- holds a subtree exactly where the subtree above it has it among its children.
use docsearch.Site.Nav.Titles.{title_from_slug, segments_of, path_of}
use docsearch.Site.Nav.{NavTree, Go, nil, node}
use docsearch.Prelude.{
  ℕ, List, [], ◌∷◌, ◌++◌, leb, if◌then◌else◌, length, drop, Text, codes, text_eq,
}

pub data Branches : Type 0 where
  none_left : Branches
  leaf : Text → Text → Branches → Branches
  subtree : Text → Text → Branches → Branches → Branches

unfoldable pub to_nodes : Branches → NavTree
to_nodes none_left = nil
to_nodes (leaf title url rest) = node title url nil (to_nodes rest)
to_nodes (subtree prefix title children rest) = node title [] (to_nodes children) (to_nodes rest)

abbrev pub append_leaf : Text → Text → Branches → Branches
append_leaf title url none_left = leaf title url none_left
append_leaf title url (leaf t u rest) = leaf t u (append_leaf title url rest)
append_leaf title url (subtree p t children rest) =
    subtree p t children (append_leaf title url rest)

module _ ⦃go : Go⦄ where
  -- The groups below `prefix` that a page's segments make where none of them is there.
  unfoldable pub new_branch : Text → List Text → Text → Branches
  unfolding title_from_slug
  new_branch prefix [] url = none_left
  new_branch prefix (seg ∷ []) url = leaf (title_from_slug seg) url none_left
  new_branch prefix (seg ∷ more) url =
      let below = prefix ++ codes "/" ++ seg in
      subtree below (title_from_slug seg) (new_branch below more url) none_left

  -- The page's segments below the node whose children these are.
  unfoldable pub hang : Branches → Text → List Text → Text → Branches
  unfolding new_branch title_from_slug text_eq
  hang none_left prefix segments url = new_branch prefix segments url
  hang (leaf t u rest) prefix segments url = leaf t u (hang rest prefix segments url)
  hang (subtree p t children rest) prefix (seg ∷ next ∷ more) url =
      let here = subtree p t (hang children p (next ∷ more) url) rest in
      let later = subtree p t children (hang rest prefix (seg ∷ next ∷ more) url) in
      if text_eq p (prefix ++ codes "/" ++ seg) then here else later
  hang (subtree p t children rest) prefix segments url =
      subtree p t children (hang rest prefix segments url)

  -- One round of the loop of `urlPathTree`.
  unfoldable pub place_path : ℕ → Text → Branches → Branches
  unfolding hang segments_of title_from_slug path_of
  place_path base_depth raw roots =
      if leb (length (segments_of raw)) base_depth
      then append_leaf (title_from_slug (path_of raw)) raw roots
      else hang roots [] (drop base_depth (segments_of raw)) raw

  unfoldable pub place_paths : ℕ → List Text → Branches → Branches
  unfolding place_path
  place_paths base_depth [] roots = roots
  place_paths base_depth (raw ∷ urls) roots =
      place_paths base_depth urls (place_path base_depth raw roots)

  unfoldable pub url_path_tree : List Text → Text → NavTree
  unfolding place_paths segments_of to_nodes
  url_path_tree urls seed = to_nodes (place_paths (length (segments_of seed)) urls none_left)
