-- ===== src/Site/Nav/Flatten.antt =====
-- internal/site/nav/nav.go: `flattener`. `seen` holds exactly the URLs of the placements.
use docsearch.Maps.{has}
use docsearch.Sync.{itoa}
use docsearch.Site.Nav.Titles.{title_or}
use docsearch.Site.Nav.{Placement, Go, NavTree, node, nil}
use docsearch.Prelude.{ℕ, ◌+◌, ◌||◌, List, [], ◌∷◌, ◌++◌, if◌then◌else◌, is_empty, Text, codes}

pub record Flattener : Type 0 where
  pub seen : List Text
  pub placements : List Placement

module _ ⦃go : Go⦄ where
  -- `f.add`, of the node's title and URL.
  unfoldable pub add_placement : Text → Text → Text → List Text → Flattener → Flattener
  unfolding title_or has
  add_placement title url section ancestry f =
      let placed : Placement = record {
        url = url;
        section = section;
        title = title_or title url;
        ancestry = ancestry;
      } in
      let longer : Flattener = record f {
        seen = url ∷ f.seen;
        placements = f.placements ++ placed ∷ [];
      } in
      if is_empty url || has url f.seen then f else longer

  unfoldable pub section_of : Text → ℕ → Text
  unfolding itoa
  section_of path i = if is_empty path then itoa (i + 1) else path ++ codes "." ++ itoa (i + 1)

  -- `f.walk(items, path, ancestry)` from the item at position `i` on.
  unfoldable pub walk_nodes : NavTree → ℕ → Text → List Text → Flattener → Flattener
  unfolding add_placement section_of
  walk_nodes nil i path ancestry f = f
  walk_nodes (node title url children rest) i path ancestry f =
      let section = section_of path i in
      let next = if is_empty title then ancestry else ancestry ++ title ∷ [] in
      walk_nodes rest (i + 1) path ancestry
        (walk_nodes children 0 section next (add_placement title url section ancestry f))

  unfoldable pub flatten_nodes : NavTree → Text → List Placement
  unfolding walk_nodes
  flatten_nodes nodes prefix =
      (walk_nodes nodes 0 prefix [] record { seen = []; placements = [] }).placements
