-- ===== src/Site/Nav/Derive.antt =====
-- internal/site/nav/nav.go: `covered_pages`, `bestCandidate`, `place` and `Derive`.
use docsearch.Site.Nav.Flatten.{flatten_nodes}
-- What a page declares of the site's tree: `sidebarTree` and `indexPageTree` of its document, which
-- goquery parses, or the error of the parser.
use docsearch.Sync.{itoa}
use docsearch.Site.Nav.Paths.{url_path_tree}
use docsearch.Maps.{has}
use docsearch.Enums.{StructureSource, ok}
use docsearch.Site.Nav.{NavTree, Placement, Go, node, nil}
use docsearch.Results.{◌>>=◌, Result, ok}
use docsearch.Prelude.{
  ℕ, ◌+◌, ◌*◌, Bool, true, false, not, Option, none, some, List, [], ◌∷◌, ◌++◌, ltb, if◌then◌else◌,
  length, is_empty, select, count_if, Text,
}

pub record Declared : Type 0 where
  pub sidebar : NavTree
  pub index : NavTree

-- A note, with the values it is given. A share is the number of pages that are placed; the size of
-- the page set goes with it.
pub data Note : Type 0 where
  places : StructureSource → ℕ → ℕ → Note
  falling_back : StructureSource → ℕ → ℕ → Note
  placed_by_path : ℕ → StructureSource → Note

pub record Hierarchy : Type 0 where
  pub placements : List Placement
  pub placed_by_path : List Text
  pub notes : List Note
  pub source : StructureSource
  pub inferred : Bool

-- `share` is the number of the pages that the source places, out of the page set.
pub record Candidate : Type 0 where
  pub placements : List Placement
  pub share : ℕ
  pub name : StructureSource

unfoldable pub urls_of : List Placement → List Text
urls_of [] = []
urls_of (p ∷ ps) = p.url ∷ urls_of ps

-- `covered_pages`, before the division by the size of the page set.
unfoldable pub covered_pages : List Placement → List Text → ℕ
unfolding urls_of has
covered_pages placements coverage = count_if (λ u. has u (urls_of placements)) coverage

module _ ⦃go : Go⦄ where
  -- One round of the loop of `bestCandidate`.
  unfoldable pub consider :
      List Text → StructureSource → NavTree → Candidate × List Note → Candidate × List Note
  unfolding flatten_nodes covered_pages
  consider coverage name nil (best, notes) = (best, notes)
  consider coverage name (node t u c r) (best, notes) =
      let placements = flatten_nodes (node t u c r) [] in
      let share = covered_pages placements coverage in
      let found : Candidate = record { placements = placements; share = share; name = name } in
      (
        if ltb best.share share then found else best,
        notes ++ places name share (length coverage) ∷ [],
      )

  abbrev pub no_candidate : Candidate
  no_candidate = record { placements = []; share = 0; name = StructureSource.url_path }

  -- The answer and the notes; `none` is a page that was not read.
  unfoldable pub best_candidate :
      (Text → Result Text Declared) → Option Text → List Text → Result Text (Candidate × List Note)
  unfolding consider
  best_candidate declared none coverage = ok (no_candidate, [])
  best_candidate declared (some seed_html) coverage = declared seed_html >>= λ trees. ok (
      consider coverage StructureSource.index_page trees.index
        (consider coverage StructureSource.sidebar_dom trees.sidebar (no_candidate, [])))

  unfoldable pub place : Candidate → List Text → Text → Hierarchy → Hierarchy
  unfolding urls_of url_path_tree flatten_nodes has itoa
  place best coverage seed h =
      let kept = select (λ p. has p.url coverage) best.placements in
      let missing = select (λ u. not (has u (urls_of kept))) coverage in
      let by_path = flatten_nodes (url_path_tree missing seed) (itoa (length kept + 1)) in
      let note = placed_by_path (length missing) best.name in
      let whole : Hierarchy = record {
        placements = kept;
        placed_by_path = h.placed_by_path;
        notes = h.notes;
        source = best.name;
        inferred = false;
      } in
      let filled : Hierarchy = record {
        placements = kept ++ by_path;
        placed_by_path = missing;
        notes = h.notes ++ note ∷ [];
        source = best.name;
        inferred = false;
      } in
      if is_empty missing then whole else filled

  abbrev pub by_path : List Note → Hierarchy
  by_path notes = record {
    placements = [];
    placed_by_path = [];
    notes = notes;
    source = StructureSource.url_path;
    inferred = true;
  }

  -- `Derive` on the best candidate; `minCoverage` is a half.
  unfoldable pub derive_from : List Text → Text → Candidate → List Note → Hierarchy
  unfolding place url_path_tree flatten_nodes
  derive_from coverage seed best notes =
      let note = falling_back best.name best.share (length coverage) in
      let said = if ltb 0 best.share then notes ++ note ∷ [] else notes in
      let flat = record (by_path said) {
        placements = flatten_nodes (url_path_tree coverage seed) [];
        placed_by_path = coverage;
      } in
      if ltb (best.share * 2) (length coverage)
      then flat
      else place best coverage seed (by_path notes)

  unfoldable pub derive :
      (Text → Result Text Declared) → List Text → Text → Option Text → Result Text Hierarchy
  unfolding best_candidate derive_from
  derive declared [] seed seed_html = ok (by_path [])
  derive declared (u ∷ urls) seed seed_html =
      best_candidate declared seed_html (u ∷ urls) >>= λ (best, notes).
      ok (derive_from (u ∷ urls) seed best notes)
