-- ===== src/Site/Discover/Run.antt =====
-- internal/site/discover/discover.go: `Discover`, from the manifests to the page set.
use docsearch.Sync.{itoa}
use docsearch.Site.Discover.Union.{
  scoped_and_sorted, index_page_candidates, add_llms_entries, settle,
}
use docsearch.Site.Discover.Manifests.{
  sitemap_roots, read_manifests, manifest_dirs, read_note, sitemaps_from_robots, Listed,
}
use docsearch.Site.Discover.Sitemaps.{Sitemaps, read_all}
use docsearch.Site.Address.{Net, normalize}
use docsearch.Site.Discover.{Fetcher, Parsers, Net, Fetched, origin_of}
use docsearch.Site.Web.{Coverage, Fetched}
use docsearch.Prelude.{
  ℕ, Bool, not, Option, none, some, List, [], ◌∷◌, ◌++◌, ltb, ◌==◌, if◌then◌else◌, length, is_empty,
  Text, codes,
}
use docsearch.Results.{ok, err, ◌>>=◌, Result, or_err}

pub data Stop : Type 0 where
  because : Text → Stop
  out_of_fuel : Stop

abbrev pub empty_coverage : Coverage
empty_coverage = record {
  titles = [];
  urls = [];
  from_sitemap = [];
  from_index = [];
  from_llms_txt = [];
  notes = [];
}

module _ {W : Type 0} (f : Fetcher W) (p : Parsers) ⦃net : Net⦄ where
  unfoldable pub read_or_stop : Option (Sitemaps W) → Result Stop (Sitemaps W)
  read_or_stop none = err out_of_fuel
  read_or_stop (some s) = ok s

  unfoldable pub with_dirs : {A : Type 0} → Option A → Result Stop A
  with_dirs none = err out_of_fuel
  with_dirs (some dirs) = ok dirs

  -- `sitemapCandidates`.
  unfoldable pub sitemap_candidates : ℕ → Text → Bool → List Text → W → Result Stop (Sitemaps W)
  unfolding sitemap_roots read_all sitemaps_from_robots origin_of read_or_stop
  sitemap_candidates fuel seed revalidate dirs world =
      let (named, after) = sitemaps_from_robots f p (origin_of seed) world in
      or_err because named >>= λ names.
      let (queue, notes) = sitemap_roots f p (origin_of seed) dirs names in
      read_or_stop (
        read_all f p fuel revalidate
          (record { world = after; queue = queue; seen = []; pages = []; notes = notes }))

  unfoldable pub with_sitemap : Text → List Text → List Text → Coverage
  unfolding scoped_and_sorted itoa
  with_sitemap seed sitemap notes =
      let kept = scoped_and_sorted sitemap seed in
      let note =
        codes "sitemap declares "
        ++ itoa (length sitemap)
        ++ codes " URL(s), "
        ++ itoa (length kept)
        ++ codes " under the seed" in
      record empty_coverage {
        from_sitemap = kept;
        notes = if is_empty sitemap then notes else notes ++ note ∷ [];
      }

  -- `addIndexPage`, on the page.
  unfoldable pub index_from : Text → Fetched → Coverage → Result Stop Coverage
  unfolding index_page_candidates
  index_from seed page c =
      if not (page.status == 200)
      then ok c
      else or_err because (index_page_candidates p page.body seed) >>= λ links.
          ok (record c { from_index = links })

  unfoldable pub index_answer : Text → Result Text Fetched → Coverage → Result Stop Coverage
  unfolding index_from
  index_answer seed (ok page) c = index_from seed page c
  index_answer seed (err e) c = ok (record c { notes = c.notes ++ (codes "seed page: " ++ e) ∷ [] })

  unfoldable pub add_index_page :
      Text → Option Fetched → Bool → Coverage → W → Result Stop Coverage × W
  unfolding index_from index_answer
  add_index_page seed (some page) revalidate c world = (index_from seed page c, world)
  add_index_page seed none revalidate c world =
      let (answer, after) = f.fetch seed revalidate world in (index_answer seed answer c, after)

  -- `addLLMsTxt`, on what the files list.
  unfoldable pub list_entries : Text → Listed → Coverage → Coverage
  unfolding add_llms_entries read_note itoa
  list_entries seed l c =
      let (next, twins) =
        add_llms_entries l.entries seed 0 (record c { notes = c.notes ++ read_note f p l }) in
      let note =
        codes "llms.txt lists "
        ++ itoa twins
        ++ codes " Markdown twin(s); each is crawled as the HTML page it mirrors" in
      if ltb 0 twins then record next { notes = next.notes ++ note ∷ [] } else next

  unfoldable pub with_llms_txt : Text → Bool → List Text → Coverage → W → Coverage × W
  unfolding read_manifests list_entries
  with_llms_txt seed revalidate dirs c world =
      let (l, after) =
        read_manifests f p dirs revalidate (record { entries = []; notes = []; read = [] }) world in
      (list_entries seed l c, after)

  -- What follows the sitemaps in `Discover`.
  unfoldable pub after_sitemaps :
      Text → Option Fetched → Bool → List Text → Sitemaps W → Result Stop (Coverage × W)
  unfolding with_sitemap add_index_page with_llms_txt settle
  after_sitemaps seed seed_page revalidate dirs s =
      let (indexed, world) =
        add_index_page seed seed_page revalidate (with_sitemap seed s.pages s.notes) s.world in
      indexed >>= λ c.
      let (listed, after) = with_llms_txt seed revalidate dirs c world in
      ok (settle seed listed, after)

  -- `Discover`; the fuel is for the sitemaps.
  unfoldable pub discover : ℕ → Text → Option Fetched → Bool → W → Result Stop (Coverage × W)
  unfolding sitemap_candidates after_sitemaps manifest_dirs normalize with_dirs
  discover fuel raw seed_page revalidate world = or_err because (normalize raw) >>= λ seed.
      with_dirs (manifest_dirs f p seed) >>= λ dirs.
      sitemap_candidates fuel seed revalidate dirs world >>= λ s.
      after_sitemaps seed seed_page revalidate dirs s
