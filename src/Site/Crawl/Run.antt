-- ===== src/Site/Crawl/Run.antt =====
-- The whole crawl: discovery, the seed page, the walk and the summary.
pub mod Walked
pub mod Whole
use docsearch.Site.Crawl.Html.{refusal}
use docsearch.Site.Crawl.Walk.{keep, walk}
use docsearch.Site.Crawl.{
  contains, Entry, Note, Options, Crawler, said, add_all, collapsed, default_max_pages, seed_failed,
  Error, following_links, discover_phase, not_fetched, default_link_depth, seed_status, answers_200,
  cause, Refusal, seed_not_kept, add_known, work,
}
use docsearch.Site.Web.{Web, Fetched, Coverage}
use docsearch.Results.{◌>>=◌, Result, err, ok, or_err}
use docsearch.Prelude.{
  ◌+◌, Bool, false, not, ◌&&◌, ◌||◌, Option, none, some, List, [], ◌∷◌, ◌++◌, map, arith, ◌==◌,
  if◌then◌else◌, length, is_empty, Text,
}

abbrev pub entries : List Text → List Entry
entries [] = []
entries (u ∷ us) = (record { url = u; depth = 0 }) ∷ entries us

module _ {W S H : Type 0} (web : Web W S H) where
  -- The seed page where it could be read, what is noted where it could not, and the world after.
  unfoldable pub fetch_seed : Text → Bool → W → Option Fetched × List Note × W
  fetch_seed seed revalidate world = elim (web.fetch seed revalidate world).0 [
    | err e ↦ (none, seed_failed seed e ∷ [], (web.fetch seed revalidate world).1)
    | ok res ↦
        if not (res.status == 200)
        then (none, seed_status seed res.status ∷ [], (web.fetch seed revalidate world).1)
        else (some res, [], (web.fetch seed revalidate world).1)
  ]

  -- Whether a source listed the page that the seed redirects to.
  unfoldable pub lists_final : Result Text Text → List Text → Bool
  unfolding contains
  lists_final (ok final) declared = contains final declared
  lists_final (err e) declared = false

  unfoldable pub keep_seed : Option Fetched → List Text → Crawler W S → Result Error (Crawler W S)
  unfolding keep
  keep_seed none declared c = ok c
  keep_seed (some res) declared c =
      if contains c.seed declared || lists_final (web.normalize res.final_url) declared
      then ok c
      else or_err cause (refusal web c.signature res) >>= λ answer. elim answer [
        | some why ↦ ok (record c { notes = c.notes ++ seed_not_kept c.seed why ∷ [] })
        | none ↦
            keep web (record { url = c.seed; depth = 0 }) res
              (record c { known = add_known c.seed c.known })
      ]

  unfoldable pub follows_links : Coverage → Bool
  follows_links cov = is_empty cov.from_sitemap && is_empty cov.from_llms_txt

  unfoldable pub opening_notes : List Note → Coverage → Options → S → List Note
  unfolding follows_links
  opening_notes seed_notes cov opts signature =
      seed_notes
      ++ (map said cov.notes
          ++ ((if follows_links cov then following_links opts.link_depth ∷ [] else [])
              ++ (if web.found signature then answers_200 ∷ [] else [])))

  -- The state that `run` reaches before it keeps the seed: `start` fills `known` and `queue`.
  unfoldable pub start : Text → Options → List Note → Coverage → S → W → Crawler W S
  unfolding opening_notes
  start seed opts seed_notes cov signature world = record {
    world = world;
    coverage = cov;
    signature = signature;
    seed = seed;
    opts = opts;
    followed = follows_links cov;
    known = add_all cov.urls [];
    queue = entries cov.urls;
    pages = [];
    order = [];
    unreachable = [];
    canonical_merges = [];
    notes = opening_notes seed_notes cov opts signature;
    progress = (discover_phase, 0, 0) ∷ [];
  }

  unfoldable pub summarize : Crawler W S → Crawler W S
  summarize c = record c {
    notes =
        c.notes
        ++ ((if is_empty c.canonical_merges then [] else collapsed (length c.canonical_merges) ∷ [])
            ++ (if is_empty c.unreachable
                then []
                else not_fetched (length c.unreachable) (length c.pages + length c.unreachable)
                  ∷ []));
  }

  abbrev pub seed_body : Option Fetched → Option Text
  seed_body none = none
  seed_body (some res) = some res.body

  -- The end of `run`.
  unfoldable pub conclude : Option Fetched → Crawler W S → Result Error (Crawler W S × H)
  unfolding summarize
  conclude page c =
      or_err cause (web.derive (summarize c).order c.seed (seed_body page)) >>= λ hierarchy. ok (
        record (summarize c) {
          notes = (summarize c).notes ++ map said (web.hierarchy_notes hierarchy);
        },
        hierarchy,
      )

  -- `run` behind discovery: the seed page is kept and the frontier is walked.
  unfoldable pub proceed : Option Fetched → Crawler W S → Result Error (Crawler W S)
  unfolding keep_seed walk
  proceed page c = keep_seed page c.coverage.urls c >>= λ d. walk web (work d) (length d.pages) d

  unfoldable pub run : Text → Options → W → Result Error (Crawler W S × H)
  unfolding fetch_seed start conclude proceed
  run seed opts world =
      let (page, seed_notes, world) = fetch_seed seed opts.revalidate world in
      or_err cause (web.discover seed page opts.revalidate world) >>= λ found.
      or_err cause (
        web.not_found_signature (web.origin_of seed) opts.revalidate
          (web.reserve (length found.0.urls) found.1))
      >>= λ signed.
          proceed page (start seed opts seed_notes found.0 signed.0 signed.1) >>= conclude page

  unfoldable pub with_defaults : Options → Options
  with_defaults opts = record {
    max_pages = if opts.max_pages == 0 then default_max_pages else opts.max_pages;
    link_depth = if opts.link_depth == 0 then default_link_depth else opts.link_depth;
    revalidate = opts.revalidate;
  }

  unfoldable pub crawl : Text → Options → W → Result Error (Crawler W S × H)
  unfolding run with_defaults
  crawl seed opts world =
      or_err cause (web.normalize seed) >>= λ seed. run seed (with_defaults opts) world
