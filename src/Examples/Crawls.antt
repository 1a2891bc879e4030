-- ===== src/Examples/Crawls.antt =====
-- A crawl of a small site: a seed that declares itself and one page, links and a duplicate.
use docsearch.Site.Crawl.Run.Whole.{crawl-ends, crawl-once, crawl-accounted, crawl-bounded}
use docsearch.Site.Crawl.Walk.Sound.{accounted}
use docsearch.Site.Crawl.Html.{refusal, is_html}
use docsearch.Site.Crawl.Run.{crawl, with_defaults}
use docsearch.Site.Crawl.{
  Options, Error, Crawler, Page, failed, out_of_fuel, page_urls, following_links, contains, add_all,
  collapsed, not_fetched, discover_phase, fetch_phase,
}
use docsearch.Results.{Result, ok, err}
use docsearch.Site.Web.{LinkElement, Web, Fetched}
use docsearch.Prelude.{
  ℕ, ◌+◌, true, false, not, ◌||◌, none, List, [], ◌∷◌, if◌then◌else◌, Text, codes, text_eq, ◌-◌,
  ◌≤◌, ◌≡◌, refl, ◌≢◌, length, count_if,
}

abbrev site_pages : Text → List Text
site_pages u = if text_eq u (codes "a") then codes "b" ∷ codes "c" ∷ codes "d" ∷ [] else []

abbrev declared_canonical : Text → List LinkElement
declared_canonical u =
    if text_eq u (codes "c")
    then (record { rel = codes "Canonical"; href = codes "b" }) ∷ []
    else []

abbrev answer_for : Text → Result Text Fetched
answer_for u =
    if text_eq u (codes "e")
    then err (codes "refused")
    else ok (record { status = 200; content_type = codes "text/html"; body = u; final_url = u })

-- The world counts requests; the body of a page is its URL.
abbrev small_web : Web ℕ Unit Unit
small_web = record {
  fetch = λ u revalidate n. (answer_for u, n + 1);
  reserve = λ n w. w;
  discover = λ seed page revalidate n. ok (
    record {
      titles = (codes "a", codes "Home") ∷ [];
      urls = codes "a" ∷ codes "e" ∷ [];
      from_sitemap = [];
      from_index = codes "a" ∷ codes "e" ∷ [];
      from_llms_txt = [];
      notes = [];
    },
    n,
  );
  not_found_signature = λ origin revalidate n. ok (tt, n + 1);
  found = λ s. false;
  looks_absent = λ body s. ok false;
  index_page_candidates = λ body base. ok (site_pages body);
  in_prefix_scope = λ u seed. not (text_eq u (codes "d"));
  normalize = λ u. ok u;
  derive = λ order seed page. ok tt;
  hierarchy_notes = λ h. [];
  link_elements = λ body. ok (declared_canonical body);
  parse_url = λ u. ok u;
  resolve = λ base href. ok href;
  origin_of = λ u. u;
  fields = λ t. t ∷ [];
  trim_space = λ t. t;
  equal_fold = λ s t. text_eq s t || text_eq s (codes "Canonical");
  cancelled = λ w. none;
}

abbrev no_options : Options
no_options = record { max_pages = 0; link_depth = 0; revalidate = true }

abbrev outcome : Result Error (Crawler ℕ Unit × Unit)
outcome = crawl small_web (codes "a") no_options 0

abbrev page_at : Text → Text → Page
page_at u title = record { url = u; final_url = u; declared_title = title; body = u }

abbrev last_state : Crawler ℕ Unit
last_state = record {
  world = 6;
  coverage = record {
    titles = (codes "a", codes "Home") ∷ [];
    urls = codes "a" ∷ codes "e" ∷ [];
    from_sitemap = [];
    from_index = codes "a" ∷ codes "e" ∷ [];
    from_llms_txt = [];
    notes = [];
  };
  signature = tt;
  seed = codes "a";
  opts = record { max_pages = 500; link_depth = 3; revalidate = true };
  followed = true;
  known = codes "a" ∷ codes "e" ∷ codes "b" ∷ codes "c" ∷ [];
  queue = [];
  pages =
      (codes "a", page_at (codes "a") (codes "Home")) ∷ (codes "b", page_at (codes "b") []) ∷ [];
  order = codes "a" ∷ codes "b" ∷ [];
  unreachable = (codes "e", failed (codes "refused")) ∷ [];
  canonical_merges = (record { url = codes "c"; reason = codes "b" }) ∷ [];
  notes = following_links 3 ∷ collapsed 1 ∷ not_fetched 1 3 ∷ [];
  progress =
      (discover_phase, 0, 0)
      ∷ (fetch_phase, 0, 2)
      ∷ (fetch_phase, 1, 4)
      ∷ (fetch_phase, 2, 4)
      ∷ (fetch_phase, 3, 4)
      ∷ (fetch_phase, 4, 4)
      ∷ [];
}

crawl_run : crawl small_web (codes "a") no_options 0 ≡ ok (last_state, tt)
unfolding crawl contains add_all refusal is_html
crawl_run = refl

e-declared : contains (codes "e") last_state.coverage.urls ≡ true
unfolding contains
e-declared = refl

crawl-ends_example : crawl small_web (codes "a") no_options 0 ≢ err out_of_fuel
crawl-ends_example = crawl-ends small_web (codes "a") no_options 0

crawl-accounted_example :
    (last_state.queue ≡ []) × (accounted small_web (codes "e") last_state ≡ true)
crawl-accounted_example =
    crawl-accounted small_web (codes "a") no_options 0 last_state tt (codes "e") crawl_run
      e-declared

crawl-once_example :
    (last_state.order ≡ page_urls last_state.pages)
    × ((u : Text) → count_if (λ v. text_eq v u) last_state.order ≤ 1)
crawl-once_example = crawl-once small_web (codes "a") no_options 0 last_state tt crawl_run

crawl-bounded_example :
    length last_state.order + length last_state.unreachable
    ≤ 1
      + length last_state.coverage.urls
      + ((with_defaults small_web no_options).max_pages
          - length (add_all last_state.coverage.urls []))
crawl-bounded_example = crawl-bounded small_web (codes "a") no_options 0 last_state tt crawl_run
