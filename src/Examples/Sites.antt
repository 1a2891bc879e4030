-- ===== src/Examples/Sites.antt =====
-- A small site: its manifests, its pages and its navigation.
use mathlib.Core.Path.{subst}
use docsearch.Site.Discover.Manifests.{manifest_dirs, sitemaps_from_robots, sitemap_roots}
use docsearch.Site.Discover.Total.{
  DirRises, discover-ends, discover_cost, is_rooted, PathsAreRooted,
}
use docsearch.Site.Discover.Run.{out_of_fuel}
use docsearch.Pystr.{is_space}
use docsearch.Site.Discover.Union.{declared_urls}
use docsearch.Site.Discover.Promise.{discover-scope, discover-times}
use docsearch.Site.Discover.Under.{IsUnder}
use docsearch.Site.Nav.Whole.{derive-once}
use docsearch.Site.Discover.Twins.{with_query, twin_of, page_of_twin-twin_of}
use docsearch.Site.Discover.Ends.{NestsAtMost}
use docsearch.Site.Discover.Reads.{logged, sitemap_candidates-once}
use docsearch.Enums.{StructureSource}
use docsearch.Site.Nav.Places.{placed_times}
use docsearch.Site.Nav.Derive.{Declared, Hierarchy, derive, places, placed_by_path}
use docsearch.Site.Address.Clean.{
  HasNoDots, remove_dot_segments-HasNoDots, remove_dot_segments_idem,
}
use docsearch.Site.Discover.Sitemaps.{Sitemaps, read_sitemap}
use docsearch.Maps.{has, times, bit}
use docsearch.Site.Web.{Coverage}
use docsearch.Site.Discover.Run.{Stop, discover, sitemap_candidates}
use docsearch.Strings.{starts_with, ends_with}
use docsearch.Site.Discover.{
  Parsers, Fetcher, start_element, char_data, end_element, page_of_twin, origin_of,
}
use docsearch.Site.Address.{Net, normalize, remove_dot_segments, Url}
use docsearch.Prelude.{
  ℕ, ◌+◌, true, ◌||◌, none, [], ◌∷◌, ◌++◌, arith, if◌then◌else◌, drop, Text, codes, text_eq, ◌≡◌,
  refl, false, some, List, ◌≤◌, ◌≢◌, ◌<◌, inl, inr, Option, ◌==◌, Option-cases, length, is_empty,
}
use docsearch.Results.{ok, Result, ◌>>=◌, err, ok-injective}
use docsearch.Site.Nav.{node, nil, Go, Placement}

abbrev address_of : Text → Text
address_of path = codes "http://h" ++ path

abbrev from_slash : Text → Text
from_slash [] = []
from_slash (c ∷ cs) = let rest = from_slash cs in if c == b'/' then c ∷ cs else rest

-- The path is what follows the host, or a path alone.
abbrev address_path : Text → Text
address_path u =
    if starts_with (codes "http://") u
    then from_slash (drop 7 u)
    else if starts_with (codes "/") u
    then u
    else []

-- A parser of the URLs of one host.
abbrev host_net : Net
host_net = record {
  parse_url = λ u. ok (record {
    scheme = codes "http";
    host = codes "h";
    hostname = codes "h";
    port = [];
    path = address_path u;
    escaped_path = address_path u;
    raw_query = [];
  });
  resolve = λ base href. ok href;
  to_lower = λ t. t;
  equal_fold = text_eq;
  trim_space = λ t. t;
}

-- What stands before the last slash.
abbrev before_slash : Text → Option Text
before_slash [] = none
before_slash (c ∷ cs) = elim (before_slash cs) [
  | some head ↦ some (c ∷ head)
  | none ↦ if c == b'/' then some [] else none
]

-- `path.Dir` of a path with no doubled slash and no dot segment.
abbrev parent_of : Option Text → Text
parent_of none = codes "."
parent_of (some head) = if is_empty head then codes "/" else head

abbrev small_parsers : Parsers
small_parsers = record {
  xml_tokens = λ body.
      if text_eq body (codes "map")
      then start_element (codes "urlset")
        ∷ start_element (codes "loc")
        ∷ char_data (codes "/d/a")
        ∷ end_element
        ∷ start_element (codes "loc")
        ∷ char_data (codes "/blog")
        ∷ []
      else [];
  hrefs = λ body. ok (codes "/d/b" ∷ codes "/about" ∷ []);
  llms_links = λ body. (codes "A", codes "/d/a.md") ∷ [];
  dir_of = λ dir. parent_of (before_slash dir);
}

-- Answers each request, and counts it.
abbrev small_fetcher : Fetcher ℕ
small_fetcher = record {
  fetch = λ u revalidate n. (
    ok (record {
      status =
          if text_eq u (codes "http://h/d/sitemap.xml")
            || text_eq u (codes "http://h/d")
            || text_eq u (codes "http://h/d/llms.txt")
          then 200
          else 404;
      content_type = [];
      body = codes "map";
      final_url = u;
    }),
    n + 1,
  );
  robots = λ u n. (ok [], n + 1);
}

abbrev found : Result Stop (Coverage × ℕ)
found = discover small_fetcher small_parsers ⦃net = host_net⦄ 10 (codes "/d") none true 0

abbrev found_coverage : Coverage
found_coverage = record {
  titles = (address_of (codes "/d/a"), codes "A") ∷ [];
  urls = address_of (codes "/d/b") ∷ address_of (codes "/d/a") ∷ [];
  from_sitemap = address_of (codes "/d/a") ∷ [];
  from_index = address_of (codes "/d/b") ∷ [];
  from_llms_txt = address_of (codes "/d/a") ∷ [];
  notes =
      codes "sitemap http://h/sitemap.xml: HTTP 404"
      ∷ codes "sitemap declares 2 URL(s), 1 under the seed"
      ∷ codes "llms.txt lists 1 Markdown twin(s); each is crawled as the HTML page it mirrors"
      ∷ codes
          "1 seed page link(s) outside the seed's path left out: a manifest declares the pages under it"
      ∷ [];
}

found_run : found ≡ ok (found_coverage, 6)
unfolding discover is_space
found_run = refl

seed_run : normalize ⦃net = host_net⦄ (codes "/d") ≡ ok (address_of (codes "/d"))
unfolding normalize
seed_run = refl

discover-scope_example :
    IsUnder ⦃net = host_net⦄ (address_of (codes "/d/b")) (address_of (codes "/d"))
unfolding has
discover-scope_example =
    discover-scope small_fetcher small_parsers ⦃net = host_net⦄ 10 (codes "/d") none true 0
      found_coverage 6 (address_of (codes "/d")) (address_of (codes "/d/b")) found_run seed_run refl
      refl

discover-times_example :
    times (address_of (codes "/d/a")) found_coverage.urls
    ≡ bit (has (address_of (codes "/d/a")) (declared_urls found_coverage))
discover-times_example =
    discover-times small_fetcher small_parsers ⦃net = host_net⦄ 10 (codes "/d") none true 0
      found_coverage 6 (address_of (codes "/d/a")) found_run

-- A sitemap that nests itself twice.
abbrev looping_parsers : Parsers
looping_parsers = record small_parsers {
  xml_tokens = λ body.
      start_element (codes "sitemapindex")
      ∷ start_element (codes "loc")
      ∷ char_data (codes "m")
      ∷ char_data (codes "m")
      ∷ [];
}

abbrev any_fetcher : Fetcher Unit
any_fetcher = record {
  fetch = λ u revalidate w.
      (ok (record { status = 200; content_type = []; body = []; final_url = u }), w);
  robots = λ u w. (ok (codes "Sitemap: m"), w);
}

abbrev looped : Sitemaps (Unit × List Text)
looped = record {
  world = (tt, codes "m" ∷ []);
  queue = [];
  seen = codes "m" ∷ [];
  pages = [];
  notes = codes "robots.txt names 1 sitemap(s)" ∷ [];
}

looped_run :
    sitemap_candidates
      (logged any_fetcher)
      looping_parsers
      ⦃net = record host_net { equal_fold = λ s t. true }⦄
      9
      []
      true
      []
      (tt, [])
    ≡ ok looped
unfolding sitemap_candidates logged is_space
looped_run = refl

sitemap_candidates-once_example :
    times (codes "m") looped.world.1 ≡ bit (has (codes "m") looped.world.1)
sitemap_candidates-once_example =
    sitemap_candidates-once any_fetcher looping_parsers
      ⦃net = record host_net { equal_fold = λ s t. true }⦄ 9 [] true [] tt looped (codes "m")
      looped_run

looping-NestsAtMost : NestsAtMost any_fetcher looping_parsers ⦃net = host_net⦄ 2
unfolding read_sitemap
looping-NestsAtMost ref revalidate world = omega arith

before_slash-shorter : (s head : Text) → before_slash s ≡ some head → length head < length s
before_slash-shorter [] head h = cc h
before_slash-shorter (c ∷ cs) head h = elim (Option-cases (before_slash cs)) [
  | inl e ↦ ground (arith, h, e)
  | inr (rest, e) ↦ ground (arith, h, e, before_slash-shorter cs rest e)
]

looping-DirRises : DirRises looping_parsers
unfolding starts_with text_eq
looping-DirRises [] h k = cc h
looping-DirRises (c ∷ []) h k = absurd (ground (arith, h, k))
looping-DirRises (c ∷ d ∷ ds) h k = elim (Option-cases (before_slash (d ∷ ds))) [
  | inl e ↦ rw e (ground (arith, h))
  | inr (rest, e) ↦ rw e (ground (arith, h, before_slash-shorter (d ∷ ds) rest e))
]

from_slash-rooted : (s : Text) → is_rooted (from_slash s) ≡ true
unfolding starts_with
from_slash-rooted [] = refl
from_slash-rooted (c ∷ cs) = ground (arith, from_slash-rooted cs)

host-PathsAreRooted : PathsAreRooted host_net
host-PathsAreRooted raw rest u v h k =
    subst (λ (w : Url). is_rooted w.escaped_path ≡ true) (ok-injective k)
      (address_path-rooted (u.scheme ++ codes "://" ++ rest))
  where
    address_path-rooted : (s : Text) → is_rooted (address_path s) ≡ true
    address_path-rooted s = ground (arith, from_slash-rooted (drop 7 s))

looping_cost :
    discover_cost any_fetcher looping_parsers ⦃net = host_net⦄ 2
      (normalize ⦃net = host_net⦄ (codes "/d"))
      tt
    ≤ 62
unfolding normalize manifest_dirs sitemaps_from_robots sitemap_roots origin_of is_space
looping_cost = omega arith

discover-ends_example :
    discover any_fetcher looping_parsers ⦃net = host_net⦄ 62 (codes "/d") none true tt
    ≢ err out_of_fuel
discover-ends_example =
    discover-ends any_fetcher looping_parsers ⦃net = host_net⦄ 2 62 (codes "/d") none true tt
      looping-DirRises host-PathsAreRooted looping-NestsAtMost looping_cost

page_of_twin-twin_of_example :
    page_of_twin (with_query (twin_of (codes "/d/")) (some (codes "q")))
    ≡ some (with_query (codes "/d/") (some (codes "q")))
unfolding ends_with text_eq
page_of_twin-twin_of_example = page_of_twin-twin_of (codes "/d/") (some (codes "q")) refl refl

remove_dot_segments-HasNoDots_example : HasNoDots (remove_dot_segments (codes "/a/../b/./c/.."))
remove_dot_segments-HasNoDots_example = remove_dot_segments-HasNoDots (codes "/a/../b/./c/..")

remove_dot_segments_idem_example :
    remove_dot_segments (remove_dot_segments (codes "/a/..")) ≡ remove_dot_segments (codes "/a/..")
remove_dot_segments_idem_example = remove_dot_segments_idem (codes "/a/..")

abbrev small_go : Go
small_go = record {
  parse_path = λ u. some u;
  to_upper = λ t. t;
  to_lower = λ t. t;
  trim_space = λ t. t;
}

-- A sidebar that lists one page of three twice.
abbrev sidebar_page : Declared
sidebar_page = record {
  sidebar =
      node (codes "Guide") [] (node (codes "A") (codes "/a") nil (node [] (codes "/b") nil nil))
        (node (codes "Again") (codes "/a") nil nil);
  index = nil;
}

abbrev pages : List Text
pages = codes "/a" ∷ codes "/b" ∷ codes "/c/d" ∷ []

abbrev placed : Hierarchy
placed = record {
  placements =
      (record {
        url = codes "/a";
        section = codes "1.1";
        title = codes "A";
        ancestry = codes "Guide" ∷ [];
      })
      ∷ (record {
        url = codes "/b";
        section = codes "1.2";
        title = codes "b";
        ancestry = codes "Guide" ∷ [];
      })
      ∷ (record {
        url = codes "/c/d";
        section = codes "3.1.1";
        title = codes "d";
        ancestry = codes "c" ∷ [];
      })
      ∷ [];
  placed_by_path = codes "/c/d" ∷ [];
  notes =
      places StructureSource.sidebar_dom 2 3 ∷ placed_by_path 1 StructureSource.sidebar_dom ∷ [];
  source = StructureSource.sidebar_dom;
  inferred = false;
}

placed_run :
    derive ⦃go = small_go⦄ (λ html. ok sidebar_page) pages (codes "/") (some []) ≡ ok placed
unfolding derive
placed_run = refl

derive-once_example : placed_times (codes "/c/d") placed.placements ≡ bit (has (codes "/c/d") pages)
derive-once_example =
    derive-once ⦃go = small_go⦄ (λ html. ok sidebar_page) pages (codes "/") (some []) placed
      (codes "/c/d") placed_run refl

-- Two pages in one section: a sidebar whose first entry is not in the page set, and whose second
-- holds the one page that it places.
abbrev gapped_page : Declared
gapped_page = record {
  sidebar =
      node (codes "Y") (codes "/y") nil
        (node (codes "Z") [] (node (codes "C") (codes "/c") nil nil) nil);
  index = nil;
}

abbrev sections_of : List Placement → List Text
sections_of [] = []
sections_of (p ∷ ps) = p.section ∷ sections_of ps

abbrev gapped : Result Text (List Text)
gapped =
    derive ⦃go = small_go⦄ (λ html. ok gapped_page) (codes "/c" ∷ codes "/m" ∷ []) (codes "/")
      (some [])
    >>= λ h. ok (sections_of h.placements)

gapped_run : gapped ≡ ok (codes "2.1" ∷ codes "2.1" ∷ [])
unfolding derive
gapped_run = refl
