-- ===== src/Site/Crawl/Walk.antt =====
-- The frontier: what is kept, what is queued, and the walk.
pub mod Visited
pub mod Sound
pub mod Kept
pub mod Ends
use mathlib.Core.Option.{Option}
use docsearch.Results.{Result, or_err, ok, err, ◌>>=◌}
use docsearch.Site.Crawl.Html.{canonical_of, refusal}
use docsearch.Site.Crawl.{
  Crawler, Entry, put_page, Reason, contains, title_of, fetch_phase, Error, page_urls, cause,
  add_known, failed, out_of_fuel, refused, Refusal,
}
use docsearch.Site.Web.{Web, Fetched}
use docsearch.Prelude.{
  ℕ, zero, suc, ◌+◌, not, ◌||◌, none, some, List, [], ◌∷◌, ◌++◌, arith, leb, if◌then◌else◌, length,
  is_empty, Text, text_eq, ◌-◌,
}

-- `ctx.Err()` at the head of a round.
abbrev pub unless_cancelled : {A : Type 0} → Option Text → Result Error A → Result Error A
unless_cancelled none m = m
unless_cancelled (some e) m = err (cause e)

module _ {W S H : Type 0} (web : Web W S H) where
  -- One round of the loop in `queueLinks`, behind its budget.
  unfoldable pub admit : ℕ → Text → Crawler W S → Crawler W S
  admit depth link c =
      if contains link c.known || not (web.in_prefix_scope link c.seed) then c else record c {
        known = c.known ++ link ∷ [];
        queue = c.queue ++ (record { url = link; depth = depth + 1 }) ∷ [];
      }

  unfoldable pub queue_from : ℕ → List Text → Crawler W S → Crawler W S
  unfolding admit
  queue_from depth [] c = c
  queue_from depth (link ∷ links) c =
      let rest = queue_from depth links (admit depth link c) in
      if leb c.opts.max_pages (length c.known) then c else rest

  unfoldable pub queue_links : Text → Entry → Crawler W S → Result Error (Crawler W S)
  unfolding queue_from
  queue_links body entry c = or_err cause (web.index_page_candidates body entry.url) >>= λ links.
      ok (queue_from entry.depth links c)

  -- The end of `keep`: the page is stored under `key`.
  unfoldable pub store : Text → Entry → Fetched → Crawler W S → Crawler W S
  unfolding put_page title_of
  store key entry res c = record c {
    pages =
        put_page key
          (record {
            url = key;
            final_url = res.final_url;
            declared_title = title_of entry.url c.coverage.titles;
            body = res.body;
          })
          c.pages;
    order = c.order ++ key ∷ [];
  }

  unfoldable pub follow : Entry → Fetched → Crawler W S → Result Error (Crawler W S)
  unfolding queue_links
  follow entry res c =
      if not c.followed || leb c.opts.link_depth entry.depth
      then ok c
      else queue_links res.body entry c

  unfoldable pub merge : Entry → Text → Crawler W S → Crawler W S
  merge entry canonical c = record c {
    canonical_merges = c.canonical_merges ++ (record { url = entry.url; reason = canonical }) ∷ [];
  }

  -- `keep`, once the canonical URL is known.
  unfoldable pub keep_as : Text → Entry → Fetched → Crawler W S → Result Error (Crawler W S)
  unfolding store follow merge
  keep_as canonical entry res c =
      if is_empty canonical
        || text_eq canonical entry.url
        || not (web.in_prefix_scope canonical c.seed)
      then follow entry res (store entry.url entry res c)
      else if contains canonical (page_urls c.pages)
      then ok (merge entry canonical c)
      else follow entry res (
          store canonical entry res
            (record (merge entry canonical c) { known = add_known canonical c.known }))

  unfoldable pub keep : Entry → Fetched → Crawler W S → Result Error (Crawler W S)
  unfolding keep_as canonical_of
  keep entry res c = or_err cause (canonical_of web res.body entry.url) >>= λ canonical.
      keep_as canonical entry res c

  unfoldable pub give_up : Text → Reason → Crawler W S → Crawler W S
  give_up url reason c = record c { unreachable = c.unreachable ++ (url, reason) ∷ [] }

  -- `read` and the end of `visit`, on the answer to the request.
  unfoldable pub take_answer :
      Entry → Result Text Fetched → Crawler W S → Result Error (Crawler W S)
  unfolding keep give_up
  take_answer entry (err e) c = ok (give_up entry.url (failed e) c)
  take_answer entry (ok res) c = or_err cause (refusal web c.signature res) >>= λ answer.
      elim answer [ some why ↦ ok (give_up entry.url (refused why) c) | none ↦ keep entry res c ]

  unfoldable pub visit : Entry → Crawler W S → Result Error (Crawler W S)
  unfolding take_answer
  visit entry c =
      if contains entry.url (page_urls c.pages)
      then ok c
      else let (answer, world) = web.fetch entry.url c.opts.revalidate c.world in
        take_answer entry answer (record c { world = world })

  unfoldable pub report : ℕ → Crawler W S → Crawler W S
  report done c = record c { progress = c.progress ++ (fetch_phase, done, length c.known) ∷ [] }

  -- One round of the loop in `walk`, on the queue; `next` is the rest of the loop.
  unfoldable pub turn :
      (Crawler W S → Result Error (Crawler W S))
      → ℕ
      → List Entry
      → Crawler W S
      → Result Error (Crawler W S)
  unfolding visit report
  turn next done [] c = ok (report done c)
  turn next done (entry ∷ rest) c =
      unless_cancelled (web.cancelled c.world)
        (visit entry (record (report done c) { queue = rest }) >>= next)

  -- The loop, on fuel.
  unfoldable pub walk : ℕ → ℕ → Crawler W S → Result Error (Crawler W S)
  unfolding turn
  walk zero done c = if is_empty c.queue then ok (report done c) else err out_of_fuel
  walk (suc fuel) done c = turn (walk fuel (done + 1)) done c.queue c
