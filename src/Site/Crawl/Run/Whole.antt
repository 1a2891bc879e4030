-- ===== src/Site/Crawl/Run/Whole.antt =====
-- The crawl as a whole.
use docsearch.Site.Crawl.Run.Walked.{proceed-Finished, start-IsSound, length-entries}
use docsearch.Results.{◌>>=◌, Result, or_err, err}
use Prim.Native.Nat.{ℕ}
use docsearch.Site.Crawl.Walk.Visited.{Ensures}
use docsearch.Site.Crawl.Walk.Sound.{IsSound, accounted}
use docsearch.Site.Crawl.Run.{
  start, proceed, ok, conclude, run, summarize, seed_body, fetch_seed, crawl, with_defaults,
}
use docsearch.Site.Crawl.{
  add_all, contains, Crawler, Options, Note, Coverage, page_urls, Error, cause, out_of_fuel,
}
use docsearch.Site.Web.{Web, Fetched, Coverage}
use docsearch.Prelude.{
  ◌+◌, ◌≤◌, ◌≡◌, refl, ap, true, List, [], arith, length, Text, text_eq, count_if, Option, ◌-◌,
  is_empty, ◌≢◌,
}

module _ {W S H : Type 0} (web : Web W S H) where
  -- How a crawl under a page budget ends.
  abbrev Ended : ℕ → Result Error (Crawler W S × H) → Type 0
  Ended budget (ok (c, h)) =
      (c.queue ≡ [])
      × IsSound web c
      × (length c.order + length c.unreachable
          ≤ 1 + length c.coverage.urls + (budget - length (add_all c.coverage.urls [])))
  Ended budget (err (cause e)) = Unit
  Ended budget (err out_of_fuel) = ⊥

  Ended-call :
      {A : Type 0} (budget : ℕ) (m : Result Text A) (f : A → Result Error (Crawler W S × H))
      → ((a : A) → Ended budget (f a))
      → Ended budget (or_err cause m >>= f)
  Ended-call budget (ok a) f k = k a
  Ended-call budget (err e) f k = tt

  Ended-bind :
      (P : Crawler W S → Type 0) (budget : ℕ) (m : Result Error (Crawler W S))
      (f : Crawler W S → Result Error (Crawler W S × H))
      → Ensures web P m
      → ((c : Crawler W S) → P c → Ended budget (f c))
      → Ended budget (m >>= f)
  Ended-bind P budget (ok c) f h k = k c h
  Ended-bind P budget (err (cause e)) f h k = tt
  Ended-bind P budget (err out_of_fuel) f h k = absurd h

  conclude-Ended :
      (budget : ℕ) (page : Option Fetched) (c : Crawler W S)
      → (c.queue ≡ [])
        × IsSound web c
        × (length c.order + length c.unreachable
            ≤ 1 + length c.coverage.urls + (budget - length (add_all c.coverage.urls [])))
      → Ended budget (conclude web page c)
  unfolding conclude summarize
  conclude-Ended budget page c s =
      Ended-call budget (web.derive c.order c.seed (seed_body web page)) _ (λ hierarchy. (
        s.0,
        record {
          declared = s.1.declared;
          covered = s.1.covered;
          listed = s.1.listed;
          once = s.1.once;
        },
        s.2,
      ))

  started-Ended :
      (page : Option Fetched) (seed : Text) (opts : Options) (notes : List Note) (cov : Coverage)
      (signature : S) (w : W)
      → Ended opts.max_pages
          (proceed web page (start web seed opts notes cov signature w) >>= conclude web page)
  unfolding start
  started-Ended page seed opts notes cov signature w =
      Ended-bind _ opts.max_pages (proceed web page (start web seed opts notes cov signature w))
        (conclude web page)
        (proceed-Finished web page (start web seed opts notes cov signature w) refl
          (start-IsSound web seed opts notes cov signature w))
        (λ d f.
          conclude-Ended opts.max_pages page d
            (f.0, f.2, rw f.1 (omega (arith, f.3, length-entries cov.urls))))

  run-Ended : (seed : Text) (opts : Options) (w : W) → Ended opts.max_pages (run web seed opts w)
  unfolding run
  run-Ended seed opts w =
      let opened = fetch_seed web seed opts.revalidate w in
      Ended-call opts.max_pages (web.discover seed opened.0 opts.revalidate opened.2) _ (λ found.
        Ended-call opts.max_pages
          (web.not_found_signature (web.origin_of seed) opts.revalidate
            (web.reserve (length found.0.urls) found.1))
          _ (λ signed. started-Ended opened.0 seed opts opened.1 found.0 signed.0 signed.1))

  crawl-Ended :
      (seed : Text) (opts : Options) (w : W)
      → Ended (with_defaults web opts).max_pages (crawl web seed opts w)
  unfolding crawl
  crawl-Ended seed opts w =
      Ended-call (with_defaults web opts).max_pages (web.normalize seed) _
        (λ seed. run-Ended seed (with_defaults web opts) w)

  -- A crawl never runs out of the fuel that it gives its walk: its queue and its page budget. So the
  -- walk always comes to an end, with a result or with the error of a call.
  pub crawl-ends : (seed : Text) (opts : Options) (w : W) → crawl web seed opts w ≢ err out_of_fuel
  crawl-ends seed opts w h = rw h at (crawl-Ended seed opts w)

  -- When a crawl succeeds, each URL that its coverage declares is the URL of a page, is listed as
  -- unreachable, or was merged into a URL that is the URL of a page; and the queue is empty.
  pub crawl-accounted :
      (seed : Text) (opts : Options) (w : W) (c : Crawler W S) (h : H) (u : Text)
      → crawl web seed opts w ≡ ok (c, h)
      → contains u c.coverage.urls ≡ true
      → (c.queue ≡ []) × (accounted web u c ≡ true)
  crawl-accounted seed opts w c h u e declared =
      let ended : Ended (with_defaults web opts).max_pages (ok (c, h)) =
        rw e at (crawl-Ended seed opts w) in
      (ended.0, ground (arith, ended.1.declared u declared, ended.1.covered u, ap is_empty ended.0))

  -- When a crawl succeeds, its order lists the URLs under which the pages are stored, in the same
  -- order, and no URL stands in it twice.
  pub crawl-once :
      (seed : Text) (opts : Options) (w : W) (c : Crawler W S) (h : H)
      → crawl web seed opts w ≡ ok (c, h)
      → (c.order ≡ page_urls c.pages) × ((u : Text) → count_if (λ v. text_eq v u) c.order ≤ 1)
  crawl-once seed opts w c h e =
      let ended : Ended (with_defaults web opts).max_pages (ok (c, h)) =
        rw e at (crawl-Ended seed opts w) in
      (ended.1.listed, ended.1.once)

  -- When a crawl succeeds, the pages that it kept and those it could not reach are together at most
  -- the seed, the declared URLs, and what the page budget leaves over the distinct declared URLs.
  pub crawl-bounded :
      (seed : Text) (opts : Options) (w : W) (c : Crawler W S) (h : H)
      → crawl web seed opts w ≡ ok (c, h)
      → length c.order + length c.unreachable
        ≤ 1
          + length c.coverage.urls
          + ((with_defaults web opts).max_pages - length (add_all c.coverage.urls []))
  crawl-bounded seed opts w c h e =
      let ended : Ended (with_defaults web opts).max_pages (ok (c, h)) =
        rw e at (crawl-Ended seed opts w) in
      ended.2
