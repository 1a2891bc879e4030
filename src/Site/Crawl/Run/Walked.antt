-- ===== src/Site/Crawl/Run/Walked.antt =====
-- From the start of a crawl to the end of its walk.
use docsearch.Site.Crawl.Html.{refusal}
use docsearch.Site.Crawl.Walk.{keep, walk}
use docsearch.Site.Crawl.Walk.Ends.{
  handled, Visited-Spends, Finished, walk-Finished, add_known-grows,
}
use docsearch.Site.Crawl.Walk.Visited.{
  Ensures, Ensures-imp, Visited, Ensures-bind, keep-Visited, Ensures-call,
}
use docsearch.Site.Crawl.Walk.Sound.{IsSound, add_known-contains, IsPopped}
use docsearch.Site.Crawl.Walk.Kept.{Visited-Holds}
use docsearch.Site.Crawl.Run.{
  entries, start, keep, keep_seed, proceed, ok, walk, lists_final, refusal,
}
use docsearch.Site.Crawl.{
  add_all, contains, Crawler, Entry, add_known, Options, Note, work, Coverage, Refusal,
  seed_not_kept,
}
use docsearch.Site.Web.{Web, Fetched, Coverage}
use docsearch.Prelude.{
  suc, ◌+◌, ◌≤◌, ◌≡◌, refl, ap, true, ◌||◌, List, [], ◌∷◌, arith, length, any, Text, text_eq, ◌∙◌,
  inl, inr, Option, none, some, ◌++◌, Bool-cases,
}

pub length-entries : (us : List Text) → length (entries us) ≡ length us
length-entries [] = refl
length-entries (u ∷ us) = ap suc (length-entries us)

add_all-contains :
    (u : Text) (us known : List Text)
    → contains u (add_all us known) ≡ (contains u us || contains u known)
unfolding add_all contains
add_all-contains u [] known = refl
add_all-contains u (v ∷ us) known =
    ground (arith, add_all-contains u us (add_known v known), add_known-contains u v known)

module _ {W S H : Type 0} (web : Web W S H) where
  entries-queued :
      (u : Text) (us : List Text)
      → contains u us ≡ true
      → any (λ (e : Entry). text_eq e.url u) (entries us) ≡ true
  unfolding contains
  entries-queued u [] h = cc h
  entries-queued u (v ∷ us) h = ground (arith, entries-queued u us)

  pub start-IsSound :
      (seed : Text) (opts : Options) (notes : List Note) (cov : Coverage) (signature : S) (w : W)
      → IsSound web (start web seed opts notes cov signature w)
  unfolding start contains
  start-IsSound seed opts notes cov signature w = record {
    declared = λ u k. ground (arith, add_all-contains u cov.urls []);
    covered = λ u k. ground (arith, add_all-contains u cov.urls [], entries-queued u cov.urls);
    listed = refl;
    once = λ u. omega arith;
  }

  -- What keeping the seed leaves of a state with no page yet.
  abbrev Kept : Crawler W S → Crawler W S → Type 0
  Kept c d =
      (d.coverage ≡ c.coverage)
      × IsSound web d
      × (work d ≤ work c)
      × (handled web d ≤ handled web c + 1)

  known_seed-IsPopped :
      (c : Crawler W S)
      → IsSound web c
      → IsPopped web
          (record { url = c.seed; depth = 0 })
          (record c { known = add_known c.seed c.known })
  known_seed-IsPopped c s = record {
    declared = λ u k. ground (arith, s.declared u k, add_known-contains u c.seed c.known);
    covered = λ u k. ground (arith, s.covered u, add_known-contains u c.seed c.known);
    listed = s.listed;
    once = s.once;
  }

  keep-Kept :
      (res : Fetched) (c : Crawler W S)
      → c.pages ≡ []
      → IsSound web c
      → Ensures web (Kept c) (
          keep web
            (record { url = c.seed; depth = 0 })
            res
            (record c { known = add_known c.seed c.known }))
  unfolding contains
  keep-Kept res c none_yet s =
      Ensures-imp web
        (Visited web (record { url = c.seed; depth = 0 })
          (record c { known = add_known c.seed c.known }))
        (Kept c)
        (keep web (record { url = c.seed; depth = 0 }) res
          (record c { known = add_known c.seed c.known }))
        (keep-Visited web (record { url = c.seed; depth = 0 }) res c.world
          (record c { known = add_known c.seed c.known }) (rw none_yet refl))
        (λ d v.
          let cost = Visited-Spends web v in
          (
            cost.same_coverage,
            Visited-Holds web v (known_seed-IsPopped c s),
            omega (arith, cost.spent, add_known-grows c.seed c.known),
            cost.counted,
          ))

  keep_seed-Kept :
      (page : Option Fetched) (declared : List Text) (c : Crawler W S)
      → c.pages ≡ []
      → IsSound web c
      → Ensures web (Kept c) (keep_seed web page declared c)
  unfolding keep_seed
  keep_seed-Kept none declared c none_yet s = (refl, s, omega arith, omega arith)
  keep_seed-Kept (some res) declared c none_yet s =
      elim (Bool-cases
        (contains c.seed declared || lists_final web (web.normalize res.final_url) declared)) [
          | inl there ↦ rw there (refl, s, omega arith, omega arith)
          | inr missing ↦ rw missing (
              Ensures-call web (Kept c) (refusal web c.signature res)
                (λ answer. elim answer [
                  | some why ↦ ok (record c { notes = c.notes ++ seed_not_kept c.seed why ∷ [] })
                  | none ↦
                      keep web (record { url = c.seed; depth = 0 }) res
                        (record c { known = add_known c.seed c.known })
                ])
                by_refusal)
        ]
    where
      by_refusal :
          (answer : Option Refusal)
          → Ensures web (Kept c) (elim answer [
            | some why ↦ ok (record c { notes = c.notes ++ seed_not_kept c.seed why ∷ [] })
            | none ↦
                keep web
                  (record { url = c.seed; depth = 0 })
                  res
                  (record c { known = add_known c.seed c.known })
          ])
      by_refusal none = keep-Kept res c none_yet s
      by_refusal (some why) = (
        refl,
        record { declared = s.declared; covered = s.covered; listed = s.listed; once = s.once },
        omega arith,
        omega arith,
      )

  pub proceed-Finished :
      (page : Option Fetched) (c : Crawler W S)
      → c.pages ≡ []
      → IsSound web c
      → Ensures web
          (λ d.
            (d.queue ≡ [])
            × (d.coverage ≡ c.coverage)
            × IsSound web d
            × (handled web d ≤ handled web c + 1 + work c))
          (proceed web page c)
  unfolding proceed
  proceed-Finished page c none_yet s =
      Ensures-bind web (Kept c) _ (keep_seed web page c.coverage.urls c)
        (λ d. walk web (work d) (length d.pages) d)
        (keep_seed-Kept page c.coverage.urls c none_yet s)
        (λ d k.
          Ensures-imp web (Finished web d) _ (walk web (work d) (length d.pages) d)
            (walk-Finished web (work d) (length d.pages) d (omega arith) k.1)
            (λ e f. (f.0, f.1 ∙ k.0, f.2, omega (arith, f.3, k.2, k.3))))
