-- ===== src/Site/Crawl/Walk/Kept.antt =====
-- That a visit keeps what holds of the state.
use docsearch.Site.Crawl.Walk.Sound.{
  IsPopped, IsSound, contains-same, queue_from-Holds, accounted-store, store-listed, store-once,
  add_known-contains, accounted-moved,
}
use docsearch.Site.Crawl.Walk.Visited.{
  moved_to, Visited, in_world, seen, unread, known_page, stored, moved,
}
use docsearch.Site.Crawl.Walk.{store, merge, give_up, report}
use docsearch.Site.Crawl.{Crawler, Pair, Entry, contains, page_urls}
use docsearch.Site.Web.{Web}
use docsearch.Prelude.{◌≡◌, ◌&&◌, List, arith, any, text_eq, ℕ, ap, false, [], ◌∷◌, any-append}

module _ {W S H : Type 0} (web : Web W S H) where
  -- A visit accounts for the entry that has left the queue.
  pub Visited-Holds :
      {entry : Entry} {c d : Crawler W S}
      → Visited web entry c d
      → IsPopped web entry c
      → IsSound web d
  unfolding give_up merge store contains
  Visited-Holds {entry} {c} (seen have) h = record {
    declared = h.declared;
    covered =
        λ u k. ground (arith, h.covered u k, contains-same u entry.url (page_urls c.pages) have);
    listed = h.listed;
    once = h.once;
  }
  Visited-Holds {entry} {c} (unread w why) h = record {
    declared = h.declared;
    covered = λ u k. ground (
      arith,
      h.covered u k,
      any-append (λ p. text_eq p.0 u) c.unreachable ((entry.url, why) ∷ []),
    );
    listed = h.listed;
    once = h.once;
  }
  Visited-Holds {entry} {c} (known_page w canonical have) h = record {
    declared = h.declared;
    covered = λ u k. ground (
      arith,
      h.covered u k,
      any-append (λ (m : Pair). text_eq m.url u && contains m.reason (page_urls c.pages))
          c.canonical_merges ((record { url = entry.url; reason = canonical }) ∷ []),
    );
    listed = h.listed;
    once = h.once;
  }
  Visited-Holds {entry} {c} (stored w res links new) h =
      queue_from-Holds web (λ u. false) entry.depth links
        (store web entry.url entry res (in_world web w c))
        (record {
          declared = h.declared;
          covered = λ u k. ground (
            arith,
            h.covered u k,
            accounted-store web u entry.url entry res (in_world web w c) new,
          );
          listed = store-listed web entry.url entry res (in_world web w c) new h.listed;
          once = store-once web entry.url c new h.listed h.once;
        })
  Visited-Holds {entry} {c} (moved w canonical res links new) h =
      queue_from-Holds web (λ u. false) entry.depth links
        (store web canonical entry res (moved_to web canonical entry (in_world web w c)))
        (record {
          declared = λ u k. ground (arith, h.declared u k, add_known-contains u canonical c.known);
          covered = λ u k. ground (
            arith,
            h.covered u,
            add_known-contains u canonical c.known,
            accounted-moved web u canonical entry res w c new,
          );
          listed =
              store-listed web canonical entry res (moved_to web canonical entry (in_world web w c))
                new h.listed;
          once = store-once web canonical c new h.listed h.once;
        })

  -- Taking the next entry off the queue.
  pub next_entry-Holds :
      (done : ℕ) (entry : Entry) (queue : List Entry) (c : Crawler W S)
      → (entry ∷ queue) ≡ c.queue
      → IsSound web c
      → IsPopped web entry (record (report web done c) { queue = queue })
  unfolding report
  next_entry-Holds done entry queue c e h = record {
    declared = h.declared;
    covered = λ u k. ground (arith, h.covered u k, ap (any (λ (e : Entry). text_eq e.url u)) e);
    listed = h.listed;
    once = h.once;
  }

  pub report-Holds : (done : ℕ) (c : Crawler W S) → IsSound web c → IsSound web (report web done c)
  unfolding report
  report-Holds done c h = record {
    declared = h.declared;
    covered = h.covered;
    listed = h.listed;
    once = h.once;
  }
