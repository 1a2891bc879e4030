-- ===== src/Site/Crawl/Walk/Visited.antt =====
-- What one visit does, as a relation between the state before and after it.
use docsearch.Site.Crawl.Html.{canonical_of, refusal}
use docsearch.Site.Crawl.Walk.{
  follow, keep_as, keep, take_answer, visit, merge, queue_links, Fetched, queue_from, store,
  canonical_of, give_up,
}
use docsearch.Site.Crawl.{
  Crawler, Entry, contains, Error, add_known, page_urls, Reason, cause, failed, Refusal, refused,
  out_of_fuel,
}
use docsearch.Site.Web.{Web, Fetched}
use docsearch.Results.{◌>>=◌, Result, or_err, ok, err}
use docsearch.Prelude.{
  ◌≡◌, inl, inr, true, false, not, ◌||◌, Option, none, some, List, [], leb, Bool-cases, is_empty,
  Text, text_eq,
}

module _ {W S H : Type 0} (web : Web W S H) where
  -- An error of the crawl is what a call reported; running out of fuel is none of them.
  abbrev pub Ensures : (Crawler W S → Type 0) → Result Error (Crawler W S) → Type 0
  Ensures P (ok c) = P c
  Ensures P (err (cause e)) = Unit
  Ensures P (err out_of_fuel) = ⊥

  pub Ensures-bind :
      (P Q : Crawler W S → Type 0) (m : Result Error (Crawler W S))
      (f : Crawler W S → Result Error (Crawler W S))
      → Ensures P m
      → ((c : Crawler W S) → P c → Ensures Q (f c))
      → Ensures Q (m >>= f)
  Ensures-bind P Q (ok c) f h k = k c h
  Ensures-bind P Q (err (cause e)) f h k = tt
  Ensures-bind P Q (err out_of_fuel) f h k = absurd h

  pub Ensures-imp :
      (P Q : Crawler W S → Type 0) (m : Result Error (Crawler W S))
      → Ensures P m
      → ((c : Crawler W S) → P c → Q c)
      → Ensures Q m
  Ensures-imp P Q (ok c) h k = k c h
  Ensures-imp P Q (err (cause e)) h k = tt
  Ensures-imp P Q (err out_of_fuel) h k = absurd h

  pub Ensures-call :
      {A : Type 0} (Q : Crawler W S → Type 0) (m : Result Text A)
      (f : A → Result Error (Crawler W S))
      → ((a : A) → Ensures Q (f a))
      → Ensures Q (or_err cause m >>= f)
  Ensures-call Q (ok a) f k = k a
  Ensures-call Q (err e) f k = tt

  abbrev pub in_world : W → Crawler W S → Crawler W S
  in_world w c = record c { world = w }

  -- The state that stores an entry under another URL.
  abbrev pub moved_to : Text → Entry → Crawler W S → Crawler W S
  moved_to canonical entry c = record (merge web entry canonical c) {
    known = add_known canonical c.known;
  }

  pub data Visited (entry : Entry) (c : Crawler W S) : Crawler W S → Type 0 where
    seen : contains entry.url (page_urls c.pages) ≡ true → Visited entry c c
    unread : (w : W) (why : Reason) → Visited entry c (give_up web entry.url why (in_world w c))
    known_page :
        (w : W) (canonical : Text)
        → contains canonical (page_urls c.pages) ≡ true
        → Visited entry c (merge web entry canonical (in_world w c))
    stored :
        (w : W) (res : Fetched) (links : List Text)
        → contains entry.url (page_urls c.pages) ≡ false
        → Visited entry c
            (queue_from web entry.depth links (store web entry.url entry res (in_world w c)))
    moved :
        (w : W) (canonical : Text) (res : Fetched) (links : List Text)
        → contains canonical (page_urls c.pages) ≡ false
        → Visited entry c (
            queue_from web entry.depth links
              (store web canonical entry res (moved_to canonical entry (in_world w c))))

  -- Following a page queues some list of links, the empty one where links are not followed.
  follow-queues :
      (Q : Crawler W S → Type 0) (entry : Entry) (res : Fetched) (c : Crawler W S)
      → ((links : List Text) → Q (queue_from web entry.depth links c))
      → Ensures Q (follow web entry res c)
  unfolding follow queue_links queue_from
  follow-queues Q entry res c k =
      elim (Bool-cases (not c.followed || leb c.opts.link_depth entry.depth)) [
        | inl stop ↦ rw stop (k [])
        | inr go ↦ rw go (
            Ensures-call Q (web.index_page_candidates res.body entry.url)
              (λ links. ok (queue_from web entry.depth links c)) (λ links. k links))
      ]

  keep_as-Visited :
      (canonical : Text) (entry : Entry) (res : Fetched) (w : W) (c : Crawler W S)
      → contains entry.url (page_urls c.pages) ≡ false
      → Ensures (Visited entry c) (keep_as web canonical entry res (in_world w c))
  unfolding keep_as
  keep_as-Visited canonical entry res w c new =
      elim (Bool-cases (
        is_empty canonical
        || text_eq canonical entry.url
        || not (web.in_prefix_scope canonical c.seed))) [
          | inl plain ↦ rw plain (
              follow-queues (Visited entry c) entry res
                (store web entry.url entry res (in_world w c)) (λ links. stored w res links new))
          | inr merged ↦ elim (Bool-cases (contains canonical (page_urls c.pages))) [
            | inl have ↦ rw (merged, have) (known_page w canonical have)
            | inr fresh ↦
                rw (merged, fresh)
                  (follow-queues (Visited entry c) entry res
                    (store web canonical entry res (moved_to canonical entry (in_world w c)))
                    (λ links. moved w canonical res links fresh))
          ]
        ]

  pub keep-Visited :
      (entry : Entry) (res : Fetched) (w : W) (c : Crawler W S)
      → contains entry.url (page_urls c.pages) ≡ false
      → Ensures (Visited entry c) (keep web entry res (in_world w c))
  unfolding keep
  keep-Visited entry res w c new =
      Ensures-call (Visited entry c) (canonical_of web res.body entry.url)
        (λ canonical. keep_as web canonical entry res (in_world w c))
        (λ canonical. keep_as-Visited canonical entry res w c new)

  take_answer-Visited :
      (entry : Entry) (answer : Result Text Fetched) (w : W) (c : Crawler W S)
      → contains entry.url (page_urls c.pages) ≡ false
      → Ensures (Visited entry c) (take_answer web entry answer (in_world w c))
  unfolding take_answer
  take_answer-Visited entry (err e) w c new = unread w (failed e)
  take_answer-Visited entry (ok res) w c new =
      Ensures-call (Visited entry c) (refusal web c.signature res)
        (λ answer. elim answer [
          | some why ↦ ok (give_up web entry.url (refused why) (in_world w c))
          | none ↦ keep web entry res (in_world w c)
        ])
        by_refusal
    where
      by_refusal :
          (answer : Option Refusal)
          → Ensures (Visited entry c) (elim answer [
            | some why ↦ ok (give_up web entry.url (refused why) (in_world w c))
            | none ↦ keep web entry res (in_world w c)
          ])
      by_refusal none = keep-Visited entry res w c new
      by_refusal (some why) = unread w (refused why)

  pub visit-Visited :
      (entry : Entry) (c : Crawler W S) → Ensures (Visited entry c) (visit web entry c)
  unfolding visit
  visit-Visited entry c = elim (Bool-cases (contains entry.url (page_urls c.pages))) [
    | inl have ↦ rw have (seen have)
    | inr new ↦ rw new (
        take_answer-Visited entry (web.fetch entry.url c.opts.revalidate c.world).0
          (web.fetch entry.url c.opts.revalidate c.world).1 c new)
  ]
