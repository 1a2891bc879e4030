-- ===== src/Site/Crawl/Walk/Sound.antt =====
-- What holds of the state between two visits: what is known, and what the pages are.
use docsearch.Site.Crawl.Walk.Visited.{moved_to, in_world}
use docsearch.Site.Crawl.Walk.{admit, queue_from, store, Fetched, merge}
use docsearch.Site.Crawl.{
  Crawler, Reason, Pair, Entry, contains, page_urls, put_page, Page, add_known,
}
use docsearch.Site.Web.{Web, Fetched}
use docsearch.Prelude.{
  ◌≤◌, ◌≡◌, Bool, true, ◌&&◌, ◌||◌, List, arith, count_if, any, Text, text_eq, ℕ, ◌+◌, refl, ap,
  inl, inr, false, not, [], ◌∷◌, ◌++◌, leb, Bool-cases, length, any-append, sym, count_if-le-length,
  count_if-append, count_if-none, text_eq_iff,
}

page_urls-put_page :
    (key : Text) (page : Page) (pages : List (Text × Page))
    → contains key (page_urls pages) ≡ false
    → page_urls (put_page key page pages) ≡ page_urls pages ++ key ∷ []
unfolding put_page contains
page_urls-put_page key page [] h = refl
page_urls-put_page key page ((v, old) ∷ rest) h = ground (arith, page_urls-put_page key page rest)

pub contains-same :
    (u key : Text) (known : List Text)
    → any (λ v. text_eq v key) known ≡ true
    → text_eq key u ≡ true
    → any (λ v. text_eq v u) known ≡ true
contains-same u key known have same = rw (sym ((text_eq_iff key u).0 same)) have

pub add_known-contains :
    (u key : Text) (known : List Text)
    → contains u (add_known key known) ≡ (text_eq key u || contains u known)
unfolding add_known contains
add_known-contains u key known = elim (Bool-cases (any (λ v. text_eq v key) known)) [
  | inl have ↦ rw have (ground (arith, contains-same u key known have))
  | inr new ↦ ground (arith, any-append (λ v. text_eq v u) known (key ∷ []))
]

module _ {W S H : Type 0} (web : Web W S H) where
  abbrev pub queued : Text → Crawler W S → Bool
  queued u c = any (λ (e : Entry). text_eq e.url u) c.queue

  abbrev failed_on : Text → List (Text × Reason) → Bool
  failed_on u = any (λ p. text_eq p.0 u)

  -- A merge of `u` into a page of the list.
  abbrev merged_into : Text → List Text → List Pair → Bool
  merged_into u pages = any (λ (m : Pair). text_eq m.url u && contains m.reason pages)

  -- A page, a page that could not be reached, or another spelling of a page.
  abbrev pub accounted : Text → Crawler W S → Bool
  accounted u c =
      contains u (page_urls c.pages)
      || (failed_on u c.unreachable || merged_into u (page_urls c.pages) c.canonical_merges)

  -- Every declared URL is known, every known one is queued, accounted for or one of `extra`, and the
  -- pages are listed once in the order of the visits.
  pub record Holds (extra : Text → Bool) (c : Crawler W S) : Type 0 where
    pub declared : (u : Text) → contains u c.coverage.urls ≡ true → contains u c.known ≡ true
    pub covered :
        (u : Text) → contains u c.known ≡ true → (extra u || (queued u c || accounted u c)) ≡ true
    pub listed : c.order ≡ page_urls c.pages
    pub once : (u : Text) → count_if (λ v. text_eq v u) c.order ≤ 1

  abbrev pub IsSound : Crawler W S → Type 0
  IsSound = Holds (λ u. false)

  -- The next entry has left the queue.
  abbrev pub IsPopped : Entry → Crawler W S → Type 0
  IsPopped entry = Holds (λ u. text_eq entry.url u)

  admit-Holds :
      (extra : Text → Bool) (depth : ℕ) (link : Text) (c : Crawler W S)
      → Holds extra c
      → Holds extra (admit web depth link c)
  unfolding admit contains
  admit-Holds extra depth link c h =
      elim (Bool-cases (contains link c.known || not (web.in_prefix_scope link c.seed))) [
        | inl known ↦ rw known h
        | inr fresh ↦ rw fresh (record {
          declared = λ u k.
              ground (arith, h.declared u, any-append (λ v. text_eq v u) c.known (link ∷ []));
          covered = λ u k. ground (
            arith,
            h.covered u,
            any-append (λ v. text_eq v u) c.known (link ∷ []),
            any-append (λ (e : Entry). text_eq e.url u) c.queue
                ((record { url = link; depth = depth + 1 }) ∷ []),
          );
          listed = h.listed;
          once = h.once;
        })
      ]

  pub queue_from-Holds :
      (extra : Text → Bool) (depth : ℕ) (links : List Text) (c : Crawler W S)
      → Holds extra c
      → Holds extra (queue_from web depth links c)
  unfolding queue_from
  queue_from-Holds extra depth [] c h = h
  queue_from-Holds extra depth (link ∷ links) c h =
      elim (Bool-cases (leb c.opts.max_pages (length c.known))) [
        | inl full ↦ rw full h
        | inr room ↦ rw room (
            queue_from-Holds extra depth links (admit web depth link c)
              (admit-Holds extra depth link c h))
      ]

  merged_into-grows :
      (u key : Text) (pages : List Text) (merges : List Pair)
      → merged_into u pages merges ≡ true
      → merged_into u (pages ++ key ∷ []) merges ≡ true
  unfolding contains
  merged_into-grows u key pages [] h = h
  merged_into-grows u key pages (m ∷ ms) h = ground (
    arith,
    merged_into-grows u key pages ms,
    any-append (λ v. text_eq v m.reason) pages (key ∷ []),
  )

  -- A page that is stored is accounted for, and what was accounted for still is.
  pub accounted-store :
      (u key : Text) (entry : Entry) (res : Fetched) (c : Crawler W S)
      → contains key (page_urls c.pages) ≡ false
      → (text_eq key u || accounted u c) ≡ true
      → accounted u (store web key entry res c) ≡ true
  unfolding store contains
  accounted-store u key entry res c new h = rw (page_urls-put_page key _ c.pages new) (
      ground (
        arith,
        any-append (λ v. text_eq v u) (page_urls c.pages) (key ∷ []),
        merged_into-grows u key (page_urls c.pages) c.canonical_merges,
      ))

  pub store-listed :
      (key : Text) (entry : Entry) (res : Fetched) (c : Crawler W S)
      → contains key (page_urls c.pages) ≡ false
      → c.order ≡ page_urls c.pages
      → c.order ++ key ∷ [] ≡ page_urls (store web key entry res c).pages
  unfolding store
  store-listed key entry res c new h =
      rw (page_urls-put_page key _ c.pages new) (ap (λ us. us ++ key ∷ []) h)

  pub store-once :
      (key : Text) (c : Crawler W S)
      → contains key (page_urls c.pages) ≡ false
      → c.order ≡ page_urls c.pages
      → ((u : Text) → count_if (λ v. text_eq v u) c.order ≤ 1)
      → (u : Text) → count_if (λ v. text_eq v u) (c.order ++ key ∷ []) ≤ 1
  unfolding contains
  store-once key c new listed once u = elim (Bool-cases (text_eq key u)) [
    | inl same ↦ omega (
      arith,
      count_if-append (λ v. text_eq v u) c.order (key ∷ []),
      count_if-none (λ v. text_eq v u) c.order
          (rw listed (rw (sym ((text_eq_iff key u).0 same)) new)),
      count_if-le-length (λ v. text_eq v u) (key ∷ []),
    )
    | inr other ↦
        ground (arith, count_if-append (λ v. text_eq v u) c.order (key ∷ []), once u, other)
  ]

  -- A page stored under its canonical URL accounts for the URL that it was read from, too.
  pub accounted-moved :
      (u canonical : Text) (entry : Entry) (res : Fetched) (w : W) (c : Crawler W S)
      → contains canonical (page_urls c.pages) ≡ false
      → (text_eq entry.url u || (text_eq canonical u || accounted u c)) ≡ true
      → accounted u
          (store web canonical entry res (moved_to web canonical entry (in_world web w c)))
        ≡ true
  unfolding store contains merge
  accounted-moved u canonical entry res w c new h =
      rw (page_urls-put_page canonical _ c.pages new) (
        ground (
          arith,
          any-append (λ v. text_eq v u) (page_urls c.pages) (canonical ∷ []),
          any-append (λ v. text_eq v canonical) (page_urls c.pages) (canonical ∷ []),
          any-append
              (λ (m : Pair).
                text_eq m.url u && contains m.reason (page_urls c.pages ++ canonical ∷ []))
              c.canonical_merges ((record { url = entry.url; reason = canonical }) ∷ []),
          (text_eq_iff canonical canonical).1 refl,
          merged_into-grows u canonical (page_urls c.pages) c.canonical_merges,
        ))
