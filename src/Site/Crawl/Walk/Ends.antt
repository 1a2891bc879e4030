-- ===== src/Site/Crawl/Walk/Ends.antt =====
-- How far the walk goes.
use docsearch.Site.Crawl.Walk.Sound.{IsSound}
use docsearch.Site.Crawl.Walk.Kept.{report-Holds, Visited-Holds, next_entry-Holds}
use docsearch.Site.Crawl.Walk.Visited.{
  Ensures, Visited, Ensures-imp, seen, Ensures-bind, unread, known_page, visit-Visited, stored,
  in_world, moved, moved_to,
}
use docsearch.Site.Crawl.Walk.{admit, queue_from, give_up, turn, walk, merge, report, store, visit}
use docsearch.Site.Web.{Web}
use docsearch.Site.Crawl.{add_known, Crawler, Entry, work}
use docsearch.Prelude.{
  ℕ, zero, suc, ◌+◌, ◌≤◌, ◌≡◌, refl, sym, ap, ◌∙◌, inl, inr, false, List, [], ◌∷◌, arith, leb,
  Bool-cases, Option-cases, length, length-append, Text, is_empty, ◌<◌, true,
}

pub add_known-grows : (u : Text) (known : List Text) → length known ≤ length (add_known u known)
unfolding add_known
add_known-grows u known = ground (arith, length-append known (u ∷ []))

nil_of_is_empty {ℓ} : {A : Type ℓ} (xs : List A) → is_empty xs ≡ true → xs ≡ []
nil_of_is_empty [] h = refl
nil_of_is_empty (x ∷ xs) h = cc h

length-pos {ℓ} : {A : Type ℓ} (xs : List A) → is_empty xs ≡ false → 0 < length xs
length-pos [] h = cc h
length-pos (x ∷ xs) h = omega arith

module _ {W S H : Type 0} (web : Web W S H) where
  -- The pages that were kept and those that could not be reached.
  abbrev pub handled : Crawler W S → ℕ
  handled c = length c.order + length c.unreachable

  pub record Spends (n : ℕ) (c d : Crawler W S) : Type 0 where
    pub same_coverage : d.coverage ≡ c.coverage
    pub same_budget : d.opts.max_pages ≡ c.opts.max_pages
    pub spent : work d ≤ work c
    pub counted : handled d ≤ handled c + n

  admit-Spends :
      (depth : ℕ) (link : Text) (c : Crawler W S)
      → leb c.opts.max_pages (length c.known) ≡ false
      → Spends 0 c (admit web depth link c)
  unfolding admit
  admit-Spends depth link c h = ground (
    arith,
    length-append c.known (link ∷ []),
    length-append c.queue ((record { url = link; depth = depth + 1 }) ∷ []),
  )

  queue_from-Spends :
      (depth : ℕ) (links : List Text) (c : Crawler W S) → Spends 0 c (queue_from web depth links c)
  unfolding queue_from
  queue_from-Spends depth [] c = ground arith
  queue_from-Spends depth (link ∷ links) c =
      elim (Bool-cases (leb c.opts.max_pages (length c.known))) [
        | inl full ↦ rw full (ground arith)
        | inr room ↦
            let one = admit-Spends depth link c room in
            let more = queue_from-Spends depth links (admit web depth link c) in
            rw room (record {
              same_coverage = more.same_coverage ∙ one.same_coverage;
              same_budget = more.same_budget ∙ one.same_budget;
              spent = omega (arith, more.spent, one.spent);
              counted = omega (arith, more.counted, one.counted);
            })
      ]

  pub Visited-Spends : {entry : Entry} {c d : Crawler W S} → Visited web entry c d → Spends 1 c d
  unfolding give_up merge store
  Visited-Spends {entry} {c} (seen h) = ground arith
  Visited-Spends {entry} {c} (unread w why) =
      ground (arith, length-append c.unreachable ((entry.url, why) ∷ []))
  Visited-Spends {entry} {c} (known_page w canonical h) = ground arith
  Visited-Spends {entry} {c} (stored w res links h) =
      let queued =
        queue_from-Spends entry.depth links (store web entry.url entry res (in_world web w c)) in
      record {
        same_coverage = queued.same_coverage;
        same_budget = queued.same_budget;
        spent = queued.spent;
        counted = omega (arith, queued.counted, length-append c.order (entry.url ∷ []));
      }
  Visited-Spends {entry} {c} (moved w canonical res links h) =
      let queued =
        queue_from-Spends entry.depth links
          (store web canonical entry res (moved_to web canonical entry (in_world web w c))) in
      record {
        same_coverage = queued.same_coverage;
        same_budget = queued.same_budget;
        spent = omega (arith, queued.spent, add_known-grows canonical c.known);
        counted = omega (arith, queued.counted, length-append c.order (canonical ∷ []));
      }

  -- Nothing is left to visit, the state is sound, and no more was handled than the queue and the
  -- budget had room for.
  abbrev pub Finished : Crawler W S → Crawler W S → Type 0
  Finished c d =
      (d.queue ≡ []) × (d.coverage ≡ c.coverage) × IsSound web d × (handled d ≤ handled c + work c)

  turn-Finished :
      (fuel done : ℕ) (queue : List Entry) (c : Crawler W S)
      → queue ≡ c.queue
      → work c ≤ suc fuel
      → IsSound web c
      → ((d : Crawler W S)
          → work d ≤ fuel
          → IsSound web d
          → Ensures web (Finished d) (walk web fuel (done + 1) d))
      → Ensures web (Finished c) (turn web (walk web fuel (done + 1)) done queue c)
  unfolding turn report
  turn-Finished fuel done [] c e h s rest = (sym e, refl, report-Holds web done c s, omega arith)
  turn-Finished fuel done (entry ∷ queue) c e h s rest =
      elim (Option-cases (web.cancelled c.world)) [
        | inl go ↦ rw go (
            Ensures-bind web (Visited web entry popped) (Finished c) (visit web entry popped)
              (walk web fuel (done + 1)) (visit-Visited web entry popped) after)
        | inr (why, stop) ↦ rw stop tt
      ]
    where
      popped : Crawler W S
      popped = record (report web done c) { queue = queue }

      after :
          (d : Crawler W S)
          → Visited web entry (record (report web done c) { queue = queue }) d
          → Ensures web (Finished c) (walk web fuel (done + 1) d)
      after d v =
          let cost : Spends 1 (record (report web done c) { queue = queue }) d = Visited-Spends v in
          Ensures-imp web (Finished d) (Finished c) (walk web fuel (done + 1) d)
            (rest d (omega (arith, cost.spent, ap length e))
              (Visited-Holds web v (next_entry-Holds web done entry queue c e s)))
            (λ f t. (
              t.0,
              t.1 ∙ cost.same_coverage,
              t.2,
              omega (arith, t.3, cost.spent, cost.counted, ap length e),
            ))

  -- With fuel for the queue and the budget, the walk from a sound state ends with nothing left to
  -- visit, in a sound state.
  pub walk-Finished :
      (fuel done : ℕ) (c : Crawler W S)
      → work c ≤ fuel
      → IsSound web c
      → Ensures web (Finished c) (walk web fuel done c)
  unfolding walk report
  walk-Finished zero done c h s = elim (Bool-cases (is_empty c.queue)) [
    | inl empty ↦
        rw empty (nil_of_is_empty c.queue empty, refl, report-Holds web done c s, omega arith)
    | inr more ↦ absurd (omega (arith, h, length-pos c.queue more))
  ]
  walk-Finished (suc fuel) done c h s =
      turn-Finished fuel done c.queue c refl h s (λ d. walk-Finished fuel (done + 1) d)
