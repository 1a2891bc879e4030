-- ===== src/Site/Discover/Reads.antt =====
-- internal/site/discover/discover.go: the requests of the loop that reads the sitemaps.
use docsearch.Site.Discover.Manifests.{sitemaps_from_robots, sitemap_roots}
use docsearch.Site.Discover.Run.{sitemap_candidates, read_or_stop, because}
use Prim.Native.Nat.{ℕ}
use mathlib.Core.Path.{subst}
use docsearch.Maps.{times, bit, has, times-added, has-append}
use docsearch.Site.Discover.Sitemaps.{Sitemaps, take_ref, read_sitemap, sitemap_round, read_all}
use docsearch.Site.Address.{Net}
use docsearch.Site.Discover.{Fetcher, Parsers, Net, SitemapRef, max_sitemap_depth, origin_of}
use docsearch.Prelude.{
  ◌≡◌, refl, sym, inl, inr, Bool, ◌||◌, Option, List, [], ◌∷◌, ◌++◌, arith, ltb, Bool-cases,
  if-false, if-true, Text, zero, suc, ◌∙◌, none, some, some-injective, is_empty, ap,
}
use docsearch.Results.{ok, >>=-eq-ok, or_err, ok-injective}

-- A fetcher with a log of the URLs that it is asked for.
unfoldable pub logged : {W : Type 0} → Fetcher W → Fetcher (W × List Text)
logged f = record {
  fetch = λ u revalidate (w, log).
      ((f.fetch u revalidate w).0, ((f.fetch u revalidate w).1, log ++ u ∷ []));
  robots = λ u (w, log). ((f.robots u w).0, ((f.robots u w).1, log));
}

no_end : {A : Type 0} (a : A) → none ≡ some a → ⊥
no_end a h = cc h

module _ {W : Type 0} (f : Fetcher W) (p : Parsers) ⦃net : Net⦄ where
  -- The log holds what was seen, once.
  abbrev IsLog : Text → Sitemaps (W × List Text) → Type 0
  IsLog u s = (times u s.world.1 ≡ bit (has u s.world.1)) × (has u s.world.1 ≡ has u s.seen)

  take_ref-IsLog :
      (revalidate : Bool) (ref : SitemapRef) (s : Sitemaps (W × List Text))
      → ((u : Text) → IsLog u s)
      → (u : Text) → IsLog u (take_ref (logged f) p revalidate ref s)
  unfolding take_ref read_sitemap logged has
  take_ref-IsLog revalidate ref s h u =
      elim (Bool-cases (has ref.url s.seen || ltb max_sitemap_depth ref.depth)) [
        | inl m ↦ subst (IsLog u) (sym (if-true _ _ _ m)) (h u)
        | inr m ↦ subst (IsLog u) (sym (if-false _ _ _ m)) (
          times-added u ref.url s.world.1 (h u).0 ((h ref.url).1 ∙ ground (arith, m)),
          ground (arith, has-append u s.world.1 (ref.url ∷ []), (h u).1),
        )
      ]

  sitemap_round-IsLog :
      (revalidate : Bool) (next : Sitemaps (W × List Text) → Option (Sitemaps (W × List Text)))
      (queue : List SitemapRef) (s end : Sitemaps (W × List Text))
      → ((t : Sitemaps (W × List Text))
          → next t ≡ some end
          → ((u : Text) → IsLog u t)
          → (u : Text) → IsLog u end)
      → sitemap_round (logged f) p revalidate next queue s ≡ some end
      → ((u : Text) → IsLog u s)
      → (u : Text) → IsLog u end
  unfolding sitemap_round
  sitemap_round-IsLog revalidate next [] s end step done h u =
      subst (IsLog u) (some-injective done) (h u)
  sitemap_round-IsLog revalidate next (ref ∷ rest) s end step done h u =
      step _ done (take_ref-IsLog revalidate ref (record s { queue = rest }) h) u

  read_all-IsLog :
      (fuel : ℕ) (revalidate : Bool) (s end : Sitemaps (W × List Text))
      → read_all (logged f) p fuel revalidate s ≡ some end
      → ((u : Text) → IsLog u s)
      → (u : Text) → IsLog u end
  unfolding read_all
  read_all-IsLog zero revalidate s end done h u = elim (Bool-cases (is_empty s.queue)) [
    | inl m ↦ subst (IsLog u) (some-injective (sym (if-true _ _ _ m) ∙ done)) (h u)
    | inr m ↦ absurd (no_end end (sym (if-false _ _ _ m) ∙ done))
  ]
  read_all-IsLog (suc fuel) revalidate s end done h u =
      sitemap_round-IsLog revalidate (read_all (logged f) p fuel revalidate) s.queue s end
        (λ t. read_all-IsLog fuel revalidate t end) done h u

  read_or_stop-ok :
      {o : Option (Sitemaps (W × List Text))} (end : Sitemaps (W × List Text))
      → read_or_stop (logged f) p o ≡ ok end
      → o ≡ some end
  unfolding read_or_stop
  read_or_stop-ok {o = none} end h = cc h
  read_or_stop-ok {o = some s} end h = ap some (ok-injective h)

  -- The loop over the sitemaps, where it comes to its end, has asked the fetcher for no URL twice:
  -- a URL stands in the log of requests once or not at all.
  pub sitemap_candidates-once :
      (fuel : ℕ) (seed : Text) (revalidate : Bool) (dirs : List Text) (world : W)
      (end : Sitemaps (W × List Text)) (u : Text)
      → sitemap_candidates (logged f) p fuel seed revalidate dirs (world, []) ≡ ok end
      → times u end.world.1 ≡ bit (has u end.world.1)
  unfolding sitemap_candidates sitemaps_from_robots logged read_or_stop has
  sitemap_candidates-once fuel seed revalidate dirs world end u done =
      let (names, a, b) =
        >>=-eq-ok
          (or_err because (sitemaps_from_robots (logged f) p (origin_of seed) (world, [])).0) _ _
          done in
      let roots = sitemap_roots (logged f) p (origin_of seed) dirs names in
      let start : Sitemaps (W × List Text) = record {
        world = (sitemaps_from_robots (logged f) p (origin_of seed) (world, [])).1;
        queue = roots.0;
        seen = [];
        pages = [];
        notes = roots.1;
      } in
      (read_all-IsLog fuel revalidate start end (read_or_stop-ok end b) (λ v. (refl, refl)) u).0
