-- ===== src/Site/Discover/Ends.antt =====
-- internal/site/discover/discover.go: the loop that reads the sitemaps comes to its end.
use mathlib.Core.Option.{Option}
use docsearch.Site.Web.{Fetched}
use mathlib.Core.Path.{subst}
use docsearch.Maps.{has}
use native.Mathlib.Nat.{suc-mul, mul-le-mul_right}
use docsearch.Results.{ok, err, Result}
-- The rounds that a sitemap can cost which `levels` levels are left to, where each sitemap nests at
-- most `b` others.
use docsearch.Site.Discover.Sitemaps.{
  read_sitemap, deeper, Sitemaps, read_all, take_ref, read_answer, sitemap_round,
}
use docsearch.Site.Address.{Net}
use docsearch.Site.Discover.{SitemapRef, Fetcher, Parsers, Net, max_sitemap_depth, Fetched}
use docsearch.Prelude.{
  ℕ, zero, suc, ◌+◌, ◌-◌, ◌*◌, ◌≤◌, ◌≡◌, Bool, true, List, [], ◌∷◌, arith, is_some, length, sum_by,
  Text, refl, sym, ap, inl, inr, false, ◌||◌, ltb, ◌==◌, ltb→le, Bool-cases, if-false, if-true,
  is_empty, sum_by-append,
}

abbrev pub cost : ℕ → ℕ → ℕ
cost b zero = 1
cost b (suc levels) = 1 + b * cost b levels

abbrev pub ref_cost : ℕ → SitemapRef → ℕ
ref_cost b ref = cost b (4 - ref.depth)

cost_pos : (b n : ℕ) → 1 ≤ cost b n
cost_pos b zero = omega arith
cost_pos b (suc n) = omega arith

cost-step :
    (b d : ℕ) → ltb max_sitemap_depth d ≡ false → cost b (4 - d) ≡ 1 + b * cost b (4 - (d + 1))
cost-step b d h = ap (cost b) (one_more d (ltb→le max_sitemap_depth d h))
  where
    one_more : (d : ℕ) → d ≤ 3 → 4 - d ≡ suc (4 - (d + 1))
    one_more d h = omega (arith, h)

no_cost : (b : ℕ) (queue : List SitemapRef) → sum_by (ref_cost b) queue ≤ 0 → is_empty queue ≡ true
no_cost b [] h = refl
no_cost b (ref ∷ rest) h = absurd (omega (arith, h, cost_pos b (4 - ref.depth)))

module _ {W : Type 0} (f : Fetcher W) (p : Parsers) ⦃net : Net⦄ where
  -- No sitemap nests more than `b` others.
  abbrev pub NestsAtMost : ℕ → Type 0
  NestsAtMost b =
      (ref : SitemapRef) (revalidate : Bool) (world : W)
      → length (read_sitemap f p ref revalidate world).0.nested ≤ b

  deeper-cost :
      (b depth : ℕ) (urls : List Text)
      → sum_by (ref_cost b) (deeper depth urls)
        ≡ length (deeper depth urls) * cost b (4 - (depth + 1))
  unfolding deeper
  deeper-cost b depth [] = omega arith
  deeper-cost b depth (u ∷ urls) = omega (
    arith,
    deeper-cost b depth urls,
    suc-mul (length (deeper depth urls)) (cost b (4 - (depth + 1))),
  )

  answer-cost :
      (b : ℕ) (ref : SitemapRef) (r : Result Text Fetched)
      → sum_by (ref_cost b) (read_answer f p ref r).nested
        ≡ length (read_answer f p ref r).nested * cost b (4 - (ref.depth + 1))
  unfolding read_answer
  answer-cost b ref (err e) = omega arith
  answer-cost b ref (ok res) = elim (Bool-cases (res.status == 200)) [
    | inl m ↦ rw m (deeper-cost b ref.depth _)
    | inr m ↦ rw m (omega arith)
  ]

  nested-cost :
      (b : ℕ) (ref : SitemapRef) (revalidate : Bool) (world : W)
      → NestsAtMost b
      → sum_by (ref_cost b) (read_sitemap f p ref revalidate world).0.nested
        ≤ b * cost b (4 - (ref.depth + 1))
  unfolding read_sitemap
  nested-cost b ref revalidate world h = omega (
    arith,
    answer-cost b ref (f.fetch ref.url revalidate world).0,
    mul-le-mul_right (cost b (4 - (ref.depth + 1))) (h ref revalidate world),
  )

  -- A sitemap_round takes a step off what is left to read.
  take_ref-cost :
      (b : ℕ) (revalidate : Bool) (ref : SitemapRef) (s : Sitemaps W)
      → NestsAtMost b
      → sum_by (ref_cost b) (take_ref f p revalidate ref s).queue + 1
        ≤ ref_cost b ref + sum_by (ref_cost b) s.queue
  unfolding take_ref
  take_ref-cost b revalidate ref s h =
      elim (Bool-cases (has ref.url s.seen || ltb max_sitemap_depth ref.depth)) [
        | inl m ↦
            subst
              (λ (t : Sitemaps W).
                sum_by (ref_cost b) t.queue + 1 ≤ ref_cost b ref + sum_by (ref_cost b) s.queue)
              (sym (if-true _ _ _ m)) (omega (arith, cost_pos b (4 - ref.depth)))
        | inr m ↦
            subst
              (λ (t : Sitemaps W).
                sum_by (ref_cost b) t.queue + 1 ≤ ref_cost b ref + sum_by (ref_cost b) s.queue)
              (sym (if-false _ _ _ m))
              (omega (
                arith,
                sum_by-append (ref_cost b) s.queue
                    (read_sitemap f p ref revalidate s.world).0.nested,
                nested-cost b ref revalidate s.world h,
                cost-step b ref.depth (ground (arith, m)),
              ))
      ]

  sitemap_round-ends :
      (b fuel : ℕ) (revalidate : Bool) (queue : List SitemapRef) (s : Sitemaps W)
      → NestsAtMost b
      → ((t : Sitemaps W)
          → sum_by (ref_cost b) t.queue ≤ fuel
          → is_some (read_all f p fuel revalidate t) ≡ true)
      → sum_by (ref_cost b) queue ≤ suc fuel
      → is_some (sitemap_round f p revalidate (read_all f p fuel revalidate) queue s) ≡ true
  unfolding sitemap_round
  sitemap_round-ends b fuel revalidate [] s h next k = refl
  sitemap_round-ends b fuel revalidate (ref ∷ rest) s h next k =
      next _ (omega (arith, k, take_ref-cost b revalidate ref (record s { queue = rest }) h))

  -- With a sitemap_round for each sitemap that can be read, the loop ends.
  pub read_all-ends :
      (b fuel : ℕ) (revalidate : Bool) (s : Sitemaps W)
      → NestsAtMost b
      → sum_by (ref_cost b) s.queue ≤ fuel
      → is_some (read_all f p fuel revalidate s) ≡ true
  unfolding read_all
  read_all-ends b zero revalidate s h k =
      subst (λ (o : Option (Sitemaps W)). is_some o ≡ true)
        (sym (if-true _ _ _ (no_cost b s.queue k))) refl
  read_all-ends b (suc fuel) revalidate s h k =
      sitemap_round-ends b fuel revalidate s.queue s h (λ t. read_all-ends b fuel revalidate t h) k
