-- ===== src/Site/Discover/Total.antt =====
-- internal/site/discover/discover.go: `Discover` comes to its end.
use docsearch.Site.Discover.Union.{index_page_candidates}
use docsearch.Strings.{trim_suffix, starts_with}
use docsearch.Site.Web.{Fetched, Coverage}
use docsearch.Site.Discover.Ends.{ref_cost, NestsAtMost, read_all-ends}
use docsearch.Site.Discover.Sitemaps.{Sitemaps}
use docsearch.Site.Address.{Net, Url, normalize, rendered, remove_dot_segments, authority}
use mathlib.Core.Path.{subst}
use docsearch.Site.Discover.Manifests.{
  longer, ended, dirs_above, manifest_dirs, dirs_of_url, sitemaps_from_robots, sitemap_roots,
}
use docsearch.Site.Discover.{Parsers, Fetcher, Net, origin_of, Fetched, trim_suffix, starts_with}
use docsearch.Prelude.{
  ℕ, zero, suc, ◌<◌, ◌≡◌, refl, sym, ◌∙◌, ◌≢◌, inl, inr, true, false, ◌||◌, Option, none, some,
  List, arith, Bool-cases, is_some, if-false, if-true, length, is_empty, Text, codes, text_eq, ◌+◌,
  ◌≤◌, Bool, not, ◌==◌, sum_by, ap, ◌-◌, [], ◌∷◌, ◌++◌, append_assoc, take, if◌then◌else◌,
}
use docsearch.Results.{ok, err, ◌>>=◌, Result, or_err, ok-injective, Result-cases}
use docsearch.Site.Discover.Run.{
  out_of_fuel, Stop, because, with_dirs, read_or_stop, index_from, index_answer, add_index_page,
  after_sitemaps, sitemap_candidates, with_sitemap, discover,
}

-- A path that is empty or starts at the root.
abbrev pub is_rooted : Text → Bool
is_rooted path = is_empty path || starts_with (codes "/") path

-- `path.Dir` goes up: of a path that starts at the root, the root excepted, it gives a shorter one
-- that does.
abbrev pub DirRises : Parsers → Type 0
DirRises p =
    (dir : Text)
    → starts_with (codes "/") dir ≡ true
    → text_eq dir (codes "/") ≡ false
    → (starts_with (codes "/") (p.dir_of dir) ≡ true) × (length (p.dir_of dir) < length dir)

-- `url.Parse`: where "://" follows the scheme of a URL, in lower case, the path is empty or starts
-- at the root.
abbrev pub PathsAreRooted : Net → Type 0
PathsAreRooted net =
    (raw rest : Text) (u v : Url)
    → net.parse_url raw ≡ ok u
    → net.parse_url (net.to_lower u.scheme ++ codes "://" ++ rest) ≡ ok v
    → is_rooted v.escaped_path ≡ true

abbrev Ends : {A : Type 0} → Result Stop A → Type 0
Ends r = r ≢ err out_of_fuel

longer-is_some : (dir : Text) (dirs : Option (List Text)) → is_some (longer dir dirs) ≡ is_some dirs
longer-is_some dir none = refl
longer-is_some dir (some dirs) = refl

ended-is_some : (dir : Text) (dirs : Option (List Text)) → is_some (ended dir dirs) ≡ is_some dirs
ended-is_some dir none = refl
ended-is_some dir (some dirs) = refl

dirs_above-ends :
    (p : Parsers) (fuel : ℕ) (origin dir : Text)
    → DirRises p
    → is_rooted dir ≡ true
    → length dir < fuel
    → is_some (dirs_above p.dir_of fuel origin dir) ≡ true
unfolding dirs_above
dirs_above-ends p zero origin dir h r k = absurd (omega (arith, k))
dirs_above-ends p (suc fuel) origin dir h r k =
    elim (Bool-cases (is_empty dir || text_eq dir (codes "/"))) [
      | inl e ↦ subst (λ (o : Option (List Text)). is_some o ≡ true) (sym (if-true _ _ _ e)) refl
      | inr e ↦
          let (rooted, shorter) = h dir (ground (arith, r, e)) (ground (arith, e)) in
          subst (λ (o : Option (List Text)). is_some o ≡ true) (sym (if-false _ _ _ e))
            (longer-is_some _ _
              ∙ dirs_above-ends p fuel origin (p.dir_of dir) h (ground (arith, rooted))
                  (omega (arith, k, shorter)))
    ]

take-is_rooted : (n : ℕ) (path : Text) → is_rooted path ≡ true → is_rooted (take n path) ≡ true
unfolding starts_with
take-is_rooted zero path h = refl
take-is_rooted (suc n) [] h = refl
take-is_rooted (suc n) (c ∷ path) h = h

trim_suffix-is_rooted :
    (s path : Text) → is_rooted path ≡ true → is_rooted (trim_suffix s path) ≡ true
unfolding trim_suffix
trim_suffix-is_rooted s path h = ground (arith, h, take-is_rooted (length path - length s) path h)

bind-Ends :
    {A B : Type 0} (m : Result Stop A) (g : A → Result Stop B)
    → Ends m
    → ((a : A) → m ≡ ok a → Ends (g a))
    → Ends (m >>= g)
bind-Ends (ok a) g h k = k a refl
bind-Ends (err (because t)) g h k = λ e. cc e
bind-Ends (err out_of_fuel) g h k = λ e. h refl

because-Ends : {A : Type 0} (r : Result Text A) → Ends (or_err because r)
because-Ends (ok a) = λ h. cc h
because-Ends (err e) = λ h. cc h

or_err-ok : {A : Type 0} (r : Result Text A) (a : A) → or_err because r ≡ ok a → r ≡ ok a
or_err-ok (ok b) a h = ap ok (ok-injective h)
or_err-ok (err e) a h = cc h

module _ {W : Type 0} (f : Fetcher W) (p : Parsers) ⦃net : Net⦄ where
  with_dirs-Ends : (o : Option (List Text)) → is_some o ≡ true → Ends (with_dirs f p o)
  unfolding with_dirs
  with_dirs-Ends none h = cc h
  with_dirs-Ends (some dirs) h = λ k. cc k

  with_dirs-ok : {A : Type 0} (o : Option A) (a : A) → with_dirs f p o ≡ ok a → o ≡ some a
  unfolding with_dirs
  with_dirs-ok none a h = cc h
  with_dirs-ok (some b) a h = ap some (ok-injective h)

  read_or_stop-Ends : (o : Option (Sitemaps W)) → is_some o ≡ true → Ends (read_or_stop f p o)
  unfolding read_or_stop
  read_or_stop-Ends none h = cc h
  read_or_stop-Ends (some s) h = λ k. cc k

  dirs_of_url-ends :
      (r : Result Text Url)
      → DirRises p
      → ((u : Url) → r ≡ ok u → is_rooted u.escaped_path ≡ true)
      → is_some (dirs_of_url f p r) ≡ true
  unfolding dirs_of_url
  dirs_of_url-ends (err e) h k = refl
  dirs_of_url-ends (ok u) h k =
      let dir : Text = trim_suffix (codes "/") u.escaped_path in
      ended-is_some _ _
      ∙ dirs_above-ends p (length dir + 1) _ dir h
          (trim_suffix-is_rooted (codes "/") u.escaped_path (k u refl)) (omega arith)

  rendered-append :
      (u : Url) → (rest : Text) × (rendered u ≡ net.to_lower u.scheme ++ codes "://" ++ rest)
  unfolding rendered
  rendered-append u =
      let cleaned = remove_dot_segments u.escaped_path in
      let path = if is_empty cleaned then codes "/" else cleaned in
      let query = if is_empty u.raw_query then [] else codes "?" ++ u.raw_query in
      (authority u (net.to_lower u.scheme) ++ path ++ query, simp append_assoc)

  seed-is_rooted :
      (raw seed : Text) (v : Url)
      → PathsAreRooted net
      → normalize raw ≡ ok seed
      → net.parse_url seed ≡ ok v
      → is_rooted v.escaped_path ≡ true
  unfolding normalize
  seed-is_rooted raw seed v h m k = elim (Result-cases (net.parse_url raw)) [
    | inl (u, parsed) ↦
        let (rest, made) = rendered-append u in
        let same : rendered u ≡ seed = ok-injective (
          sym (
            ap
              (λ (r : Result Text Url).
                or_err (λ e. codes "unparseable URL " ++ raw ++ codes ": " ++ e)
                  (r >>= λ u. ok (rendered u)))
              parsed)
          ∙ m) in
        h raw rest u v parsed (ap net.parse_url (sym made ∙ same) ∙ k)
    | inr (e, failed) ↦ cc (failed, m)
  ]

  manifest_dirs-ends :
      (raw seed : Text)
      → DirRises p
      → PathsAreRooted net
      → normalize raw ≡ ok seed
      → is_some (manifest_dirs f p seed) ≡ true
  unfolding manifest_dirs
  manifest_dirs-ends raw seed h k m =
      dirs_of_url-ends (net.parse_url seed) h (λ v parsed. seed-is_rooted raw seed v k m parsed)

  -- The fuel that the sitemaps need: what can be read below the roots, where no sitemap nests more
  -- than `b` others.
  abbrev roots_cost : ℕ → Text → List Text → Result Text (List Text) → ℕ
  roots_cost b seed dirs (err e) = 0
  roots_cost b seed dirs (ok names) =
      sum_by (ref_cost b) (sitemap_roots f p (origin_of seed) dirs names).0

  abbrev dirs_cost : ℕ → Text → Option (List Text) → W → ℕ
  dirs_cost b seed none world = 0
  dirs_cost b seed (some dirs) world =
      roots_cost b seed dirs (sitemaps_from_robots f p (origin_of seed) world).0

  abbrev pub discover_cost : ℕ → Result Text Text → W → ℕ
  discover_cost b (err e) world = 0
  discover_cost b (ok seed) world = dirs_cost b seed (manifest_dirs f p seed) world

  index_from-Ends :
      (seed : Text) (page : Fetched) (c : Coverage) → Ends (index_from f p seed page c)
  unfolding index_from
  index_from-Ends seed page c = elim (Bool-cases (not (page.status == 200))) [
    | inl e ↦ subst Ends (sym (if-true _ _ _ e)) (λ h. cc h)
    | inr e ↦ subst Ends (sym (if-false _ _ _ e)) (
        bind-Ends (or_err because (index_page_candidates p page.body seed)) _ (because-Ends _)
          (λ links k h. cc h))
  ]

  index_answer-Ends :
      (seed : Text) (r : Result Text Fetched) (c : Coverage) → Ends (index_answer f p seed r c)
  unfolding index_answer
  index_answer-Ends seed (ok page) c = index_from-Ends seed page c
  index_answer-Ends seed (err e) c = λ h. cc h

  add_index_page-Ends :
      (seed : Text) (page : Option Fetched) (revalidate : Bool) (c : Coverage) (world : W)
      → Ends (add_index_page f p seed page revalidate c world).0
  unfolding add_index_page
  add_index_page-Ends seed (some page) revalidate c world = index_from-Ends seed page c
  add_index_page-Ends seed none revalidate c world =
      index_answer-Ends seed (f.fetch seed revalidate world).0 c

  after_sitemaps-Ends :
      (seed : Text) (page : Option Fetched) (revalidate : Bool) (dirs : List Text) (s : Sitemaps W)
      → Ends (after_sitemaps f p seed page revalidate dirs s)
  unfolding after_sitemaps
  after_sitemaps-Ends seed page revalidate dirs s =
      bind-Ends
        (add_index_page f p seed page revalidate (with_sitemap f p seed s.pages s.notes) s.world).0
        _ (add_index_page-Ends seed page revalidate _ s.world) (λ c k h. cc h)

  sitemap_candidates-Ends :
      (b fuel : ℕ) (seed : Text) (revalidate : Bool) (dirs : List Text) (world : W)
      → NestsAtMost f p b
      → roots_cost b seed dirs (sitemaps_from_robots f p (origin_of seed) world).0 ≤ fuel
      → Ends (sitemap_candidates f p fuel seed revalidate dirs world)
  unfolding sitemap_candidates
  sitemap_candidates-Ends b fuel seed revalidate dirs world h k =
      let robots : Result Text (List Text) × W = sitemaps_from_robots f p (origin_of seed) world in
      bind-Ends (or_err because robots.0) _ (because-Ends robots.0) (λ names m.
        read_or_stop-Ends _ (
          read_all-ends f p b fuel revalidate _ h
            (subst (λ r. roots_cost b seed dirs r ≤ fuel) (or_err-ok robots.0 names m) k)))

  from_seed-Ends :
      (b fuel : ℕ) (seed : Text) (page : Option Fetched) (revalidate : Bool) (world : W)
      → is_some (manifest_dirs f p seed) ≡ true
      → NestsAtMost f p b
      → dirs_cost b seed (manifest_dirs f p seed) world ≤ fuel
      → Ends (
          with_dirs f p (manifest_dirs f p seed) >>= λ dirs.
          sitemap_candidates f p fuel seed revalidate dirs world >>= λ s.
          after_sitemaps f p seed page revalidate dirs s)
  from_seed-Ends b fuel seed page revalidate world found h k =
      bind-Ends (with_dirs f p (manifest_dirs f p seed)) _ (with_dirs-Ends _ found) (λ dirs m.
        bind-Ends (sitemap_candidates f p fuel seed revalidate dirs world) _
          (sitemap_candidates-Ends b fuel seed revalidate dirs world h (
            subst (λ o. dirs_cost b seed o world ≤ fuel)
              (with_dirs-ok (manifest_dirs f p seed) dirs m) k))
          (λ s i. after_sitemaps-Ends seed page revalidate dirs s))

  -- `Discover` comes to its end, with fuel for the sitemaps below those that it starts at, where no
  -- sitemap nests more than `b` others, `path.Dir` goes up from every path that starts at the root
  -- but the root itself, and `url.Parse` gives a path that is empty or starts at the root where
  -- "://" follows the scheme.
  pub discover-ends :
      (b fuel : ℕ) (raw : Text) (page : Option Fetched) (revalidate : Bool) (world : W)
      → DirRises p
      → PathsAreRooted net
      → NestsAtMost f p b
      → discover_cost b (normalize raw) world ≤ fuel
      → discover f p fuel raw page revalidate world ≢ err out_of_fuel
  unfolding discover
  discover-ends b fuel raw page revalidate world rises rooted h k =
      bind-Ends (or_err because (normalize raw)) _ (because-Ends (normalize raw)) (λ seed m.
        let made : normalize raw ≡ ok seed = or_err-ok (normalize raw) seed m in
        from_seed-Ends b fuel seed page revalidate world
          (manifest_dirs-ends raw seed rises rooted made) h
          (subst (λ r. discover_cost b r world ≤ fuel) made k))
