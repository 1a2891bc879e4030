-- ===== src/Site/Discover/Promise.antt =====
-- internal/site/discover/discover.go: what `Discover` returns.
use docsearch.Site.Discover.Under.{IsUnder, in_prefix_scope-IsUnder}
use docsearch.Site.Discover.Sitemaps.{Sitemaps}
use mathlib.Core.Bool.{false, false≢true}
use mathlib.Core.Path.{subst}
use docsearch.Site.Discover.Scope.{
  IsScoped, sorted-AllScoped, add_llms_entries-IsScoped, settle-AllScoped, settle-times,
}
use docsearch.Site.Discover.Manifests.{Listed, read_note, manifest_dirs, read_manifests}
use docsearch.Maps.{has, times, bit}
use docsearch.Site.Web.{Coverage, Fetched}
use docsearch.Site.Discover.Run.{
  with_sitemap, index_from, index_answer, add_index_page, list_entries, discover, after_sitemaps,
  with_llms_txt, Stop, because, with_dirs, sitemap_candidates,
}
use docsearch.Site.Address.{Net, normalize}
use docsearch.Site.Discover.{Fetcher, Parsers, Net, Fetched}
use docsearch.Site.Discover.Union.{
  settle, compare_sources, union, drop_index_non_pages, scope_index, scoped, index_page_candidates,
  add_llms_entries, declared_urls,
}
use docsearch.Prelude.{
  ℕ, ◌≡◌, refl, sym, ◌∙◌, inl, inr, Bool, not, ◌&&◌, Option, none, some, List, ◌++◌, ltb, ◌==◌,
  Bool-cases, if-false, if-true, is_empty, Text, ap, true, [],
}
use docsearch.Results.{ok, err, Result, ok-injective, >>=-eq-ok, or_err, Result-cases}

not_both : {A : Type 0} (a : A) (e : Text) → or_err {A = A} because (err e) ≡ ok a → ⊥
not_both a e h = cc h

settle-sitemap :
    ⦃net : Net⦄ (seed : Text) (c : Coverage)
    → ((settle seed c).from_sitemap ≡ c.from_sitemap)
      × ((settle seed c).from_llms_txt ≡ c.from_llms_txt)
unfolding settle compare_sources union drop_index_non_pages scope_index
settle-sitemap seed c = elim (Bool-cases (is_empty c.from_sitemap && is_empty c.from_llms_txt)) [
  | inl m ↦ rw m ((refl, refl))
  | inr m ↦ rw m ((refl, refl))
]

module _ {W : Type 0} (f : Fetcher W) (p : Parsers) ⦃net : Net⦄ where
  with_sitemap-IsScoped :
      (seed : Text) (urls notes : List Text) → IsScoped seed (with_sitemap f p seed urls notes)
  unfolding with_sitemap has
  with_sitemap-IsScoped seed urls notes = record {
    sitemap = sorted-AllScoped seed urls;
    llms_txt = λ u k. absurd (false≢true k);
  }

  -- The links of the page are added to what the manifests declare.
  index_from-IsScoped :
      (seed : Text) (page : Fetched) (c d : Coverage)
      → IsScoped seed c
      → index_from f p seed page c ≡ ok d
      → IsScoped seed d
  unfolding index_from
  index_from-IsScoped seed page c d h k = elim (Bool-cases (not (page.status == 200))) [
    | inl m ↦ subst (IsScoped seed) (ok-injective (sym (if-true _ _ _ m) ∙ k)) h
    | inr m ↦
        let (links, read, made) =
          >>=-eq-ok (or_err because (index_page_candidates p page.body seed)) _ d
            (sym (if-false _ _ _ m) ∙ k) in
        subst (IsScoped seed) (ok-injective made)
          (record { sitemap = h.sitemap; llms_txt = h.llms_txt })
  ]

  index_answer-IsScoped :
      (seed : Text) (r : Result Text Fetched) (c d : Coverage)
      → IsScoped seed c
      → index_answer f p seed r c ≡ ok d
      → IsScoped seed d
  unfolding index_answer
  index_answer-IsScoped seed (ok page) c d h k = index_from-IsScoped seed page c d h k
  index_answer-IsScoped seed (err e) c d h k =
      subst (IsScoped seed) (ok-injective k) (record { sitemap = h.sitemap; llms_txt = h.llms_txt })

  add_index_page-IsScoped :
      (seed : Text) (page : Option Fetched) (revalidate : Bool) (c : Coverage) (world : W)
      (d : Coverage)
      → IsScoped seed c
      → (add_index_page f p seed page revalidate c world).0 ≡ ok d
      → IsScoped seed d
  unfolding add_index_page
  add_index_page-IsScoped seed (some page) revalidate c world d h k =
      index_from-IsScoped seed page c d h k
  add_index_page-IsScoped seed none revalidate c world d h k =
      index_answer-IsScoped seed (f.fetch seed revalidate world).0 c d h k

  list_entries-IsScoped :
      (seed : Text) (l : Listed) (c : Coverage)
      → IsScoped seed c
      → IsScoped seed (list_entries f p seed l c)
  unfolding list_entries
  list_entries-IsScoped seed l c h =
      let noted : Coverage = record c { notes = c.notes ++ read_note f p l } in
      let kept =
        add_llms_entries-IsScoped l.entries seed 0 noted
          (record { sitemap = h.sitemap; llms_txt = h.llms_txt }) in
      elim (Bool-cases (ltb 0 (add_llms_entries l.entries seed 0 noted).1)) [
        | inl m ↦
            subst (IsScoped seed) (sym (if-true _ _ _ m))
              (record { sitemap = kept.sitemap; llms_txt = kept.llms_txt })
        | inr m ↦ subst (IsScoped seed) (sym (if-false _ _ _ m)) kept
      ]

  -- The page set is that of sources whose manifests are under the seed.
  Settled : Text → Coverage → Type 0
  Settled seed cov = (c : Coverage) × IsScoped seed c × (cov ≡ settle seed c)

  with_llms_txt-IsScoped :
      (seed : Text) (revalidate : Bool) (dirs : List Text) (c : Coverage) (world : W)
      → IsScoped seed c
      → IsScoped seed (with_llms_txt f p seed revalidate dirs c world).0
  unfolding with_llms_txt
  with_llms_txt-IsScoped seed revalidate dirs c world h =
      list_entries-IsScoped seed
        (read_manifests f p dirs revalidate (record { entries = []; notes = []; read = [] })
          world).0
        c h

  after_sitemaps-Settled :
      (seed : Text) (page : Option Fetched) (revalidate : Bool) (dirs : List Text) (s : Sitemaps W)
      (cov : Coverage) (after : W)
      → after_sitemaps f p seed page revalidate dirs s ≡ ok (cov, after)
      → Settled seed cov
  unfolding after_sitemaps Settled
  after_sitemaps-Settled seed page revalidate dirs s cov after h =
      let first : Coverage = with_sitemap f p seed s.pages s.notes in
      let added : Result Stop Coverage × W =
        add_index_page f p seed page revalidate first s.world in
      let (indexed, i, j) = >>=-eq-ok added.0 _ _ h in
      let listed : Coverage = (with_llms_txt f p seed revalidate dirs indexed added.1).0 in
      let kept : IsScoped seed listed =
        with_llms_txt-IsScoped seed revalidate dirs indexed added.1 (
          add_index_page-IsScoped seed page revalidate first s.world indexed
            (with_sitemap-IsScoped seed s.pages s.notes) i) in
      (listed, kept, ap (λ (r : Coverage × W). r.0) (sym (ok-injective j)))

  discover-Settled :
      (fuel : ℕ) (raw : Text) (page : Option Fetched) (revalidate : Bool) (world : W)
      (cov : Coverage) (after : W) (seed : Text)
      → discover f p fuel raw page revalidate world ≡ ok (cov, after)
      → normalize raw ≡ ok seed
      → Settled seed cov
  unfolding discover
  discover-Settled fuel raw page revalidate world cov after seed done same =
      let (start, a, b) = >>=-eq-ok (or_err because (normalize raw)) _ _ done in
      let (dirs, c, d) = >>=-eq-ok (with_dirs f p (manifest_dirs f p start)) _ _ b in
      let (s, e, g) = >>=-eq-ok (sitemap_candidates f p fuel start revalidate dirs world) _ _ d in
      let begun : start ≡ seed = ok-injective (sym a ∙ ap (or_err because) same) in
      subst (λ t. Settled t cov) begun
        (after_sitemaps-Settled start page revalidate dirs s cov after g)

  discover-normalized :
      (fuel : ℕ) (raw : Text) (page : Option Fetched) (revalidate : Bool) (world : W)
      (cov : Coverage) (after : W)
      → discover f p fuel raw page revalidate world ≡ ok (cov, after)
      → (seed : Text) × (normalize raw ≡ ok seed)
  unfolding discover
  discover-normalized fuel raw page revalidate world cov after done =
      elim (Result-cases (normalize raw)) [
        | inl found ↦ found
        | inr (e, h) ↦
            let (start, a, b) = >>=-eq-ok (or_err because (normalize raw)) _ _ done in
            absurd (not_both start e (sym (ap (or_err because) h) ∙ a))
      ]

  -- Where `Discover` returns a page set and a manifest (a sitemap or an llms.txt) declares a page,
  -- every page of the page set is on the seed's host, and its path is the
  -- seed's or goes on from it behind a slash.
  pub discover-scope :
      (fuel : ℕ) (raw : Text) (page : Option Fetched) (revalidate : Bool) (world : W)
      (cov : Coverage) (after : W) (seed u : Text)
      → discover f p fuel raw page revalidate world ≡ ok (cov, after)
      → normalize raw ≡ ok seed
      → (is_empty cov.from_sitemap && is_empty cov.from_llms_txt) ≡ false
      → has u cov.urls ≡ true
      → IsUnder u seed
  unfolding Settled
  discover-scope fuel raw page revalidate world cov after seed u done same manifests h =
      let (c, scoped, made) =
        discover-Settled fuel raw page revalidate world cov after seed done same in
      in_prefix_scope-IsUnder u seed (
        settle-AllScoped seed c scoped
          (sym (
              ap (λ s. is_empty s && is_empty (settle seed c).from_llms_txt)
                (settle-sitemap seed c).0
              ∙ ap (λ s. is_empty c.from_sitemap && is_empty s) (settle-sitemap seed c).1)
            ∙ subst
                (λ (d : Coverage). (is_empty d.from_sitemap && is_empty d.from_llms_txt) ≡ false)
                made manifests)
          u (subst (λ (d : Coverage). has u d.urls ≡ true) made h))

  -- The page set that `Discover` returns holds each URL that one of its sources names once, and no
  -- other URL.
  pub discover-times :
      (fuel : ℕ) (raw : Text) (page : Option Fetched) (revalidate : Bool) (world : W)
      (cov : Coverage) (after : W) (u : Text)
      → discover f p fuel raw page revalidate world ≡ ok (cov, after)
      → times u cov.urls ≡ bit (has u (declared_urls cov))
  unfolding Settled
  discover-times fuel raw page revalidate world cov after u done =
      let (seed, same) = discover-normalized fuel raw page revalidate world cov after done in
      let (c, scoped, made) =
        discover-Settled fuel raw page revalidate world cov after seed done same in
      subst (λ (d : Coverage). times u d.urls ≡ bit (has u (declared_urls d))) (sym made)
        (settle-times seed c u)
