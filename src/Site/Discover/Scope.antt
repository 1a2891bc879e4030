-- ===== src/Site/Discover/Scope.antt =====
-- internal/site/discover/discover.go: the page set against its sources and the seed.
use docsearch.Measure.{text_leb}
use mathlib.Core.Bool.{false≢true}
use mathlib.Core.Bool.{Bool, false}
use mathlib.Core.Path.{subst}
use docsearch.Site.Discover.{in_prefix_scope, is_manifest, TitledUrl}
use docsearch.Site.Web.{Coverage}
use docsearch.Maps.{has, times, has-eq, bit, has-append, times-added, has-any, has-select}
use docsearch.Site.Address.{Net, normalize}
use docsearch.Site.Discover.Union.{
  add_new, union, declared_urls, settle, compare_sources, drop_index_non_pages, scope_index, scoped,
  scoped_and_sorted, add_scoped, add_entry, add_read, add_llms_entries, add_llms_entry,
  page_or_self,
}
use docsearch.Prelude.{
  ◌≡◌, ap, ◌∙◌, inl, inr, ◌||◌, List, [], ◌∷◌, ◌++◌, arith, Bool-cases, Text, refl, sym, true, not,
  text_eq, text_eq_iff, ℕ, ◌&&◌, if-false, if-true, is_empty, sort, any-sort, &&-eq-true, select,
}
use docsearch.Results.{ok, err, Result}

add_new-times :
    (u : Text) (urls us : List Text)
    → times u urls ≡ bit (has u urls)
    → times u (add_new urls us) ≡ bit (has u urls || has u us)
unfolding add_new has
add_new-times u urls [] h = h ∙ ground arith
add_new-times u urls (v ∷ us) h = elim (Bool-cases (has v urls)) [
  | inl e ↦ rw e (add_new-times u urls us h ∙ ap bit (ground (arith, e, has-eq u v urls)))
  | inr e ↦ rw e (
      add_new-times u (urls ++ v ∷ []) us (times-added u v urls h e)
      ∙ ap bit (ground (arith, has-append u urls (v ∷ []))))
]

add_new-has : (u : Text) (urls us : List Text) → has u (add_new urls us) ≡ (has u urls || has u us)
unfolding add_new has
add_new-has u urls [] = ground arith
add_new-has u urls (v ∷ us) = elim (Bool-cases (has v urls)) [
  | inl e ↦ rw e (add_new-has u urls us ∙ ground (arith, e, has-eq u v urls))
  | inr e ↦ rw e (add_new-has u (urls ++ v ∷ []) us ∙ ground (arith, has-append u urls (v ∷ [])))
]

add_new-once :
    (u : Text) (urls us : List Text)
    → times u urls ≡ bit (has u urls)
    → times u (add_new urls us) ≡ bit (has u (add_new urls us))
add_new-once u urls us h = add_new-times u urls us h ∙ ap bit (sym (add_new-has u urls us))

union-has : (u : Text) (c : Coverage) → has u (union c).urls ≡ has u (declared_urls c)
unfolding union declared_urls has
union-has u c = ground (
  arith,
  add_new-has u [] c.from_index,
  add_new-has u (add_new [] c.from_index) c.from_sitemap,
  add_new-has u (add_new (add_new [] c.from_index) c.from_sitemap) c.from_llms_txt,
  has-append u c.from_index (c.from_sitemap ++ c.from_llms_txt),
  has-append u c.from_sitemap c.from_llms_txt,
)

union-times : (u : Text) (c : Coverage) → times u (union c).urls ≡ bit (has u (declared_urls c))
unfolding union has
union-times u c =
    add_new-once u _ c.from_llms_txt
      (add_new-once u _ c.from_sitemap (add_new-once u [] c.from_index refl))
    ∙ ap bit (union-has u c)

module _ ⦃net : Net⦄ where
  -- Every page that a source names, and no other, stands once in the page set.
  pub settle-times :
      (seed : Text) (c : Coverage) (u : Text)
      → times u (settle seed c).urls ≡ bit (has u (declared_urls (settle seed c)))
  unfolding settle compare_sources union declared_urls
  settle-times seed c u = union-times u (drop_index_non_pages (scope_index seed c))

  abbrev pub AllScoped : Text → List Text → Type 0
  AllScoped seed urls = (u : Text) → has u urls ≡ true → in_prefix_scope u seed ≡ true

  AllScoped-added :
      (seed v : Text) (urls : List Text)
      → AllScoped seed urls
      → in_prefix_scope v seed ≡ true
      → AllScoped seed (urls ++ v ∷ [])
  unfolding has
  AllScoped-added seed v urls h k u m = elim (Bool-cases (text_eq v u)) [
    | inl e ↦ subst (λ w. in_prefix_scope w seed ≡ true) ((text_eq_iff v u).0 e) k
    | inr e ↦ h u (ground (arith, m, e, has-append u urls (v ∷ [])))
  ]

  add_scoped-AllScoped :
      (seed : Text) (out : List Text) (r : Result Text Text)
      → AllScoped seed out
      → AllScoped seed (add_scoped seed out r)
  unfolding add_scoped
  add_scoped-AllScoped seed out (err e) h = h
  add_scoped-AllScoped seed out (ok u) h =
      elim (Bool-cases (has u out || not (in_prefix_scope u seed))) [
        | inl m ↦ subst (AllScoped seed) (sym (if-true _ _ _ m)) h
        | inr m ↦
            subst (AllScoped seed) (sym (if-false _ _ _ m))
              (AllScoped-added seed u out h (ground (arith, m)))
      ]

  scoped-AllScoped :
      (seed : Text) (urls out : List Text)
      → AllScoped seed out
      → AllScoped seed (scoped seed out urls)
  unfolding scoped
  scoped-AllScoped seed [] out h = h
  scoped-AllScoped seed (raw ∷ urls) out h =
      scoped-AllScoped seed urls _ (add_scoped-AllScoped seed out (normalize raw) h)

  pub sorted-AllScoped :
      (seed : Text) (urls : List Text) → AllScoped seed (scoped_and_sorted urls seed)
  unfolding scoped_and_sorted has
  sorted-AllScoped seed urls u h =
      scoped-AllScoped seed urls [] (λ v k. absurd (false≢true k)) u
        (has-any u (scoped seed [] urls)
          ∙ sym (any-sort text_leb (λ k. text_eq k u) (scoped seed [] urls))
          ∙ sym (has-any u (sort text_leb (scoped seed [] urls)))
          ∙ h)

  -- What the manifests declare is under the seed.
  pub record IsScoped (seed : Text) (c : Coverage) : Type 0 where
    pub sitemap : AllScoped seed c.from_sitemap
    pub llms_txt : AllScoped seed c.from_llms_txt

  add_entry-IsScoped :
      (u title seed : Text) (c : Coverage)
      → IsScoped seed c
      → IsScoped seed (add_entry u title seed c)
  unfolding add_entry
  add_entry-IsScoped u title seed c h =
      elim (Bool-cases (not (in_prefix_scope u seed) || has u c.from_llms_txt)) [
        | inl m ↦ subst (IsScoped seed) (sym (if-true _ _ _ m)) h
        | inr m ↦ subst (IsScoped seed) (sym (if-false _ _ _ m)) (record {
          sitemap = h.sitemap;
          llms_txt = AllScoped-added seed u c.from_llms_txt h.llms_txt (ground (arith, m));
        })
      ]

  add_read-IsScoped :
      (r : Result Text Text) (title seed : Text) (c : Coverage)
      → IsScoped seed c
      → IsScoped seed (add_read r title seed c).0
  unfolding add_read
  add_read-IsScoped (err e) title seed c h = h
  add_read-IsScoped (ok u) title seed c h = elim (Bool-cases (is_manifest u)) [
    | inl m ↦ rw m h
    | inr m ↦ rw m (add_entry-IsScoped (page_or_self u) title seed c h)
  ]

  pub add_llms_entries-IsScoped :
      (pairs : List TitledUrl) (seed : Text) (twins : ℕ) (c : Coverage)
      → IsScoped seed c
      → IsScoped seed (add_llms_entries pairs seed twins c).0
  unfolding add_llms_entries add_llms_entry
  add_llms_entries-IsScoped [] seed twins c h = h
  add_llms_entries-IsScoped (pair ∷ pairs) seed twins c h =
      add_llms_entries-IsScoped pairs seed _ _
        (add_read-IsScoped (normalize pair.url) pair.title seed c h)

  select-AllScoped :
      (seed : Text) (p : Text → Bool) (urls : List Text)
      → AllScoped seed urls
      → AllScoped seed (select p urls)
  select-AllScoped seed p urls h u k = h u (ground (arith, k, has-select u urls p))

  scope_index-AllScoped :
      (seed : Text) (c : Coverage)
      → (is_empty c.from_sitemap && is_empty c.from_llms_txt) ≡ false
      → AllScoped seed (scope_index seed c).from_index
  unfolding scope_index
  scope_index-AllScoped seed c m u k =
      (&&-eq-true _ _ (
        sym (has-select u c.from_index (λ u. in_prefix_scope u seed))
        ∙ subst (λ (d : Coverage). has u d.from_index ≡ true) (if-false _ _ _ m) k)).1

  scope_index-IsScoped :
      (seed : Text) (c : Coverage) → IsScoped seed c → IsScoped seed (scope_index seed c)
  unfolding scope_index
  scope_index-IsScoped seed c h =
      elim (Bool-cases (is_empty c.from_sitemap && is_empty c.from_llms_txt)) [
        | inl m ↦ rw m h
        | inr m ↦ rw m (record { sitemap = h.sitemap; llms_txt = h.llms_txt })
      ]

  declared_urls-AllScoped :
      (seed : Text) (c : Coverage)
      → IsScoped seed c
      → AllScoped seed c.from_index
      → AllScoped seed (declared_urls c)
  unfolding declared_urls
  declared_urls-AllScoped seed c h k u m = elim (Bool-cases (has u c.from_index)) [
    | inl e ↦ k u e
    | inr e ↦ elim (Bool-cases (has u c.from_sitemap)) [
      | inl f ↦ h.sitemap u f
      | inr f ↦ h.llms_txt u (
          ground (
            arith,
            m,
            e,
            f,
            has-append u c.from_index (c.from_sitemap ++ c.from_llms_txt),
            has-append u c.from_sitemap c.from_llms_txt,
          ))
    ]
  ]

  -- Once a manifest declares a page, every page is under the seed.
  pub settle-AllScoped :
      (seed : Text) (c : Coverage)
      → IsScoped seed c
      → (is_empty c.from_sitemap && is_empty c.from_llms_txt) ≡ false
      → AllScoped seed (settle seed c).urls
  unfolding settle compare_sources drop_index_non_pages
  settle-AllScoped seed c h m u k =
      let s : Coverage = scope_index seed c in
      let d : Coverage = drop_index_non_pages s in
      let manifests : IsScoped seed s = scope_index-IsScoped seed c h in
      declared_urls-AllScoped seed d
        (record { sitemap = manifests.sitemap; llms_txt = manifests.llms_txt })
        (select-AllScoped seed _ s.from_index (scope_index-AllScoped seed c m)) u
        (sym (union-has u d) ∙ k)
