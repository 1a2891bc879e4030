-- ===== src/Site/Discover/Union.antt =====
-- internal/site/discover/discover.go: the operations on `Coverage`.
use docsearch.Measure.{text_leb}
use docsearch.Site.Address.{Net, normalize, Url}
use docsearch.Sync.{itoa}
use docsearch.Site.Discover.{
  is_manifest, page_of_twin, in_prefix_scope, is_page_link, Parsers, TitledUrl,
}
use docsearch.Site.Web.{Coverage}
use docsearch.Maps.{has, get, assign}
use docsearch.Prelude.{
  ℕ, ◌+◌, ◌-◌, Bool, false, not, ◌&&◌, ◌||◌, Option, none, some, List, [], ◌∷◌, ◌++◌, ltb, ◌==◌,
  if◌then◌else◌, is_some, length, is_empty, select, count_if, sort, Text, codes,
}
use docsearch.Results.{ok, err, ◌>>=◌, Result, or_err}

unfoldable pub add_new : List Text → List Text → List Text
unfolding has
add_new urls [] = urls
add_new urls (u ∷ us) = add_new (if has u urls then urls else urls ++ u ∷ []) us

-- `union`.
unfoldable pub union : Coverage → Coverage
unfolding add_new
union c = record c {
  urls = add_new (add_new (add_new [] c.from_index) c.from_sitemap) c.from_llms_txt;
}

-- `declared_urls`, as the list of what the sources name.
unfoldable pub declared_urls : Coverage → List Text
declared_urls c = c.from_index ++ (c.from_sitemap ++ c.from_llms_txt)

unfoldable pub is_non_page : List Text → Text → Bool
unfolding is_manifest page_of_twin has
is_non_page known u =
    is_manifest u || elim (page_of_twin u) [ some page ↦ has page known | none ↦ false ]

unfoldable pub drop_index_non_pages : Coverage → Coverage
unfolding is_non_page declared_urls
drop_index_non_pages c = record c {
  from_index = select (λ u. not (is_non_page (declared_urls c) u)) c.from_index;
}

unfoldable pub count_missing : List Text → List Text → ℕ
unfolding has
count_missing urls present = count_if (λ u. not (has u present)) urls

unfoldable pub compare_sources : Coverage → Coverage
unfolding count_missing itoa
compare_sources c =
    let extra = count_missing c.from_llms_txt c.from_sitemap in
    let omitted = count_missing c.from_sitemap c.from_llms_txt in
    let first =
      if is_empty c.from_sitemap || extra == 0
      then []
      else (itoa extra ++ codes " llms.txt URL(s) absent from the sitemap") ∷ [] in
    let second =
      if is_empty c.from_llms_txt || omitted == 0
      then []
      else (codes "llms.txt omits "
          ++ itoa omitted
          ++ codes " page(s) the sitemap declares; it is not authoritative for coverage")
        ∷ [] in
    record c { notes = c.notes ++ first ++ second }

module _ ⦃net : Net⦄ where
  unfoldable pub scope_index : Text → Coverage → Coverage
  unfolding in_prefix_scope itoa
  scope_index seed c =
      let kept = select (λ u. in_prefix_scope u seed) c.from_index in
      let dropped = length c.from_index - length kept in
      let note =
        itoa dropped
        ++ codes " seed page link(s) outside the seed's path left out: a manifest declares "
        ++ codes "the pages under it" in
      if is_empty c.from_sitemap && is_empty c.from_llms_txt then c else record c {
        from_index = kept;
        notes = if ltb 0 dropped then c.notes ++ note ∷ [] else c.notes;
      }

  -- One sitemap_round of the loop of `scopedAndSorted`, on the URL normalized; `out` holds the URLs that
  -- the source's `seen` holds.
  unfoldable pub add_scoped : Text → List Text → Result Text Text → List Text
  unfolding in_prefix_scope has
  add_scoped seed out (err e) = out
  add_scoped seed out (ok u) =
      if has u out || not (in_prefix_scope u seed) then out else out ++ u ∷ []

  unfoldable pub scoped : Text → List Text → List Text → List Text
  unfolding add_scoped normalize
  scoped seed out [] = out
  scoped seed out (raw ∷ urls) = scoped seed (add_scoped seed out (normalize raw)) urls

  unfoldable pub scoped_and_sorted : List Text → Text → List Text
  unfolding scoped sort text_leb
  scoped_and_sorted urls seed = sort text_leb (scoped seed [] urls)

  -- `linkOf`, with the host of the page.
  unfoldable pub same_host : Result Text Url → Result Text Url → Bool
  same_host (ok u) (ok v) = net.equal_fold u.hostname v.hostname
  same_host _ _ = false

  unfoldable pub link_of : Text → Text → Option Text
  unfolding is_page_link normalize same_host
  link_of base href =
      if not (is_page_link href)
      then none
      else elim (net.resolve base href >>= λ next. normalize next) [
        | err e ↦ none
        | ok u ↦ if same_host (net.parse_url u) (net.parse_url base) then some u else none
      ]

  unfoldable pub add_link : List Text → Option Text → List Text
  unfolding has
  add_link out none = out
  add_link out (some u) = if has u out then out else out ++ u ∷ []

  unfoldable pub links_of : Text → List Text → List Text → List Text
  unfolding link_of add_link
  links_of base out [] = out
  links_of base out (href ∷ hrefs) =
      links_of base (add_link out (link_of base (net.trim_space href))) hrefs

  unfoldable pub index_page_candidates : Parsers → Text → Text → Result Text (List Text)
  unfolding links_of
  index_page_candidates p body base =
      or_err (λ e. codes "parse " ++ base ++ codes ": " ++ e)
        (p.hrefs body >>= λ hrefs. net.parse_url base >>= λ b. ok (links_of base [] hrefs))

  -- `addLLMsEntry`, once its URL is read as the page's.
  unfoldable pub add_entry : Text → Text → Text → Coverage → Coverage
  unfolding in_prefix_scope has get assign
  add_entry u title seed c =
      if not (in_prefix_scope u seed) || has u c.from_llms_txt then c else record c {
        from_llms_txt = c.from_llms_txt ++ u ∷ [];
        titles =
            if is_some (get u c.titles) || is_empty title
            then c.titles
            else assign u title c.titles;
      }

  unfoldable pub page_or_self : Text → Text
  unfolding page_of_twin
  page_or_self u = elim (page_of_twin u) [ some page ↦ page | none ↦ u ]

  -- `addLLMsEntry`, on its URL normalized: the coverage, and whether the entry was a twin that was
  -- added as its page.
  unfoldable pub add_read : Result Text Text → Text → Text → Coverage → Coverage × Bool
  unfolding add_entry page_or_self page_of_twin is_manifest
  add_read (err e) title seed c = (c, false)
  add_read (ok u) title seed c =
      let added =
        in_prefix_scope (page_or_self u) seed && not (has (page_or_self u) c.from_llms_txt) in
      if is_manifest u
      then (c, false)
      else (add_entry (page_or_self u) title seed c, is_some (page_of_twin u) && added)

  unfoldable pub add_llms_entry : TitledUrl → Text → Coverage → Coverage × Bool
  unfolding add_read normalize
  add_llms_entry pair seed c = add_read (normalize pair.url) pair.title seed c

  unfoldable pub add_llms_entries : List TitledUrl → Text → ℕ → Coverage → Coverage × ℕ
  unfolding add_llms_entry
  add_llms_entries [] seed twins c = (c, twins)
  add_llms_entries (pair ∷ pairs) seed twins c =
      let (next, twin) = add_llms_entry pair seed c in
      add_llms_entries pairs seed (if twin then twins + 1 else twins) next

  -- The end of `Discover`, on the sources.
  unfoldable pub settle : Text → Coverage → Coverage
  unfolding compare_sources union drop_index_non_pages scope_index
  settle seed c = compare_sources (union (drop_index_non_pages (scope_index seed c)))
