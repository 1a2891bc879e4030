-- ===== src/Site/Discover/Sitemaps.antt =====
-- internal/site/discover/discover.go: where the sitemaps are, and the loop that reads them.
use docsearch.Site.Web.{Fetched}
use docsearch.Maps.{has}
use docsearch.Sync.{itoa}
use docsearch.Site.Discover.{
  SitemapRef, Fetcher, Token, Parsers, start_element, max_sitemap_depth, char_data, Fetched,
  end_element, other,
}
use docsearch.Site.Address.{Net}
use docsearch.Prelude.{
  ℕ, zero, suc, ◌+◌, Bool, true, false, not, ◌||◌, Option, none, some, List, [], ◌∷◌, ◌++◌, ltb,
  ◌==◌, if◌then◌else◌, is_empty, Text, codes, text_eq,
}
use docsearch.Results.{ok, err, Result}

-- `locReader`.
pub record LocReader : Type 0 where
  pub pages : List Text
  pub nested : List Text
  pub is_index : Bool
  pub saw_root : Bool
  pub in_loc : Bool

abbrev pub new_reader : LocReader
new_reader = record { pages = []; nested = []; is_index = false; saw_root = false; in_loc = false }

unfoldable pub add_loc : Text → LocReader → LocReader
add_loc loc r =
    if not r.in_loc || is_empty loc
    then r
    else if r.is_index
    then record r { nested = r.nested ++ loc ∷ [] }
    else record r { pages = r.pages ++ loc ∷ [] }

unfoldable pub see_root : Text → LocReader → LocReader
unfolding text_eq
see_root local r =
    if r.saw_root
    then r
    else record r { is_index = text_eq local (codes "sitemapindex"); saw_root = true }

module _ ⦃net : Net⦄ where
  unfoldable pub read_token : Token → LocReader → LocReader
  unfolding add_loc see_root text_eq
  read_token (start_element local) r = record (see_root local r) {
    in_loc = text_eq local (codes "loc");
  }
  read_token end_element r = record r { in_loc = false }
  read_token (char_data text) r = add_loc (net.trim_space text) r
  read_token other r = r

  unfoldable pub read_tokens : List Token → LocReader → LocReader
  unfolding read_token
  read_tokens [] r = r
  read_tokens (t ∷ ts) r = read_tokens ts (read_token t r)

unfoldable pub deeper : ℕ → List Text → List SitemapRef
deeper depth [] = []
deeper depth (u ∷ urls) =
    (record { url = u; depth = depth + 1; optional = false }) ∷ deeper depth urls

-- What one sitemap answers: its pages, the sitemaps it nests, and a note where there is one.
pub record Answer : Type 0 where
  pub found : List Text
  pub nested : List SitemapRef
  pub remark : List Text

abbrev pub no_answer : List Text → Answer
no_answer note = record { found = []; nested = []; remark = note }

pub record Sitemaps (W : Type 0) : Type 0 where
  pub world : W
  pub queue : List SitemapRef
  pub seen : List Text
  pub pages : List Text
  pub notes : List Text

module _ {W : Type 0} (f : Fetcher W) (p : Parsers) ⦃net : Net⦄ where
  -- `readSitemap`, on the answer to the request.
  unfoldable pub read_answer : SitemapRef → Result Text Fetched → Answer
  unfolding read_tokens deeper itoa
  read_answer ref (err e) = no_answer ((codes "sitemap " ++ ref.url ++ codes ": " ++ e) ∷ [])
  read_answer ref (ok res) =
      let r = read_tokens (p.xml_tokens res.body) new_reader in
      let note = codes "sitemap " ++ ref.url ++ codes ": HTTP " ++ itoa res.status in
      if res.status == 200
      then record { found = r.pages; nested = deeper ref.depth r.nested; remark = [] }
      else no_answer (if ref.optional then [] else note ∷ [])

  unfoldable pub read_sitemap : SitemapRef → Bool → W → Answer × W
  unfolding read_answer
  read_sitemap ref revalidate world =
      let (answer, after) = f.fetch ref.url revalidate world in (read_answer ref answer, after)

  -- One sitemap_round of the loop of `sitemapCandidates`, at the first of the queue.
  unfoldable pub take_ref : Bool → SitemapRef → Sitemaps W → Sitemaps W
  unfolding read_sitemap has
  take_ref revalidate ref s =
      let (answer, after) = read_sitemap ref revalidate s.world in
      let skipped : Bool = has ref.url s.seen || ltb max_sitemap_depth ref.depth in
      let read : Sitemaps W = record {
        world = after;
        queue = s.queue ++ answer.nested;
        seen = ref.url ∷ s.seen;
        pages = s.pages ++ answer.found;
        notes = s.notes ++ answer.remark;
      } in
      if skipped then s else read

  unfoldable pub sitemap_round :
      Bool → (Sitemaps W → Option (Sitemaps W)) → List SitemapRef → Sitemaps W → Option (Sitemaps W)
  unfolding take_ref
  sitemap_round revalidate next [] s = some s
  sitemap_round revalidate next (ref ∷ rest) s =
      next (take_ref revalidate ref (record s { queue = rest }))

  -- The loop, on fuel; `none` is out of fuel.
  unfoldable pub read_all : ℕ → Bool → Sitemaps W → Option (Sitemaps W)
  unfolding sitemap_round
  read_all zero revalidate s = if is_empty s.queue then some s else none
  read_all (suc fuel) revalidate s = sitemap_round revalidate (read_all fuel revalidate) s.queue s
