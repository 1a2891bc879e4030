-- ===== src/Site/Crawl.antt =====
-- internal/site/crawl/crawl.go: the crawler's state and what it keeps of a response.
pub mod Html
pub mod Walk
pub mod Run
use docsearch.Site.Web.{Coverage}
use docsearch.Prelude.{
  ℕ, Bool, List, [], ◌∷◌, ◌++◌, arith, if◌then◌else◌, any, Text, text_eq, ◌+◌, ◌-◌, length,
}

abbrev pub default_max_pages : ℕ
default_max_pages = 500

abbrev pub default_link_depth : ℕ
default_link_depth = 3

pub record Page : Type 0 where
  pub url : Text
  pub final_url : Text
  pub declared_title : Text
  pub body : Text

pub record Pair : Type 0 where
  pub url : Text
  pub reason : Text

pub data Phase : Type 0 where
  discover_phase fetch_phase : Phase

-- Why a response holds no content.
pub data Refusal : Type 0 where
  http_status : ℕ → Refusal
  not_html : Text → Refusal
  soft_404 : Refusal

pub data Reason : Type 0 where
  failed : Text → Reason
  refused : Refusal → Reason

-- A constructor for each format, with the values it is given.
pub data Note : Type 0 where
  said : Text → Note
  following_links : ℕ → Note
  answers_200 : Note
  seed_failed : Text → Text → Note
  seed_status : Text → ℕ → Note
  seed_not_kept : Text → Refusal → Note
  collapsed : ℕ → Note
  -- unreachable, declared
  not_fetched : ℕ → ℕ → Note

pub record Options : Type 0 where
  pub max_pages : ℕ
  pub link_depth : ℕ
  pub revalidate : Bool

pub record Entry : Type 0 where
  pub url : Text
  pub depth : ℕ

-- `crawler` and its `Result` in one record. `progress` is what the callback is told; `known` is the
-- set as a list in which no URL stands twice.
pub record Crawler (W S : Type 0) : Type 0 where
  pub world : W
  pub coverage : Coverage
  pub signature : S
  pub seed : Text
  pub opts : Options
  pub followed : Bool
  pub known : List Text
  pub queue : List Entry
  pub pages : List (Text × Page)
  pub order : List Text
  pub unreachable : List (Text × Reason)
  pub canonical_merges : List Pair
  pub notes : List Note
  pub progress : List (Phase × ℕ × ℕ)

pub data Error : Type 0 where
  cause : Text → Error
  out_of_fuel : Error

unfoldable pub contains : Text → List Text → Bool
unfolding text_eq
contains u urls = any (λ v. text_eq v u) urls

-- `known[u] = true`.
unfoldable pub add_known : Text → List Text → List Text
unfolding contains
add_known u known = if contains u known then known else known ++ u ∷ []

unfoldable pub add_all : List Text → List Text → List Text
unfolding add_known
add_all [] known = known
add_all (u ∷ us) known = add_all us (add_known u known)

-- `pages[url] = page`, and a read of a map that answers with the zero value.
unfoldable pub put_page : Text → Page → List (Text × Page) → List (Text × Page)
unfolding text_eq
put_page u page [] = (u, page) ∷ []
put_page u page ((v, old) ∷ rest) =
    if text_eq v u then (u, page) ∷ rest else (v, old) ∷ put_page u page rest

unfoldable pub title_of : Text → List (Text × Text) → Text
unfolding text_eq
title_of u [] = []
title_of u ((v, title) ∷ rest) = if text_eq v u then title else title_of u rest

abbrev pub page_urls : List (Text × Page) → List Text
page_urls [] = []
page_urls ((u, page) ∷ rest) = u ∷ page_urls rest

-- The entries that are queued and those that may still be.
abbrev pub work : {W S : Type 0} → Crawler W S → ℕ
work c = length c.queue + (c.opts.max_pages - length c.known)
