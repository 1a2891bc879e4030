-- ===== src/Site/Web.antt =====
-- What the crawler calls. `W` is the world that requests change (the network, the fetch cache and
-- its request budget), `S` a not-found signature and `H` a hierarchy of pages. Parsing of HTML and
-- of URLs is goquery and net/url.
use docsearch.Results.{Result}
use docsearch.Prelude.{ℕ, Bool, Option, List, Text}

pub record Fetched : Type 0 where
  pub status : ℕ
  pub content_type : Text
  pub body : Text
  pub final_url : Text

pub record Coverage : Type 0 where
  pub titles : List (Text × Text)
  pub urls : List Text
  pub from_sitemap : List Text
  pub from_index : List Text
  pub from_llms_txt : List Text
  pub notes : List Text

-- One link element of a page: its `rel` and `href` attributes, with a missing `rel` as empty.
pub record LinkElement : Type 0 where
  pub rel : Text
  pub href : Text

pub record Web (W S H : Type 0) : Type 0 where
  -- fetch.go, discover.go, absent.go, nav.go and normalize.go
  pub fetch : Text → Bool → W → Result Text Fetched × W
  pub reserve : ℕ → W → W
  pub discover : Text → Option Fetched → Bool → W → Result Text (Coverage × W)
  pub not_found_signature : Text → Bool → W → Result Text (S × W)
  pub found : S → Bool
  pub looks_absent : Text → S → Result Text Bool
  pub index_page_candidates : Text → Text → Result Text (List Text)
  pub in_prefix_scope : Text → Text → Bool
  pub normalize : Text → Result Text Text
  pub derive : List Text → Text → Option Text → Result Text H
  pub hierarchy_notes : H → List Text
  -- goquery, net/url, strings and context
  pub link_elements : Text → Result Text (List LinkElement)
  pub parse_url : Text → Result Text Text
  pub resolve : Text → Text → Result Text Text
  pub origin_of : Text → Text
  pub fields : Text → List Text
  pub trim_space : Text → Text
  pub equal_fold : Text → Text → Bool
  pub cancelled : W → Option Text
