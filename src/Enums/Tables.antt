-- ===== src/Enums/Tables.antt =====
-- `enumText`: the two maps between an enum's values and their texts, and the tables of the enums.
use docsearch.Prelude.{
  ℕ, Bool, Option, none, some, List, [], ◌∷◌, ◌==◌, if◌then◌else◌, Text, codes, text_eq,
}
use docsearch.Enums.{Quality, ChunkKind, SourceKind, StructureSource, Verdict, Level}

-- A Go map with keys of type `K`, as an association list.
unfoldable pub lookup {ℓ κ} :
    {K : Type ℓ} {V : Type κ} → (K → K → Bool) → K → List (K × V) → Option V
lookup eq k [] = none
lookup eq k ((j, v) ∷ rest) = if eq j k then some v else lookup eq k rest

-- A table names the values; the inverse map is made from it.
pub record EnumText (T : Type 0) : Type 0 where
  pub eq : T → T → Bool
  pub names : List (T × Text)
  pub values : List (Text × T)

unfoldable pub invert : {T : Type 0} → List (T × Text) → List (Text × T)
invert [] = []
invert ((v, name) ∷ rest) = (name, v) ∷ invert rest

unfoldable pub new_enum_text : {T : Type 0} → (T → T → Bool) → List (T × Text) → EnumText T
unfolding invert
new_enum_text eq names = record { eq = eq; names = names; values = invert names }

-- `none` is the error about an unknown value.
unfoldable pub marshal : {T : Type 0} → EnumText T → T → Option Text
unfolding lookup
marshal e v = lookup e.eq v e.names

unfoldable pub parse : {T : Type 0} → EnumText T → Text → Option T
unfolding lookup text_eq
parse e text = lookup text_eq text e.values

abbrev pub source_code : StructureSource → ℕ
source_code StructureSource.unset = 0
source_code StructureSource.outline = 1
source_code StructureSource.front_toc = 2
source_code StructureSource.sidebar_dom = 3
source_code StructureSource.index_page = 4
source_code StructureSource.font_heuristic = 5
source_code StructureSource.url_path = 6
source_code StructureSource.atx_headings = 7
source_code StructureSource.html_nesting = 8
source_code StructureSource.heading_styles = 9
source_code StructureSource.blank_lines = 10
source_code StructureSource.unknown = 11

abbrev pub quality_code : Quality → ℕ
quality_code Quality.unset = 0
quality_code Quality.ok = 1
quality_code Quality.degraded = 2
quality_code Quality.failed = 3

abbrev pub kind_code : ChunkKind → ℕ
kind_code ChunkKind.unset = 0
kind_code ChunkKind.prose = 1
kind_code ChunkKind.keyword_reference = 2

abbrev pub source_kind_code : SourceKind → ℕ
source_kind_code SourceKind.unset = 0
source_kind_code SourceKind.file = 1
source_kind_code SourceKind.site = 2
source_kind_code SourceKind.upload = 3

abbrev pub verdict_code : Verdict → ℕ
verdict_code Verdict.unset = 0
verdict_code Verdict.good = 1
verdict_code Verdict.degraded = 2
verdict_code Verdict.unusable = 3

abbrev pub level_code : Level → ℕ
level_code Level.unset = 0
level_code Level.ok = 1
level_code Level.warn = 2
level_code Level.blocked = 3

unfoldable pub quality_text : EnumText Quality
unfolding new_enum_text
quality_text =
    new_enum_text (λ a b. quality_code a == quality_code b)
      ((Quality.ok, codes "ok")
        ∷ (Quality.degraded, codes "degraded")
        ∷ (Quality.failed, codes "failed")
        ∷ [])

unfoldable pub chunk_kind_text : EnumText ChunkKind
unfolding new_enum_text
chunk_kind_text =
    new_enum_text (λ a b. kind_code a == kind_code b)
      ((ChunkKind.prose, codes "prose")
        ∷ (ChunkKind.keyword_reference, codes "keyword-reference")
        ∷ [])

unfoldable pub source_kind_text : EnumText SourceKind
unfolding new_enum_text
source_kind_text =
    new_enum_text (λ a b. source_kind_code a == source_kind_code b)
      ((SourceKind.file, codes "file")
        ∷ (SourceKind.site, codes "site")
        ∷ (SourceKind.upload, codes "upload")
        ∷ [])

unfoldable pub structure_source_text : EnumText StructureSource
unfolding new_enum_text
structure_source_text =
    new_enum_text (λ a b. source_code a == source_code b)
      ((StructureSource.outline, codes "outline")
        ∷ (StructureSource.front_toc, codes "front_toc")
        ∷ (StructureSource.sidebar_dom, codes "sidebar_dom")
        ∷ (StructureSource.index_page, codes "index_page")
        ∷ (StructureSource.font_heuristic, codes "font_heuristic")
        ∷ (StructureSource.url_path, codes "url_path")
        ∷ (StructureSource.atx_headings, codes "atx_headings")
        ∷ (StructureSource.html_nesting, codes "h1_h6_nesting")
        ∷ (StructureSource.heading_styles, codes "heading_styles")
        ∷ (StructureSource.blank_lines, codes "none (blank-line paragraphs)")
        ∷ (StructureSource.unknown, codes "unknown")
        ∷ [])

unfoldable pub verdict_text : EnumText Verdict
unfolding new_enum_text
verdict_text =
    new_enum_text (λ a b. verdict_code a == verdict_code b)
      ((Verdict.good, codes "good")
        ∷ (Verdict.degraded, codes "degraded")
        ∷ (Verdict.unusable, codes "unusable")
        ∷ [])

unfoldable pub level_text : EnumText Level
unfolding new_enum_text
level_text =
    new_enum_text (λ a b. level_code a == level_code b)
      ((Level.ok, codes "ok") ∷ (Level.warn, codes "warn") ∷ (Level.blocked, codes "blocked") ∷ [])
