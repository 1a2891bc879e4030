-- ===== src/Site/Discover/Manifests.antt =====
-- internal/site/discover/discover.go: the manifests beside the seed and above it, and what they
-- and robots.txt list.
use docsearch.Site.Web.{Fetched}
use docsearch.Sync.{itoa}
use docsearch.Site.Address.{Net, Url}
use docsearch.Site.Discover.{TitledUrl, Fetcher, Parsers, Net, trim_suffix, SitemapRef, Fetched}
use docsearch.Prelude.{
  ℕ, zero, suc, ◌+◌, Bool, true, false, not, ◌||◌, Option, none, some, List, [], ◌∷◌, ◌++◌, ltb,
  ◌==◌, if◌then◌else◌, length, is_empty, Text, codes, text_eq,
}
use docsearch.Results.{ok, err, ◌>>=◌, Result}
use docsearch.Pystr.{strip, split_lines}
use docsearch.Strings.{cut, join, trim_suffix}

abbrev pub longer : Text → Option (List Text) → Option (List Text)
longer dir none = none
longer dir (some dirs) = some (dir ∷ dirs)

abbrev pub ended : Text → Option (List Text) → Option (List Text)
ended dir none = none
ended dir (some dirs) = some (dirs ++ dir ∷ [])

-- The loop of `manifestDirs` from one directory up, on fuel; `none` is out of fuel.
unfoldable pub dirs_above : (Text → Text) → ℕ → Text → Text → Option (List Text)
unfolding text_eq
dirs_above dir_of zero origin dir = none
dirs_above dir_of (suc fuel) origin dir =
    let above = dirs_above dir_of fuel origin (dir_of dir) in
    if is_empty dir || text_eq dir (codes "/")
    then some []
    else longer (origin ++ dir ++ codes "/") above

-- What is read of the seed's llms.txt files: the entries, the notes and the files with entries.
pub record Listed : Type 0 where
  pub entries : List TitledUrl
  pub notes : List Text
  pub read : List Text

module _ {W : Type 0} (f : Fetcher W) (p : Parsers) ⦃net : Net⦄ where
  -- `manifestDirs`, on the seed parsed.
  unfoldable pub dirs_of_url : Result Text Url → Option (List Text)
  unfolding dirs_above trim_suffix
  dirs_of_url (err e) = some []
  dirs_of_url (ok u) =
      let dir = trim_suffix (codes "/") u.escaped_path in
      let origin = u.scheme ++ codes "://" ++ u.host in
      ended (origin ++ codes "/") (dirs_above p.dir_of (length dir + 1) origin dir)

  unfoldable pub manifest_dirs : Text → Option (List Text)
  unfolding dirs_of_url
  manifest_dirs seed = dirs_of_url (net.parse_url seed)

  unfoldable pub titled : List (Text × Text) → List TitledUrl
  unfolding strip
  titled [] = []
  titled ((title, url) ∷ links) = (record { title = strip title; url = url }) ∷ titled links

  -- `readLLMsTxt`, on the answer to the request.
  unfoldable pub llms_entries : Result Text Fetched → Result Text (List TitledUrl)
  unfolding titled
  llms_entries (err e) = err e
  llms_entries (ok res) = ok (if res.status == 200 then titled (p.llms_links res.body) else [])

  -- One sitemap_round of the loop of `llmsTxtCandidates`.
  unfoldable pub note_entries : Text → Result Text (List TitledUrl) → Listed → Listed
  note_entries target (err e) l = record l {
    notes = l.notes ++ (codes "llms.txt " ++ target ++ codes ": " ++ e) ∷ [];
  }
  note_entries target (ok entries) l =
      if is_empty entries
      then l
      else record l { entries = l.entries ++ entries; read = l.read ++ target ∷ [] }

  unfoldable pub read_manifests : List Text → Bool → Listed → W → Listed × W
  unfolding note_entries llms_entries
  read_manifests [] revalidate l world = (l, world)
  read_manifests (dir ∷ dirs) revalidate l world =
      let target = dir ++ codes "llms.txt" in
      let (answer, after) = f.fetch target revalidate world in
      read_manifests dirs revalidate (note_entries target (llms_entries answer) l) after

  -- The end of `llmsTxtCandidates`.
  unfoldable pub read_note : Listed → List Text
  unfolding join
  read_note l =
      if ltb 1 (length l.read)
      then l.notes ++ (codes "llms.txt read at " ++ join (codes ", ") l.read) ∷ []
      else l.notes

  -- A line of robots.txt.
  unfoldable pub sitemap_line : Text → List Text
  unfolding cut strip
  sitemap_line line =
      let (name, value, found) = cut b':' line in
      let v = strip value in
      if not found || not (net.equal_fold (strip name) (codes "sitemap")) || is_empty v
      then []
      else v ∷ []

  unfoldable pub sitemap_lines : List Text → List Text
  unfolding sitemap_line
  sitemap_lines [] = []
  sitemap_lines (line ∷ lines) = sitemap_line line ++ sitemap_lines lines

  unfoldable pub sitemaps_from_robots : Text → W → Result Text (List Text) × W
  unfolding sitemap_lines split_lines
  sitemaps_from_robots origin world =
      let (body, after) = f.robots (origin ++ codes "/") world in
      (body >>= λ text. ok (sitemap_lines (split_lines text)), after)

  unfoldable pub probed : Text → List Text → List SitemapRef
  unfolding text_eq
  probed origin [] = []
  probed origin (dir ∷ dirs) =
      let rest = probed origin dirs in
      let ref : SitemapRef = record {
        url = dir ++ codes "sitemap.xml";
        depth = 0;
        optional = true;
      } in
      if text_eq dir (origin ++ codes "/") then rest else ref ∷ rest

  unfoldable pub named : List Text → List SitemapRef
  named [] = []
  named (d ∷ names) = (record { url = d; depth = 0; optional = false }) ∷ named names

  -- `sitemapRoots`, on what robots.txt names: the queue and the notes.
  unfoldable pub sitemap_roots : Text → List Text → List Text → List SitemapRef × List Text
  unfolding probed named itoa
  sitemap_roots origin dirs [] = (
    probed origin dirs
        ++ (record { url = origin ++ codes "/sitemap.xml"; depth = 0; optional = false }) ∷ [],
    [],
  )
  sitemap_roots origin dirs (d ∷ names) = (
    probed origin dirs ++ named (d ∷ names),
    (codes "robots.txt names " ++ itoa (length (d ∷ names)) ++ codes " sitemap(s)") ∷ [],
  )
