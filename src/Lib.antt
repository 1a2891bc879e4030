-- ===== src/Lib.antt =====
-- docsearch cuts a document into chunks that can be searched, measures the result, grades it, and
-- reports what it found in the document's structure; around that core stand the services. This
-- library models the packages internal/domain and internal/pystr, and of the services the site
-- crawl, the sync client, the settings, the worker and the accounts. Adapters for PDF, DOCX, HTML,
-- Markdown and text produce blocks; `Chunks` turns blocks into chunks; `Measure`, `MeasureChunks`
-- and `Grade` read chunks. A worker claims jobs and runs an ingest for each; an ingest of a site
-- crawls it; the sync client uploads and removes documents by jobs; settings and accounts are
-- changed by their users.
--
-- Which file models which code:
--   Pystr       internal/pystr/pystr.go: Python's white space, words, strip and splitlines; Numbers is
--               internal/pystr/number.go: Atoi and Lower
--   Strings     what the code uses of Go's package strings: Join, Split, Cut, prefixes and suffixes
--   Tokens      internal/domain/tokens.go: the scan of CountAtoms, one rune a step, and the estimate
--   Enums       internal/domain/enums.go, and the enumerations of grade.go and inspect.go
--   Document    internal/domain/document.go: Block and Chunk
--   Heading     internal/domain/heading.go: HeadingStack.Push with its int level
--   Chunking    internal/domain/chunking.go, in the order of its stages:
--     Units       group, mergeSmall, foldChapterStubs
--     Pack        packByAtoms
--     Parts       unitParts, subdivideAtHeadings, capAtBlocks, splitBlock
--     Emit        emit, pageRange, and Chunks, which composes the stages
--     Kinds       ClassifyKinds, referenceFamily, isReferenceListing and its regular expression
--   Measure     internal/domain/measure.go, and ScatteredSections of structure.go
--   Paths       the counts of chunks per heading path, which structure.go and grade.go both take
--   Structure   internal/domain/structure.go and the notes of summary.go: the report and its policy
--   Grade       internal/domain/grade.go: the checks of the grader and the verdict
--   Inspect     internal/domain/inspect.go: wrapText and centred, on the words of strings.Fields
--   Upload      internal/upload/upload.go: the target of an uploaded file and its key
--   Sync        internal/docsync/docsync.go: the keys and readQueue; below it
--     Plan        decide, choose, retirements and Plan
--     Run         Syncer.Plan and Syncer.Run over the calls of both sides
--   Settings    internal/service/settings/settings.go:
--     Update      check, takes, sort, keep and Update
--     Tree        lookup, set and remove on the nodes of a YAML document
--     Scalar      scalarEnd with the ends of each style, and the splice of a line
--     Diff        shared, common and changedLines
--   Worker      internal/service/worker/worker.go: Next, execute and its endings, check and watch
--     Rotation    internal/service/worker/rotation.go: serve, round and turn
--   Password    internal/password/password.go: Authenticate, Add and SetPassword
--   Site        internal/site: Web has what the crawler calls, and
--     Crawl       internal/site/crawl/crawl.go: the crawler's state; Html has refusal and canonicalOf,
--                 Walk has keep, visit and walk, Run has run and Crawl
--     Discover    internal/site/discover/discover.go: Sitemaps has the loop over the sitemaps, Manifests
--                 where they and llms.txt are, Union the operations on Coverage, Run has Discover
--     Address     internal/site/fetch/normalize.go: Normalize and removeDotSegments
--     Absent      internal/site/discover/absent.go: NotFoundSignature and LooksAbsent
--     Nav         internal/site/nav/nav.go: Flatten has the numbering of a tree, Paths the tree of URL
--                 paths, Derive the choice of a source, place and Derive; Titles has titleFromSlug
--   UrlGuard    internal/urlguard/urlguard.go: AddrAllowed, HostAllowed and Check
-- Results has Go's pair of a value and an error, and Maps its maps with text keys.
-- Prelude has the tests on numbers, the lists, the sort and the equality of texts that all of them
-- share. Examples has concrete documents.
--
-- How the state corresponds: a text is the list of its runes (of its bytes in Nav, which slices it);
-- a slice is a list; a pointer that may be nil is an Option; a Go map is an association list in the
-- order of the first insertion, and what the source sorts is sorted here; a method that changes its
-- receiver returns the new value. Loops over a slice are structural recursion with a function for
-- one round. The loops that move an index by more than one (mergeSmall, SplitLines,
-- SplitLinesKeepEnds) run on fuel, the length of their input, and each round takes one element at
-- least. The crawler's walk runs on the length of its queue and what its page budget has left: a
-- visit takes an entry off the queue, and each link that it queues is one more known page. The loop
-- over the sitemaps runs on fuel: its depth is bounded by the code, and a site's sitemaps by a bound
-- on what one sitemap nests. Indexing an empty slice, which panics, is none.
--
-- Numbers: Go's int is taken as ℕ where the code only counts, and as ℤ for a heading's level. Shares
-- in float64 are compared with constants in whole numbers; a quotient of counts below 2^50 falls on
-- the same side. `round3`, which formats and parses a float, is a parameter, and so are the tables
-- of Go's package unicode (the record Unicode), of which two facts are used: white space is neither
-- a letter nor a number. The sorts of the source are stable insertion into a sorted list here.
--
-- Calls out of the modelled code change a state of the world, which is handed on: the crawler's are
-- the record Web (requests, discovery, navigation, HTML and URLs), discovery's are the records
-- Fetcher, Parsers and Net (net/url, goquery, encoding/xml, path), navigation's the record Go, the
-- sync's the record Peers, the settings' the record Places (the store, the file, and Rewrite with
-- its parser and printer), the worker's Service and Crew, and the accounts' Vault (the store,
-- argon2id, the semaphore and the clock). No law of them is assumed, but that a number may count the
-- comparisons of a Vault (the record Counts), what net/netip documents of IPv4 addresses (the record
-- NetipLaws), how Unicode assigns the digits of a script (the record DigitRuns), and, for discovery
-- to end, that path.Dir goes up from a path that starts at the root, that url.Parse gives such a path
-- or none where "://" follows the scheme, and that there is a bound on what one sitemap nests. On a
-- relative path, of which path.Dir gives ".", the loop over the manifests' directories would not end,
-- but a normalized seed has none. Times are distances from Go's zero time. The crawl's progress is the list
-- of what its callback is told; a note is a constructor for its format. The worker's ingest runs
-- beside its watch: one call gives the end of both, and the watch by itself is a loop over its
-- polls.
--
-- Not modelled: the wording of messages (notes and findings are constructors with their values, but
-- for those of discovery, which are texts), JSON, fetching of pages and the trees that are read of
-- HTML, the walk of Rewrite over its keys, the adapters and their third-party parsers, SQL, HTTP,
-- generated code and the commands.
pub mod Prelude
pub mod Pystr
pub mod Strings
pub mod Tokens
pub mod Enums
pub mod Document
pub mod Heading
pub mod Measure
pub mod Chunking
pub mod Paths
pub mod Structure
pub mod Grade
pub mod Inspect
pub mod Results
pub mod Site
pub mod Sync
pub mod Settings
pub mod Worker
pub mod Password
pub mod Upload
pub mod UrlGuard
pub mod Maps
pub mod Examples
