-- ===== src/Measure/Pages.antt =====
-- The pages no chunk claims, and the numbering of the chunks.
use docsearch.Chunking.Emit.{chunks}
use docsearch.Chunking.Emit.Total.{NumberedFrom, chunks-total}
use docsearch.Pystr.{Unicode}
use docsearch.Measure.{uncovered_from, uncovered_pages, gaps_from, claims, ordinal_gaps}
use docsearch.Document.{Chunk, Block}
use docsearch.Prelude.{
  ℕ, zero, suc, ◌+◌, ◌≡◌, refl, ap, inl, inr, Bool, not, ◌&&◌, some, List, [], ◌∷◌, arith, ltb, leb,
  ◌==◌, Bool-cases, any, ◌↔◌,
}

abbrev pub contains : ℕ → List ℕ → Bool
contains page = any (λ p. p == page)

any-claims :
    (page from : ℕ) (chunks : List Chunk)
    → from ≡ page
    → any (claims from) chunks ≡ any (claims page) chunks
any-claims page from chunks e = ap (λ p. any (claims p) chunks) e

uncovered_from-contains :
    (chunks : List Chunk) (from n page : ℕ)
    → contains page (uncovered_from chunks from n)
      ≡ ((leb from page && ltb page (from + n)) && not (any (claims page) chunks))
unfolding uncovered_from
uncovered_from-contains chunks from zero page = ground arith
uncovered_from-contains chunks from (suc n) page = elim (Bool-cases (from == page)) [
  | inl same ↦
      ground
        (arith, uncovered_from-contains chunks (suc from) n page, any-claims page from chunks, same)
  | inr other ↦ ground (arith, uncovered_from-contains chunks (suc from) n page, other)
]

-- A page of a paginated document is reported as uncovered exactly when it is one of its pages and
-- no chunk claims it.
pub uncovered_pages-contains :
    (chunks : List Chunk) (page_count page : ℕ)
    → contains page (uncovered_pages chunks (some page_count))
      ≡ ((leb 1 page && leb page page_count) && not (any (claims page) chunks))
unfolding uncovered_pages
uncovered_pages-contains chunks page_count page =
    ground (arith, uncovered_from-contains chunks 1 page_count page)

gaps_from-nil :
    (before : Chunk) (cs : List Chunk)
    → NumberedFrom (suc before.ordinal) cs
    → gaps_from before cs ≡ []
unfolding gaps_from
gaps_from-nil before [] h = refl
gaps_from-nil before (c ∷ cs) h = ground (arith, gaps_from-nil c cs, rw (← h.0) at h.1)

gaps-NumberedFrom :
    (before : Chunk) (cs : List Chunk)
    → gaps_from before cs ≡ []
    → NumberedFrom (suc before.ordinal) cs
unfolding gaps_from
gaps-NumberedFrom before [] h = tt
gaps-NumberedFrom before (c ∷ cs) h =
    let next : c.ordinal ≡ suc before.ordinal = ground (arith, h) in
    (next, rw (← next) (gaps-NumberedFrom c cs (ground (arith, h))))

-- A document's numbering shows no gap exactly when its chunks are numbered one after another from
-- the first one's ordinal.
pub ordinal_gaps-nil_iff :
    (c : Chunk) (cs : List Chunk) → (ordinal_gaps (c ∷ cs) ≡ []) ↔ NumberedFrom c.ordinal (c ∷ cs)
unfolding ordinal_gaps
ordinal_gaps-nil_iff c cs = (λ h. (refl, gaps-NumberedFrom c cs h), λ h. gaps_from-nil c cs h.1)

numbered-gaps : (cs : List Chunk) → NumberedFrom 0 cs → ordinal_gaps cs ≡ []
unfolding ordinal_gaps
numbered-gaps [] h = refl
numbered-gaps (c ∷ cs) h = gaps_from-nil c cs (rw h.0 h.1)

module _ ⦃u : Unicode⦄ where
  -- The chunks that are cut from a document show no gap in their numbering.
  pub ordinal_gaps-chunks :
      (blocks : List Block) → (cs : List Chunk) × (chunks blocks ≡ some cs) × (ordinal_gaps cs ≡ [])
  ordinal_gaps-chunks blocks =
      let (cs, e, cut, inked) = chunks-total blocks in (cs, e, numbered-gaps cs cut.numbered)
