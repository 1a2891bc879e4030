-- ===== src/Site/Absent.antt =====
-- internal/site/discover/absent.go: what a site's not-found page looks like.
pub mod Template
pub mod Taken
use docsearch.Site.Web.{Fetched}
use docsearch.Pystr.Numbers.{Cases, lower_text}
use docsearch.Site.Discover.{Fetcher}
use docsearch.Pystr.{Unicode}
use docsearch.Maps.{get, assign}
use docsearch.Prelude.{
  ℕ, ◌+◌, ◌*◌, min, max, Bool, false, not, ◌&&◌, ◌||◌, Option, none, some, List, [], ◌∷◌, ◌++◌,
  arith, ltb, leb, ◌==◌, if◌then◌else◌, Text, codes,
}
use docsearch.Results.{ok, err, ◌>>=◌, Result}

pub record Signature : Type 0 where
  pub counts : List (Text × ℕ)
  pub total : ℕ

abbrev pub no_words : Signature
no_words = record { counts = []; total = 0 }

abbrev pub min_signature_tokens : ℕ
min_signature_tokens = 8

-- `counts[w]`, which is 0 for a word that is not there.
unfoldable pub count_in : Text → List (Text × ℕ) → ℕ
unfolding get
count_in w counts = elim (get w counts) [ some n ↦ n | none ↦ 0 ]

-- `Found`, on a pointer that may be nil.
unfoldable pub is_found : Option Signature → Bool
is_found none = false
is_found (some s) = ltb 0 s.total

-- The runes of `word`.
module _ ⦃u : Unicode⦄ where
  unfoldable pub in_template_word : ℕ → Bool
  in_template_word r = u.is_letter r || u.is_number r

  abbrev pub end_word : Text → List Text → List Text
  end_word [] words = words
  end_word (r ∷ rs) words = (r ∷ rs) ∷ words

  -- `word.FindAllString`: the runs of such runes; `current` is the run that is being read.
  unfoldable pub words_from : Text → Text → List Text
  unfolding in_template_word
  words_from current [] = end_word current []
  words_from current (r ∷ rs) =
      let longer = words_from (current ++ r ∷ []) rs in
      let rest = end_word current (words_from [] rs) in if in_template_word r then longer else rest

  module _ ⦃c : Cases⦄ where
    unfoldable pub count_words : List Text → Signature → Signature
    unfolding assign lower_text count_in
    count_words [] s = s
    count_words (w ∷ words) s = count_words words (record {
      counts = assign (lower_text w) (count_in (lower_text w) s.counts + 1) s.counts;
      total = s.total + 1;
    })

    -- `tokens`.
    unfoldable pub words_of : Text → Signature
    unfolding words_from count_words
    words_of text = count_words (words_from [] text) no_words

-- One round of the loop of `intersect`.
unfoldable pub share_word : Text → ℕ → Signature → Signature → Signature
unfolding count_in assign
share_word w n b out =
    let m = min n (count_in w b.counts) in
    if ltb 0 m then record { counts = assign w m out.counts; total = out.total + m } else out

unfoldable pub share_words : List (Text × ℕ) → Signature → Signature → Signature
unfolding share_word
share_words [] b out = out
share_words ((w, n) ∷ counts) b out = share_words counts b (share_word w n b out)

unfoldable pub intersect : Signature → Signature → Signature
unfolding share_words
intersect a b = share_words a.counts b no_words

-- `resembles(a, b) < probeAgreement`, in whole numbers: the agreement is 7 tenths.
unfoldable pub differs : Signature → Signature → Bool
unfolding intersect
differs a b =
    a.total == 0 || b.total == 0 || ltb ((intersect a b).total * 10) (max a.total b.total * 7)

-- `covers(signature, page) >= resemblance`, in whole numbers: the resemblance is 9 tenths.
unfoldable pub covers : Signature → Signature → Bool
unfolding intersect
covers signature page =
    not (signature.total == 0 || page.total == 0)
    && leb (signature.total * 9) ((intersect signature page).total * 10)

abbrev pub first_probe : Text
first_probe = codes "zqxvj7-nonexistent"

abbrev pub second_probe : Text
second_probe = codes "kwmbp3-missingpage"

-- The end of `NotFoundSignature`, on the words of both probes.
unfoldable pub template_of : Signature → Signature → Option Signature
unfolding differs intersect
template_of a b =
    let shared = intersect a b in
    if differs a b
    then none
    else if ltb shared.total min_signature_tokens
    then none
    else some shared

-- `PageText` is goquery's; the error is its parser's.
module _ {W : Type 0} (f : Fetcher W) (page_text : Text → Result Text Text) ⦃u : Unicode⦄
    ⦃c : Cases⦄ where
  -- What one probe answers: its words, or none where there is no page.
  unfoldable pub probe_words : Result Text Fetched → Result Text (Option Signature)
  unfolding words_of
  probe_words (err e) = ok none
  probe_words (ok res) =
      if not (res.status == 200)
      then ok none
      else (page_text res.body >>= λ text. ok (some (words_of text)))

  unfoldable pub second_answer :
      Signature → Result Text (Option Signature) → Result Text (Option Signature)
  unfolding template_of
  second_answer a (err e) = err e
  second_answer a (ok none) = ok none
  second_answer a (ok (some b)) = ok (template_of a b)

  unfoldable pub first_answer :
      Text → Bool → Result Text (Option Signature) → W → Result Text (Option Signature) × W
  unfolding second_answer probe_words
  first_answer origin revalidate (err e) world = (err e, world)
  first_answer origin revalidate (ok none) world = (ok none, world)
  first_answer origin revalidate (ok (some a)) world =
      let (answer, after) = f.fetch (origin ++ codes "/" ++ second_probe) revalidate world in
      (second_answer a (probe_words answer), after)

  -- `NotFoundSignature`; `none` is nil.
  unfoldable pub not_found_signature : Text → Bool → W → Result Text (Option Signature) × W
  unfolding first_answer probe_words
  not_found_signature origin revalidate world =
      let (answer, after) = f.fetch (origin ++ codes "/" ++ first_probe) revalidate world in
      first_answer origin revalidate (probe_words answer) after

  unfoldable pub looks_absent : Text → Option Signature → Result Text Bool
  unfolding is_found covers words_of
  looks_absent body none = ok false
  looks_absent body (some s) =
      if not (is_found (some s))
      then ok false
      else (page_text body >>= λ text. ok (covers s (words_of text)))
