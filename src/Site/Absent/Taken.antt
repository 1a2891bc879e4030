-- ===== src/Site/Absent/Taken.antt =====
-- internal/site/discover/absent.go: the signature that two probes give, and the pages it takes.
use mathlib.Core.List.{◌++◌}
use docsearch.Site.Web.{Fetched}
use mathlib.Core.Path.{subst}
use docsearch.Pystr.Numbers.{Cases}
use docsearch.Maps.{has, get}
use docsearch.Site.Absent.Template.{
  counted, IsDistinct, words_in, HoldsWords, share_words-counted, covers-HoldsWords,
  words_of-IsDistinct, counted_nothing, count_words-total,
}
use docsearch.Site.Discover.{Fetcher}
use docsearch.Pystr.{Unicode}
use docsearch.Site.Absent.{
  template_of, Signature, intersect, min_signature_tokens, Cases, differs, count_words, words_of,
  probe_words, second_answer, first_answer, not_found_signature, looks_absent, count_in, Fetched,
  is_found, words_from, no_words, first_probe,
}
use docsearch.Prelude.{
  ℕ, ◌≤◌, ◌≡◌, refl, sym, ap, ◌∙◌, inl, inr, Bool, true, false, not, Option, none, some, List, [],
  ◌∷◌, arith, ltb, ◌==◌, tests, Bool-cases, some-injective, if-false, if-true, Text, codes,
}
use docsearch.Results.{ok, err, Result, ok-injective, >>=-eq-ok}

no_template : {A : Type 0} (s : A) → none ≡ some s → ⊥
no_template s h = cc h

template_of-some :
    (a b s : Signature)
    → template_of a b ≡ some s
    → (intersect a b ≡ s) × (ltb s.total min_signature_tokens ≡ false)
unfolding template_of
template_of-some a b s h = elim (Bool-cases (differs a b)) [
  | inl e ↦ absurd (no_template s (sym (if-true _ _ _ e) ∙ h))
  | inr e ↦ elim (Bool-cases (ltb (intersect a b).total min_signature_tokens)) [
    | inl k ↦ absurd (no_template s (sym (if-false _ _ _ e ∙ if-true _ _ _ k) ∙ h))
    | inr k ↦
        let same = some-injective (sym (if-false _ _ _ e ∙ if-false _ _ _ k) ∙ h) in
        (same, subst (λ (t : Signature). ltb t.total min_signature_tokens ≡ false) same k)
  ]
]

-- What the probes give: the words they share, counted, eight at least.
abbrev IsTemplate : Signature → Type 0
IsTemplate s = (counted s.counts ≡ s.total) × (ltb s.total min_signature_tokens ≡ false)

template_of-IsTemplate :
    (a b s : Signature) → IsDistinct (words_in a.counts) → template_of a b ≡ some s → IsTemplate s
unfolding intersect has
template_of-IsTemplate a b s d h =
    let (same, k) = template_of-some a b s h in
    (
      subst (λ (t : Signature). counted t.counts ≡ t.total) same
          (share_words-counted a.counts b no_words d (λ u m. refl) refl),
      k,
    )

module _ ⦃u : Unicode⦄ ⦃c : Cases⦄ where
  counted_words :
      (words : List Text) (s : Signature)
      → HoldsWords s (count_words words no_words)
      → ltb 0 (counted s.counts) ≡ true
      → ltb 0 (count_words words no_words).total ≡ true
  unfolding count_words count_in get
  counted_words [] s h k = absurd (omega (tests, k, counted_nothing s.counts h))
  counted_words (w ∷ words) s h k = lt_total (count_words-total words _)
    where
      lt_total : {n : ℕ} → 1 ≤ n → ltb 0 n ≡ true
      lt_total h = ground (arith, h)

  -- A page that holds words of a template has words.
  words_of-total :
      (text : Text) (s : Signature)
      → HoldsWords s (words_of text)
      → ltb 0 (counted s.counts) ≡ true
      → ltb 0 (words_of text).total ≡ true
  unfolding words_of
  words_of-total text s h k = counted_words (words_from [] text) s h k

module _ {W : Type 0} (f : Fetcher W) (page_text : Text → Result Text Text) ⦃u : Unicode⦄
    ⦃c : Cases⦄ where
  probe_words-IsDistinct :
      (r : Result Text Fetched) (a : Signature)
      → probe_words f page_text r ≡ ok (some a)
      → IsDistinct (words_in a.counts)
  unfolding probe_words
  probe_words-IsDistinct (err e) a h = cc h
  probe_words-IsDistinct (ok res) a h = elim (Bool-cases (not (res.status == 200))) [
    | inl k ↦ absurd (no_template a (ok-injective (sym (if-true _ _ _ k) ∙ h)))
    | inr k ↦
        let (text, read, made) = >>=-eq-ok (page_text res.body) _ _ (sym (if-false _ _ _ k) ∙ h) in
        subst (λ (t : Signature). IsDistinct (words_in t.counts))
          (some-injective (ok-injective made)) (words_of-IsDistinct text)
  ]

  second_answer-IsTemplate :
      (a : Signature) (r : Result Text (Option Signature)) (s : Signature)
      → IsDistinct (words_in a.counts)
      → second_answer f page_text a r ≡ ok (some s)
      → IsTemplate s
  unfolding second_answer
  second_answer-IsTemplate a (err e) s d h = cc h
  second_answer-IsTemplate a (ok none) s d h = cc h
  second_answer-IsTemplate a (ok (some b)) s d h = template_of-IsTemplate a b s d (ok-injective h)

  first_answer-IsTemplate :
      (origin : Text) (revalidate : Bool) (r : Result Text (Option Signature)) (world : W)
      (s : Signature)
      → ((a : Signature) → r ≡ ok (some a) → IsDistinct (words_in a.counts))
      → (first_answer f page_text origin revalidate r world).0 ≡ ok (some s)
      → IsTemplate s
  unfolding first_answer
  first_answer-IsTemplate origin revalidate (err e) world s d h = cc h
  first_answer-IsTemplate origin revalidate (ok none) world s d h = cc h
  first_answer-IsTemplate origin revalidate (ok (some a)) world s d h =
      second_answer-IsTemplate a _ s (d a refl) h

  not_found_signature-IsTemplate :
      (origin : Text) (revalidate : Bool) (world : W) (s : Signature)
      → (not_found_signature f page_text origin revalidate world).0 ≡ ok (some s)
      → IsTemplate s
  unfolding not_found_signature
  not_found_signature-IsTemplate origin revalidate world s h =
      first_answer-IsTemplate origin revalidate _ _ s
        (λ a k.
          probe_words-IsDistinct (f.fetch (origin ++ codes "/" ++ first_probe) revalidate world).0 a
            k)
        h

  -- Where two probes give a signature, a page whose text holds each word of it as often as it does
  -- is taken for the not-found page, whatever else the page says.
  pub not_found_signature-taken :
      (origin : Text) (revalidate : Bool) (world : W) (s : Signature) (body text : Text)
      → (not_found_signature f page_text origin revalidate world).0 ≡ ok (some s)
      → page_text body ≡ ok text
      → HoldsWords s (words_of text)
      → looks_absent f page_text body (some s) ≡ ok true
  unfolding looks_absent is_found
  not_found_signature-taken origin revalidate world s body text h k m =
      let (summed, enough) = not_found_signature-IsTemplate origin revalidate world s h in
      let found : ltb 0 s.total ≡ true = ground (arith, enough) in
      let words : ltb 0 (words_of text).total ≡ true =
        words_of-total text s m (ap (ltb 0) summed ∙ found) in
      rw (found, k) (ap ok (covers-HoldsWords s (words_of text) summed m found words))
