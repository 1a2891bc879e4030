-- ===== src/Site/Absent/Template.antt =====
-- internal/site/discover/absent.go: a page that holds the template is taken for the not-found page.
use docsearch.Pystr.{Unicode}
use docsearch.Pystr.Numbers.{Cases, lower_text}
use mathlib.Core.Path.{subst}
use mathlib.Core.Bool.{◌||◌}
use docsearch.Site.Absent.{
  share_words, Signature, share_word, count_in, count_words, words_of, covers, Cases, Unicode,
  intersect, words_from, no_words,
}
use docsearch.Maps.{times, has, assign, has-eq, has-same, has-append}
use docsearch.Prelude.{
  ℕ, ◌+◌, ◌≤◌, ◌≡◌, refl, true, false, List, [], ◌∷◌, ◌++◌, arith, ltb, if◌then◌else◌, sum_by, Text,
  text_eq_refl, text_eq, min, sym, ap, ◌∙◌, inl, inr, Bool, Bool-cases, text_eq_iff, ◌==◌, ◌*◌, not,
  ◌&&◌, leb, tests, count_if-append, All,
}

-- The counts sum to the total, and no word stands twice.
abbrev pub words_in : List (Text × ℕ) → List Text
words_in [] = []
words_in ((w, n) ∷ counts) = w ∷ words_in counts

abbrev pub IsDistinct : List Text → Type 0
IsDistinct ws = (u : Text) → times u ws ≤ 1

abbrev pub counted : List (Text × ℕ) → ℕ
counted counts = sum_by (λ e. e.1) counts

has-times : (u : Text) (ws : List Text) → has u ws ≡ ltb 0 (times u ws)
unfolding has
has-times u [] = refl
has-times u (w ∷ ws) = ground (arith, has-times u ws)

times-tail : (u w : Text) (ws : List Text) → times u (w ∷ ws) ≤ 1 → times u ws ≤ 1
times-tail u w ws h = ground (arith, h)

head-once : (w : Text) (ws : List Text) → times w (w ∷ ws) ≤ 1 → has w ws ≡ false
head-once w ws h = ground (arith, h, has-times w ws, text_eq_refl w)

if-out :
    (b : Bool) (v : Text) (xs ys : List Text)
    → v ∷ (if b then xs else ys) ≡ (if b then v ∷ xs else v ∷ ys)
if-out true v xs ys = refl
if-out false v xs ys = refl

words_in-assign :
    (w : Text) (n : ℕ) (counts : List (Text × ℕ))
    → words_in (assign w n counts)
      ≡ (if has w (words_in counts) then words_in counts else words_in counts ++ w ∷ [])
unfolding assign has
words_in-assign w n [] = refl
words_in-assign w n ((v, m) ∷ counts) = elim (Bool-cases (text_eq v w)) [
  | inl e ↦ rw e (ap (λ x. x ∷ words_in counts) (sym ((text_eq_iff v w).0 e)))
  | inr e ↦ rw e (
      ap (λ ws. v ∷ ws) (words_in-assign w n counts)
      ∙ if-out (has w (words_in counts)) v (words_in counts) (words_in counts ++ w ∷ []))
]

counted-assign :
    (w : Text) (n : ℕ) (counts : List (Text × ℕ))
    → has w (words_in counts) ≡ false
    → counted (assign w n counts) ≡ counted counts + n
unfolding assign has
counted-assign w n [] h = omega arith
counted-assign w n ((v, m) ∷ counts) h = ground (arith, h, counted-assign w n counts)

has-assign :
    (u w : Text) (n : ℕ) (counts : List (Text × ℕ))
    → has u (words_in (assign w n counts)) ≡ (text_eq w u || has u (words_in counts))
unfolding has
has-assign u w n counts =
    ap (has u) (words_in-assign w n counts) ∙ elim (Bool-cases (has w (words_in counts))) [
      | inl e ↦ rw e (ground (arith, e, has-eq u w (words_in counts)))
      | inr e ↦ rw e (has-append u (words_in counts) (w ∷ []) ∙ ground arith)
    ]

share_word-counted :
    (w : Text) (n : ℕ) (b out : Signature)
    → has w (words_in out.counts) ≡ false
    → counted out.counts ≡ out.total
    → counted (share_word w n b out).counts ≡ (share_word w n b out).total
unfolding share_word
share_word-counted w n b out h k = elim (Bool-cases (ltb 0 (min n (count_in w b.counts)))) [
  | inl e ↦ rw e (counted-assign w _ out.counts h ∙ ap (λ t. t + min n (count_in w b.counts)) k)
  | inr e ↦ rw e k
]

share_word-words :
    (u w : Text) (n : ℕ) (b out : Signature)
    → has u (words_in (share_word w n b out).counts) ≡ true
    → (text_eq w u || has u (words_in out.counts)) ≡ true
unfolding share_word has
share_word-words u w n b out = elim (Bool-cases (ltb 0 (min n (count_in w b.counts)))) [
  | inl e ↦ rw e (λ h. sym (has-assign u w _ out.counts) ∙ h)
  | inr e ↦ rw e (λ h. ground (arith, h))
]

-- A word of the rest is new still.
still_new :
    (u w : Text) (n : ℕ) (counts : List (Text × ℕ)) (b out : Signature)
    → has w (words_in counts) ≡ false
    → has u (words_in counts) ≡ true
    → has u (words_in out.counts) ≡ false
    → has u (words_in (share_word w n b out).counts) ≡ false
still_new u w n counts b out d m k =
    ground (arith, d, m, k, has-eq u w (words_in counts), share_word-words u w n b out)

here : (w : Text) (ws : List Text) → has w (w ∷ ws) ≡ true
unfolding has
here w ws = rw (text_eq_refl w) refl

there : (u w : Text) (ws : List Text) → has u ws ≡ true → has u (w ∷ ws) ≡ true
unfolding has
there u w ws h = ground (arith, h)

one_more :
    (u w : Text) (ws : List Text)
    → times u ws ≤ 1
    → has w ws ≡ false
    → times u ws + times u (w ∷ []) ≤ 1
one_more u w ws h e = ground (arith, h, has-times u ws, has-same u w ws e)

assign-IsDistinct :
    (w : Text) (n : ℕ) (counts : List (Text × ℕ))
    → IsDistinct (words_in counts)
    → IsDistinct (words_in (assign w n counts))
assign-IsDistinct w n counts d u =
    subst (λ ws. times u ws ≤ 1) (sym (words_in-assign w n counts))
      (elim (Bool-cases (has w (words_in counts))) [
        | inl e ↦ rw e (d u)
        | inr e ↦ rw e (
            omega (
              arith,
              count_if-append (λ (k : Text). text_eq k u) (words_in counts) (w ∷ []),
              one_more u w (words_in counts) (d u) e,
            ))
      ])

share_word-total :
    (w : Text) (n : ℕ) (page out : Signature)
    → n ≤ count_in w page.counts
    → (share_word w n page out).total ≡ out.total + n
unfolding share_word
share_word-total w n page out h = elim (Bool-cases (ltb 0 (min n (count_in w page.counts)))) [
  | inl e ↦ rw e (omega (arith, h))
  | inr e ↦ rw e (omega (tests, h, e))
]

covered_all :
    (shared total page : ℕ)
    → shared ≡ total
    → ltb 0 total ≡ true
    → ltb 0 page ≡ true
    → (not (total == 0 || page == 0) && leb (total * 9) (shared * 10)) ≡ true
covered_all shared total page h k l = ground (arith, h, k, l)

-- What `intersect` keeps sums to its total.
pub share_words-counted :
    (counts : List (Text × ℕ)) (b out : Signature)
    → IsDistinct (words_in counts)
    → ((u : Text) → has u (words_in counts) ≡ true → has u (words_in out.counts) ≡ false)
    → counted out.counts ≡ out.total
    → counted (share_words counts b out).counts ≡ (share_words counts b out).total
unfolding share_words
share_words-counted [] b out d h k = k
share_words-counted ((w, n) ∷ counts) b out d h k =
    let unseen : has w (words_in out.counts) ≡ false = h w (here w (words_in counts)) in
    share_words-counted counts b (share_word w n b out)
      (λ u. times-tail u w (words_in counts) (d u))
      (λ u m.
        still_new u w n counts b out (head-once w (words_in counts) (d w)) m
          (h u (there u w (words_in counts) m)))
      (share_word-counted w n b out unseen k)

-- The words of a text are counted once each.
count_words-IsDistinct :
    ⦃u : Unicode⦄ ⦃c : Cases⦄ (words : List Text) (s : Signature)
    → IsDistinct (words_in s.counts)
    → IsDistinct (words_in (count_words words s).counts)
unfolding count_words
count_words-IsDistinct [] s d = d
count_words-IsDistinct (w ∷ words) s d =
    count_words-IsDistinct words _ (assign-IsDistinct (lower_text w) _ s.counts d)

pub words_of-IsDistinct :
    ⦃u : Unicode⦄ ⦃c : Cases⦄ (text : Text) → IsDistinct (words_in (words_of text).counts)
unfolding words_of
words_of-IsDistinct text = count_words-IsDistinct (words_from [] text) no_words (λ u. omega arith)

-- The page holds each word of the template as often as the template does.
abbrev pub HoldsWords : Signature → Signature → Type 0
HoldsWords s page = All (λ e. e.1 ≤ count_in e.0 page.counts) s.counts

share_words-total :
    (counts : List (Text × ℕ)) (page out : Signature)
    → All (λ e. e.1 ≤ count_in e.0 page.counts) counts
    → (share_words counts page out).total ≡ counted counts + out.total
unfolding share_words
share_words-total [] page out h = omega arith
share_words-total ((w, n) ∷ counts) page out h =
    share_words-total counts page (share_word w n page out) h.1
    ∙ omega (arith, share_word-total w n page out h.0)

-- A page that holds the template is taken for the not-found page.
pub covers-HoldsWords :
    (s page : Signature)
    → counted s.counts ≡ s.total
    → HoldsWords s page
    → ltb 0 s.total ≡ true
    → ltb 0 page.total ≡ true
    → covers s page ≡ true
unfolding covers intersect
covers-HoldsWords s page summed h found k =
    covered_all (intersect s page).total s.total page.total
      (share_words-total s.counts page no_words h ∙ omega (arith, summed)) found k

pub counted_nothing : (counts : List (Text × ℕ)) → All (λ e. e.1 ≤ 0) counts → counted counts ≡ 0
counted_nothing [] h = refl
counted_nothing ((w, n) ∷ counts) h = omega (arith, h.0, counted_nothing counts h.1)

pub count_words-total :
    ⦃u : Unicode⦄ ⦃c : Cases⦄ (words : List Text) (s : Signature)
    → s.total ≤ (count_words words s).total
unfolding count_words
count_words-total [] s = omega arith
count_words-total (w ∷ words) s = omega (
  arith,
  count_words-total words (record {
    counts = assign (lower_text w) (count_in (lower_text w) s.counts + 1) s.counts;
    total = s.total + 1;
  }),
)
