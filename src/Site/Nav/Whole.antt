-- ===== src/Site/Nav/Whole.antt =====
-- internal/site/nav/nav.go: what `Derive` places of the page set.
use mathlib.Core.Path.{subst}
use docsearch.Site.Nav.Once.{url_path_tree-pages}
use docsearch.Site.Nav.Paths.{url_path_tree}
use docsearch.Enums.{StructureSource}
use docsearch.Site.Nav.Places.{placed_times, flatten_nodes-once, placed_times-append}
use docsearch.Site.Nav.Derive.{
  urls_of, place, consider, derive_from, derive, Candidate, best_candidate, Hierarchy, Note,
  Declared, covered_pages, by_path, no_candidate,
}
use docsearch.Maps.{has, bit, has-select, has-eq}
use docsearch.Site.Nav.{Placement, Go, NavTree, node, nil}
use docsearch.Prelude.{
  ℕ, ◌+◌, ◌≤◌, ◌≡◌, refl, ap, Bool, true, not, ◌&&◌, List, [], ◌∷◌, arith, ltb, if◌then◌else◌,
  select, Text, text_eq, ◌*◌, ◌∙◌, inl, inr, false, Option, Bool-cases, length, is_empty, sym, none,
  some, if-false, if-true,
}
use docsearch.Site.Nav.Flatten.{flatten_nodes}
use docsearch.Site.Nav.Derive.{Note}
use docsearch.Site.Nav.{node, nil}
use docsearch.Results.{ok, Result, >>=-eq-ok, ok-injective}

abbrev AtMostOnce : List Placement → Type 0
AtMostOnce ps = (u : Text) → placed_times u ps ≤ 1

abbrev wanted : List Text → List Placement → List Placement
wanted coverage ps = select (λ p. has p.url coverage) ps

select-cons :
    {A : Type 0} (p : A → Bool) (x : A) (xs : List A)
    → select p (x ∷ xs) ≡ (if p x then x ∷ select p xs else select p xs)
select-cons p x xs = ground arith

placed_times-cons :
    (u : Text) (p : Placement) (ps : List Placement)
    → placed_times u (p ∷ ps) ≡ bit (text_eq p.url u) + placed_times u ps
placed_times-cons u p ps = ground arith

wanted-times :
    (u : Text) (coverage : List Text) (ps : List Placement)
    → placed_times u (wanted coverage ps) ≡ (if has u coverage then placed_times u ps else 0)
wanted-times u coverage [] = ground arith
wanted-times u coverage (p ∷ ps) =
    ground (arith, wanted-times u coverage ps, has-eq u p.url coverage)

urls-times : (u : Text) (ps : List Placement) → has u (urls_of ps) ≡ ltb 0 (placed_times u ps)
unfolding urls_of has
urls-times u [] = refl
urls-times u (p ∷ ps) = ground (arith, urls-times u ps)

has-none : (u : Text) (xs : List Text) → is_empty xs ≡ true → has u xs ≡ false
unfolding has
has-none u [] e = refl
has-none u (x ∷ xs) e = cc e

none_known : (u : Text) → 0 ≡ bit (has u [])
unfolding has
none_known u = refl

plus_none : {b : Bool} (n : ℕ) → b ≡ false → n ≡ n + bit b
plus_none n h = rw h (omega arith)

once :
    (known : Bool) (n m : ℕ)
    → n ≡ (if known then m else 0)
    → m ≤ 1
    → n + bit (known && not (ltb 0 n)) ≡ bit known
once known n m h k = ground (arith, h, k)

module _ ⦃go : Go⦄ where
  place-once :
      (best : Candidate) (coverage : List Text) (seed : Text) (h : Hierarchy) (u : Text)
      → AtMostOnce best.placements
      → is_empty u ≡ false
      → placed_times u (place best coverage seed h).placements ≡ bit (has u coverage)
  unfolding place
  place-once best coverage seed h u most k =
      let kept : List Placement = wanted coverage best.placements in
      let missing : List Text = select (λ v. not (has v (urls_of kept))) coverage in
      let left : has u missing ≡ (has u coverage && not (ltb 0 (placed_times u kept))) =
        has-select u coverage _ ∙ ap (λ b. has u coverage && not b) (urls-times u kept) in
      let all : placed_times u kept + bit (has u missing) ≡ bit (has u coverage) =
        ap (λ b. placed_times u kept + bit b) left
        ∙ once (has u coverage) _ _ (wanted-times u coverage best.placements) (most u) in
      elim (Bool-cases (is_empty missing)) [
        | inl e ↦
            subst (λ (g : Hierarchy). placed_times u g.placements ≡ bit (has u coverage))
              (sym (if-true _ _ _ e)) (plus_none _ (has-none u missing e) ∙ all)
        | inr e ↦
            subst (λ (g : Hierarchy). placed_times u g.placements ≡ bit (has u coverage))
              (sym (if-false _ _ _ e))
              (placed_times-append u kept _
                ∙ ap (λ n. placed_times u kept + n)
                    (flatten_nodes-once (url_path_tree missing seed) _ u
                      ∙ ap bit (url_path_tree-pages u missing seed k))
                ∙ all)
      ]

  flatten_nodes-AtMostOnce :
      (nodes : NavTree) (prefix : Text) → AtMostOnce (flatten_nodes nodes prefix)
  flatten_nodes-AtMostOnce nodes prefix u = ground (arith, flatten_nodes-once nodes prefix u)

  consider-AtMostOnce :
      (coverage : List Text) (name : StructureSource) (nodes : NavTree) (best : Candidate)
      (notes : List Note)
      → AtMostOnce best.placements
      → AtMostOnce (consider coverage name nodes (best, notes)).0.placements
  unfolding consider
  consider-AtMostOnce coverage name nil best notes h = h
  consider-AtMostOnce coverage name (node t v c r) best notes h =
      elim (Bool-cases
        (ltb best.share (covered_pages (flatten_nodes (node t v c r) []) coverage))) [
          | inl e ↦ rw e (flatten_nodes-AtMostOnce (node t v c r) [])
          | inr e ↦ rw e h
        ]

  derive_from-once :
      (coverage : List Text) (seed : Text) (best : Candidate) (notes : List Note) (u : Text)
      → AtMostOnce best.placements
      → is_empty u ≡ false
      → placed_times u (derive_from coverage seed best notes).placements ≡ bit (has u coverage)
  unfolding derive_from
  derive_from-once coverage seed best notes u most k =
      elim (Bool-cases (ltb (best.share * 2) (length coverage))) [
        | inl e ↦ rw e (
            flatten_nodes-once (url_path_tree coverage seed) [] u
            ∙ ap bit (url_path_tree-pages u coverage seed k))
        | inr e ↦ rw e (place-once best coverage seed (by_path notes) u most k)
      ]

  best-AtMostOnce :
      (declared : Text → Result Text Declared) (seed_html : Option Text) (coverage : List Text)
      (found : Candidate × List Note)
      → best_candidate declared seed_html coverage ≡ ok found
      → AtMostOnce found.0.placements
  unfolding best_candidate
  best-AtMostOnce declared none coverage found h =
      subst (λ (f : Candidate × List Note). AtMostOnce f.0.placements) (ok-injective h)
        (λ u. omega arith)
  best-AtMostOnce declared (some html) coverage found h =
      let (trees, read, made) = >>=-eq-ok (declared html) _ found h in
      subst (λ (f : Candidate × List Note). AtMostOnce f.0.placements) (ok-injective made)
        (consider-AtMostOnce coverage _ trees.index _ _
          (consider-AtMostOnce coverage _ trees.sidebar no_candidate [] (λ u. omega arith)))

  -- In the hierarchy that `Derive` returns, whatever the page declares of it, each page of the page
  -- set is placed once, and no other page is placed. (No page has the empty URL.)
  pub derive-once :
      (declared : Text → Result Text Declared) (coverage : List Text) (seed : Text)
      (seed_html : Option Text) (h : Hierarchy) (u : Text)
      → derive declared coverage seed seed_html ≡ ok h
      → is_empty u ≡ false
      → placed_times u h.placements ≡ bit (has u coverage)
  unfolding derive
  derive-once declared [] seed seed_html h u done k =
      subst (λ (g : Hierarchy). placed_times u g.placements ≡ bit (has u [])) (ok-injective done)
        (none_known u)
  derive-once declared (v ∷ urls) seed seed_html h u done k =
      let (found, read, made) = >>=-eq-ok (best_candidate declared seed_html (v ∷ urls)) _ h done in
      subst (λ (g : Hierarchy). placed_times u g.placements ≡ bit (has u (v ∷ urls)))
        (ok-injective made)
        (derive_from-once (v ∷ urls) seed found.0 found.1 u
          (best-AtMostOnce declared seed_html (v ∷ urls) found read) k)
