-- ===== src/Site/Nav/Places.antt =====
-- internal/site/nav/nav.go: the URLs that `flatten_nodes` places.
use mathlib.Core.Path.{subst}
use docsearch.Maps.{has, bit, bit-step, has-append, has-same}
use docsearch.Prelude.{
  ℕ, ◌+◌, ◌≡◌, refl, sym, ap, ◌∙◌, inl, inr, true, false, ◌||◌, List, [], ◌∷◌, ◌++◌, arith,
  Bool-cases, is_empty, count_if, count_if-append, Text, text_eq, text_eq_iff, if-false, if-true,
}
use docsearch.Site.Nav.Flatten.{Flattener, add_placement, walk_nodes, flatten_nodes}
use docsearch.Site.Nav.{page, Placement, Go, NavTree, pages_of, node, nil}

-- How often the placements hold a URL.
abbrev pub placed_times : Text → List Placement → ℕ
placed_times u ps = count_if (λ p. text_eq p.url u) ps

abbrev pub IsSound : Text → Flattener → Type 0
IsSound u f = placed_times u f.placements ≡ bit (has u f.seen)

pub placed_times-append :
    (u : Text) (ps qs : List Placement)
    → placed_times u (ps ++ qs) ≡ placed_times u ps + placed_times u qs
placed_times-append u = count_if-append (λ p. text_eq p.url u)

placed_times-one : (u : Text) (p : Placement) → placed_times u (p ∷ []) ≡ bit (text_eq p.url u)
placed_times-one u p = ground arith

added-IsSound :
    (u : Text) (p : Placement) (f : Flattener)
    → IsSound u f
    → (text_eq p.url u ≡ true → has u f.seen ≡ false)
    → IsSound u (record { seen = p.url ∷ f.seen; placements = f.placements ++ p ∷ [] })
unfolding has
added-IsSound u p f h k =
    placed_times-append u f.placements (p ∷ [])
    ∙ ap (λ n. placed_times u f.placements + n) (placed_times-one u p)
    ∙ bit-step (text_eq p.url u) (has u f.seen) _ h k

gathered :
    (u : Text) (xs ys zs seen : List Text)
    → (has u zs || (has u ys || (has u xs || has u seen)))
      ≡ (has u (xs ++ (ys ++ zs)) || has u seen)
gathered u xs ys zs seen = ground (arith, has-append u xs (ys ++ zs), has-append u ys zs)

module _ ⦃go : Go⦄ where
  add_placement-IsSound :
      (title url section : Text) (ancestry : List Text) (u : Text) (f : Flattener)
      → IsSound u f
      → IsSound u (add_placement title url section ancestry f)
  unfolding add_placement has
  add_placement-IsSound title url section ancestry u f h =
      elim (Bool-cases (is_empty url || has url f.seen)) [
        | inl e ↦ subst (IsSound u) (sym (if-true _ f _ e)) h
        | inr e ↦
            subst (IsSound u) (sym (if-false _ f _ e))
              (added-IsSound u _ f h (has-same u url f.seen (ground (arith, e))))
      ]

  add_placement-seen :
      (title url section : Text) (ancestry : List Text) (u : Text) (f : Flattener)
      → has u (add_placement title url section ancestry f).seen ≡ (has u (page url) || has u f.seen)
  unfolding add_placement has page
  add_placement-seen title url section ancestry u f = elim (Bool-cases (is_empty url)) [
    | inl e ↦ rw e refl
    | inr e ↦ elim (Bool-cases (has url f.seen)) [
      | inl k ↦ rw (e, k) (ground (arith, k, text_eq_iff url u))
      | inr k ↦ rw (e, k) (ground arith)
    ]
  ]

  walk_nodes-IsSound :
      (nodes : NavTree) (i : ℕ) (path : Text) (ancestry : List Text) (u : Text) (f : Flattener)
      → IsSound u f
      → IsSound u (walk_nodes nodes i path ancestry f)
  unfolding walk_nodes
  walk_nodes-IsSound nil i path ancestry u f h = h
  walk_nodes-IsSound (node title url children rest) i path ancestry u f h =
      walk_nodes-IsSound rest (i + 1) path ancestry u _
        (walk_nodes-IsSound children 0 _ _ u _ (add_placement-IsSound title url _ ancestry u f h))

  walk_nodes-seen :
      (nodes : NavTree) (i : ℕ) (path : Text) (ancestry : List Text) (u : Text) (f : Flattener)
      → has u (walk_nodes nodes i path ancestry f).seen ≡ (has u (pages_of nodes) || has u f.seen)
  unfolding walk_nodes pages_of
  walk_nodes-seen nil i path ancestry u f = refl
  walk_nodes-seen (node title url children rest) i path ancestry u f =
      walk_nodes-seen rest (i + 1) path ancestry u _
      ∙ ap (λ b. has u (pages_of rest) || b)
          (walk_nodes-seen children 0 _ _ u _
            ∙ ap (λ b. has u (pages_of children) || b)
                (add_placement-seen title url _ ancestry u f))
      ∙ gathered u (page url) (pages_of children) (pages_of rest) f.seen

  -- A page of the tree is placed once, and nothing else is placed.
  pub flatten_nodes-once :
      (nodes : NavTree) (prefix u : Text)
      → placed_times u (flatten_nodes nodes prefix) ≡ bit (has u (pages_of nodes))
  unfolding flatten_nodes
  flatten_nodes-once nodes prefix u =
      walk_nodes-IsSound nodes 0 prefix [] u _ refl
      ∙ ap bit (walk_nodes-seen nodes 0 prefix [] u _ ∙ ground arith)
