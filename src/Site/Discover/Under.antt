-- ===== src/Site/Discover/Under.antt =====
-- `InPrefixScope`: what it is for a URL to be under the seed.
use docsearch.Strings.Laws.{starts_with-split}
use docsearch.Site.Discover.{in_prefix_scope, ends_with, in_scope}
use docsearch.Strings.{starts_with, ends_with}
use docsearch.Results.{ok, Result, err}
use docsearch.Prelude.{
  ◌≡◌, refl, sym, ◌⊎◌, inl, inr, true, ◌||◌, ◌++◌, arith, if◌then◌else◌, Bool-cases, length, drop,
  Text, codes, text_eq, text_eq_iff,
}
use docsearch.Site.Address.{Net, Url}

-- Both URLs can be parsed, to one host, and the path is the seed's or goes on from it behind a slash.
abbrev pub IsUnder : ⦃net : Net⦄ → Text → Text → Type 0
IsUnder ⦃net⦄ raw seed =
    (u : Url) × (s : Url) × (net.parse_url raw ≡ ok u)
    × (net.parse_url seed ≡ ok s)
    × (net.equal_fold u.hostname s.hostname ≡ true)
    × ((u.path ≡ s.path)
        ⊎ ((rest : Text) × (u.path ≡ (s.path ++ codes "/") ++ rest))
        ⊎ ((rest : Text) × (ends_with (codes "/") s.path ≡ true) × (u.path ≡ s.path ++ rest)))

path_under :
    (path base : Text)
    → (text_eq path base
        || starts_with (if ends_with (codes "/") base then base else base ++ codes "/") path)
      ≡ true
    → (path ≡ base)
      ⊎ ((rest : Text) × (path ≡ (base ++ codes "/") ++ rest))
      ⊎ ((rest : Text) × (ends_with (codes "/") base ≡ true) × (path ≡ base ++ rest))
path_under path base h = elim (Bool-cases (text_eq path base)) [
  | inl e ↦ inl ((text_eq_iff path base).0 e)
  | inr e ↦ elim (Bool-cases (ends_with (codes "/") base)) [
    | inl ends ↦ inr (
        inr (
          drop (length base) path,
          ends,
          sym (starts_with-split base path (ground (arith, h, e, ends))),
        ))
    | inr bare ↦ inr (
        inl (
          drop (length (base ++ codes "/")) path,
          sym (starts_with-split (base ++ codes "/") path (ground (arith, h, e, bare))),
        ))
  ]
]

pub in_prefix_scope-IsUnder :
    ⦃net : Net⦄ (raw seed : Text) → in_prefix_scope raw seed ≡ true → IsUnder raw seed
unfolding in_prefix_scope in_scope
in_prefix_scope-IsUnder ⦃net⦄ raw seed h = go (net.parse_url raw) (net.parse_url seed) refl refl h
  where
    go :
        (a b : Result Text Url)
        → net.parse_url raw ≡ a
        → net.parse_url seed ≡ b
        → in_scope a b ≡ true
        → IsUnder raw seed
    go (ok u) (ok s) e f h =
        (u, s, e, f, ground (arith, h), path_under u.path s.path (ground (arith, h)))
    go (ok u) (err b) e f h = cc h
    go (err a) (ok s) e f h = cc h
    go (err a) (err b) e f h = cc h
