-- ===== src/UrlGuard/Hosts.antt =====
-- internal/urlguard/urlguard.go: the hosts that may be looked up.
use docsearch.Strings.Suffix.{ends_with-suffix}
use docsearch.UrlGuard.{is_ascii, name_allowed, trim_dots, host_allowed}
use docsearch.Strings.{ends_with}
use docsearch.Prelude.{
  ℕ, zero, suc, ◌<◌, ◌≡◌, refl, ap, ◌≢◌, inl, inr, true, false, ◌&&◌, [], ◌∷◌, ◌++◌, arith, ◌==◌,
  if◌then◌else◌, Bool-cases, replicate, is_empty, All, Text, codes, text_eq, text_eq_iff,
}

-- Not the host of a local network: ASCII, neither empty nor localhost, and under none of the local
-- name spaces.
abbrev pub IsGlobal : Text → Type 0
IsGlobal name =
    (name ≢ [])
    × All (λ b. b < 128) name
    × (name ≢ codes "localhost")
    × ((t : Text) → name ≢ t ++ codes ".local")
    × ((t : Text) → name ≢ t ++ codes ".internal")
    × ((t : Text) → name ≢ t ++ codes ".localhost")
    × ((t : Text) → name ≢ t ++ codes ".home.arpa")

-- Without the dots at its end and in lower case, the host is none of a local network.
abbrev pub MayLookUp : (Text → Text) → Text → Type 0
MayLookUp to_lower host =
    (bare : Text) × (n : ℕ) × (host ≡ bare ++ replicate n b'.')
    × (ends_with (codes ".") bare ≡ false)
    × IsGlobal (to_lower bare)

not_suffix : (s h : Text) → ends_with s h ≡ false → (t : Text) → h ≢ t ++ s
not_suffix s h e t k = cc (e, ap (ends_with s) k, ends_with-suffix t s)

is_ascii-All : (s : Text) → is_ascii s ≡ true → All (λ b. b < 128) s
unfolding is_ascii
is_ascii-All [] h = tt
is_ascii-All (b ∷ s) h = (ground (arith, h), is_ascii-All s (ground (arith, h)))

name_allowed-IsGlobal : (name : Text) → name_allowed name ≡ true → IsGlobal name
unfolding name_allowed
name_allowed-IsGlobal name h = (
  λ e. ground (arith, h, ap is_empty e),
  is_ascii-All name (ground (arith, h)),
  λ e. ground (arith, h, (text_eq_iff name (codes "localhost")).1 e),
  not_suffix (codes ".local") name (ground (arith, h)),
  not_suffix (codes ".internal") name (ground (arith, h)),
  not_suffix (codes ".localhost") name (ground (arith, h)),
  not_suffix (codes ".home.arpa") name (ground (arith, h)),
)

trim_dots-split : (host : Text) → (n : ℕ) × (host ≡ trim_dots host ++ replicate n b'.')
unfolding trim_dots
trim_dots-split [] = (0, refl)
trim_dots-split (b ∷ s) =
    let (n, e) = trim_dots-split s in
    elim (Bool-cases (b == b'.' && is_empty (trim_dots s))) [
      | inl m ↦ (suc n, ground (arith, m, e))
      | inr m ↦ (n, ground (arith, m, e))
    ]

trim_dots-ends : (host : Text) → ends_with (codes ".") (trim_dots host) ≡ false
unfolding trim_dots ends_with text_eq
trim_dots-ends [] = refl
trim_dots-ends (b ∷ s) = ground (arith, trim_dots-ends s)

pub host_allowed-MayLookUp :
    (to_lower : Text → Text) (host : Text)
    → host_allowed to_lower host ≡ true
    → MayLookUp to_lower host
unfolding host_allowed
host_allowed-MayLookUp to_lower host h =
    let (n, e) = trim_dots-split host in
    (trim_dots host, n, e, trim_dots-ends host, name_allowed-IsGlobal (to_lower (trim_dots host)) h)

trim_dots-dots : (n : ℕ) → trim_dots (replicate n b'.') ≡ []
unfolding trim_dots
trim_dots-dots zero = refl
trim_dots-dots (suc n) = rw (trim_dots-dots n) refl

trim_dots-append : (host : Text) (n : ℕ) → trim_dots (host ++ replicate n b'.') ≡ trim_dots host
unfolding trim_dots
trim_dots-append [] n = trim_dots-dots n
trim_dots-append (b ∷ host) n =
    ap (λ rest. if b == b'.' && is_empty rest then [] else b ∷ rest) (trim_dots-append host n)

-- Dots at the end of a host change nothing.
pub host_allowed-dots :
    (to_lower : Text → Text) (host : Text) (n : ℕ)
    → host_allowed to_lower (host ++ replicate n b'.') ≡ host_allowed to_lower host
unfolding host_allowed
host_allowed-dots to_lower host n = ap (λ h. name_allowed (to_lower h)) (trim_dots-append host n)
