-- ===== src/UrlGuard/Checked.antt =====
-- internal/urlguard/urlguard.go: what `Check` returns.
use docsearch.UrlGuard.Hosts.{MayLookUp, host_allowed-MayLookUp}
use mathlib.Core.Bool.{false}
use mathlib.Core.Path.{subst}
use docsearch.UrlGuard.{
  Netip, Calls, Addr, all_unmapped, addr_allowed, Target, judge_answer, judge_host, judge, check,
  url_allowed, Url, Error, blocked,
}
use docsearch.Prelude.{
  ◌≡◌, inl, inr, true, List, [], ◌∷◌, arith, Bool-cases, All, refl, sym, ap, ◌∙◌, not, Option, none,
  some, if-false, if-true, is_empty, Text, any, ◌⊎◌, codes, text_eq, text_eq_iff,
}
use docsearch.Results.{ok, err, ok-injective, ◌>>=◌, Result, >>=-eq-ok}

-- An address that may be dialled: what is left of one that the resolver gave and that is allowed.
abbrev pub MayDial : ⦃ip : Netip⦄ → Addr → Type 0
MayDial ⦃ip⦄ b = (a : Addr) × (addr_allowed a ≡ true) × (ip.unmap a ≡ b)

not_ok : {E A : Type 0} {e : E} (a : A) → ◌≡◌ {A = Result E A} (err e) (ok a) → ⊥
not_ok a h = cc h

module _ {W : Type 0} (calls : Calls W) ⦃ip : Netip⦄ where
  all_unmapped-MayDial :
      (addrs out : List Addr) → all_unmapped calls addrs ≡ ok out → All MayDial out
  unfolding all_unmapped
  all_unmapped-MayDial [] out h = subst (All MayDial) (ok-injective h) tt
  all_unmapped-MayDial (a ∷ addrs) out h = elim (Bool-cases (addr_allowed a)) [
    | inl e ↦
        let (rest, read, made) =
          >>=-eq-ok (all_unmapped calls addrs) _ _ (sym (if-false _ _ _ (ap not e)) ∙ h) in
        subst (All MayDial) (ok-injective made)
          (((a, e, refl), all_unmapped-MayDial addrs rest read))
    | inr e ↦ absurd (not_ok out (sym (if-true _ _ _ (ap not e)) ∙ h))
  ]

  -- The scheme is http or https, no user is named, and the host may be looked up.
  abbrev pub IsPublic : Url → Type 0
  IsPublic u =
      ((calls.to_lower u.scheme ≡ codes "http") ⊎ (calls.to_lower u.scheme ≡ codes "https"))
      × (u.names_user ≡ false)
      × MayLookUp calls.to_lower u.hostname

  -- The target is the URL parsed, and its URL is public; it has an address at least, and each is
  -- what is left of one that is allowed.
  abbrev pub IsSafe : Text → Target → Type 0
  IsSafe raw t =
      (calls.parse_url raw ≡ some t.target_url)
      × IsPublic t.target_url
      × (is_empty t.addrs ≡ false)
      × All MayDial t.addrs

  url_allowed-IsPublic : (u : Url) → url_allowed calls u ≡ true → IsPublic u
  unfolding url_allowed
  url_allowed-IsPublic u h = (
    elim (Bool-cases (text_eq (calls.to_lower u.scheme) (codes "http"))) [
      | inl e ↦ inl ((text_eq_iff (calls.to_lower u.scheme) (codes "http")).0 e)
      | inr e ↦
          inr ((text_eq_iff (calls.to_lower u.scheme) (codes "https")).0 (ground (arith, h, e)))
    ],
    ground (arith, h),
    host_allowed-MayLookUp calls.to_lower u.hostname (ground (arith, h)),
  )

  abbrev Dialled : Target → Type 0
  Dialled t = (is_empty t.addrs ≡ false) × All MayDial t.addrs

  all_unmapped-is_empty :
      (addrs out : List Addr) → all_unmapped calls addrs ≡ ok out → is_empty out ≡ is_empty addrs
  unfolding all_unmapped
  all_unmapped-is_empty [] out h = ap is_empty (sym (ok-injective h))
  all_unmapped-is_empty (a ∷ addrs) out h = elim (Bool-cases (addr_allowed a)) [
    | inl e ↦
        let (rest, read, made) =
          >>=-eq-ok (all_unmapped calls addrs) _ _ (sym (if-false _ _ _ (ap not e)) ∙ h) in
        ap is_empty (sym (ok-injective made))
    | inr e ↦ absurd (not_ok out (sym (if-true _ _ _ (ap not e)) ∙ h))
  ]

  judge_answer-Dialled :
      (u : Url) (answer : Option (List Addr)) (t : Target)
      → judge_answer calls u answer ≡ ok t
      → (t.target_url ≡ u) × Dialled t
  unfolding judge_answer
  judge_answer-Dialled u none t h = absurd (not_ok t h)
  judge_answer-Dialled u (some addrs) t h = elim (Bool-cases (is_empty addrs)) [
    | inl e ↦ absurd (not_ok t (sym (if-true _ _ _ e) ∙ h))
    | inr e ↦
        let (out, read, made) =
          >>=-eq-ok (all_unmapped calls addrs) _ _ (sym (if-false _ _ _ e) ∙ h) in
        let same = ok-injective made in
        (
          ap (λ (t : Target). t.target_url) (sym same),
          subst Dialled same
              ((all_unmapped-is_empty addrs out read ∙ e, all_unmapped-MayDial addrs out read)),
        )
  ]

  judge_host-Dialled :
      (lookup : Text → W → Option (List Addr) × W) (u : Url) (literal : Option Addr) (world : W)
      (t : Target)
      → (judge_host calls lookup u literal world).0 ≡ ok t
      → (t.target_url ≡ u) × Dialled t
  unfolding judge_host
  judge_host-Dialled lookup u (some literal) world t h = elim (Bool-cases (addr_allowed literal)) [
    | inl e ↦
        let same =
          ok-injective
            (sym (ap (λ (r : Result Error Target × W). r.0) (if-false _ _ _ (ap not e))) ∙ h) in
        (
          ap (λ (t : Target). t.target_url) (sym same),
          subst Dialled same ((refl, ((literal, e, refl), tt))),
        )
    | inr e ↦
        absurd (
          not_ok t (sym (ap (λ (r : Result Error Target × W). r.0) (if-true _ _ _ (ap not e))) ∙ h))
  ]
  judge_host-Dialled lookup u none world t h =
      judge_answer-Dialled u (lookup u.hostname world).0 t h

  judge-IsSafe :
      (lookup : Text → W → Option (List Addr) × W) (u : Option Url) (world : W) (t : Target)
      → (judge calls lookup u world).0 ≡ ok t
      → (u ≡ some t.target_url) × IsPublic t.target_url × Dialled t
  unfolding judge
  judge-IsSafe lookup none world t h = absurd (not_ok t h)
  judge-IsSafe lookup (some u) world t h = elim (Bool-cases (url_allowed calls u)) [
    | inl e ↦
        let (same, dialled) =
          judge_host-Dialled lookup u (calls.parse_addr u.hostname) world t
            (sym (ap (λ (r : Result Error Target × W). r.0) (if-true _ _ _ e)) ∙ h) in
        (ap some (sym same), subst IsPublic (sym same) (url_allowed-IsPublic u e), dialled)
    | inr e ↦
        absurd (not_ok t (sym (ap (λ (r : Result Error Target × W). r.0) (if-false _ _ _ e)) ∙ h))
  ]

  -- Where `Check` returns a target, it is the URL as it is parsed, its scheme is http or https, it
  -- names no user, and its host, without the dots at its end and in lower case, is ASCII, neither
  -- empty nor localhost, and ends in none of .local, .internal, .localhost and .home.arpa; it has an
  -- address to dial, and each is what `Unmap` leaves of one that `AddrAllowed` allows.
  pub check-IsSafe :
      (raw : Text) (resolver : Option (Text → W → Option (List Addr) × W)) (world : W) (t : Target)
      → (check calls raw resolver world).0 ≡ ok t
      → IsSafe raw t
  unfolding check
  check-IsSafe raw none world t h =
      let (parsed, public, dialled) =
        judge-IsSafe calls.default_resolver (calls.parse_url raw) world t h in
      (parsed, public, dialled.0, dialled.1)
  check-IsSafe raw (some lookup) world t h =
      let (parsed, public, dialled) = judge-IsSafe lookup (calls.parse_url raw) world t h in
      (parsed, public, dialled.0, dialled.1)

  all_unmapped-refuses :
      (addrs : List Addr)
      → any (λ a. not (addr_allowed a)) addrs ≡ true
      → all_unmapped calls addrs ≡ err blocked
  unfolding all_unmapped
  all_unmapped-refuses [] h = cc h
  all_unmapped-refuses (a ∷ addrs) h = elim (Bool-cases (not (addr_allowed a))) [
    | inl e ↦ if-true _ _ _ e
    | inr e ↦
        if-false _ _ _ e
        ∙ ap (λ r. r >>= λ out. ok (ip.unmap a ∷ out))
            (all_unmapped-refuses addrs (ground (arith, h, e)))
  ]

  judge_answer-refuses :
      (u : Url) (addrs : List Addr)
      → any (λ a. not (addr_allowed a)) addrs ≡ true
      → judge_answer calls u (some addrs) ≡ err blocked
  unfolding judge_answer
  judge_answer-refuses u [] h = cc h
  judge_answer-refuses u (a ∷ addrs) h =
      ap (λ r. r >>= λ out. ok (record { target_url = u; addrs = out }))
        (all_unmapped-refuses (a ∷ addrs) h)

  -- Where the host of a URL is no address literal and one of the addresses that the resolver gives
  -- for it, whichever it is, is not allowed, `Check` refuses the URL as blocked.
  pub check-refuses :
      (raw : Text) (lookup : Text → W → Option (List Addr) × W) (world : W) (u : Url)
      (addrs : List Addr)
      → calls.parse_url raw ≡ some u
      → calls.parse_addr u.hostname ≡ none
      → (lookup u.hostname world).0 ≡ some addrs
      → any (λ a. not (addr_allowed a)) addrs ≡ true
      → (check calls raw (some lookup) world).0 ≡ err blocked
  unfolding check judge judge_host
  check-refuses raw lookup world u addrs parsed literal answered h =
      ap (λ p. (judge calls lookup p world).0) parsed ∙ elim (Bool-cases (url_allowed calls u)) [
        | inl e ↦
            ap (λ (r : Result Error Target × W). r.0) (if-true _ _ _ e)
            ∙ ap (λ o. (judge_host calls lookup u o world).0) literal
            ∙ ap (judge_answer calls u) answered
            ∙ judge_answer-refuses u addrs h
        | inr e ↦ ap (λ (r : Result Error Target × W). r.0) (if-false _ _ _ e)
      ]
