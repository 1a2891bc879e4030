-- ===== src/UrlGuard/Addresses.antt =====
-- internal/urlguard/urlguard.go: the IPv4 addresses that only a local network has.
use mathlib.Core.Bool.{not}
use Prim.Native.Nat.{◌^◌}
-- Documented behaviour of `net/netip` on IPv4 addresses, bare and mapped into IPv6.
use docsearch.UrlGuard.{
  Netip, v4, addr_allowed, any_contains, is_special, v6, routable_within, blocked_prefixes,
  v4_prefix, v6_prefix, quad, unmapped_allowed,
}
use docsearch.Prelude.{
  ℕ, ◌+◌, ◌-◌, ◌/◌, ◌<◌, ◌≡◌, refl, Bool, true, false, ◌||◌, arith, ◌==◌, zero, suc, sym, ap, ◌∙◌,
  inl, inr, some, List, [], ◌∷◌, Bool-cases, some-injective, if-false, if-true, get_elem?, any,
}

pub record NetipLaws ⦃ip : Netip⦄ : Type 0 where
  pub unmap_v4 : (n : ℕ) → ip.unmap (v4 n) ≡ v4 n
  pub unmap_mapped : (n : ℕ) → n < 4294967296 → ip.unmap (v6 (281470681743360 + n) false) ≡ v4 n
  pub contains_v4 :
      (base bits n : ℕ)
      → ip.contains_addr (v4_prefix base bits) (v4 n)
        ≡ (base / 2 ^ (32 - bits) == n / 2 ^ (32 - bits))
  pub contains_v6 : (base bits n : ℕ) → ip.contains_addr (v6_prefix base bits) (v4 n) ≡ false
  pub loopback_v4 : (n : ℕ) → ip.is_loopback (v4 n) ≡ (n / 16777216 == 127)
  pub private_v4 :
      (n : ℕ)
      → ip.is_private (v4 n) ≡ (n / 16777216 == 10 || n / 1048576 == 2753 || n / 65536 == 49320)
  pub link_local_v4 : (n : ℕ) → ip.is_link_local_unicast (v4 n) ≡ (n / 65536 == 43518)
  pub multicast_v4 : (n : ℕ) → ip.is_multicast (v4 n) ≡ (n / 268435456 == 14)

-- Private networks, loopback, link local and multicast: 10/8, 172.16/12, 192.168/16, 127/8,
-- 169.254/16 and 224/4.
unfoldable pub is_local : ℕ → Bool
is_local n =
    n / 16777216 == 10
    || n / 1048576 == 2753
    || n / 65536 == 49320
    || n / 16777216 == 127
    || n / 65536 == 43518
    || n / 268435456 == 14

-- This network, shared address space and reserved: 0/8, 100.64/10 and 240/4.
unfoldable pub is_reserved : ℕ → Bool
is_reserved n = n / 16777216 == 0 || n / 4194304 == 401 || n / 268435456 == 15

any-at :
    {A : Type 0} (p : A → Bool) (xs : List A) (i : ℕ) (x : A)
    → get_elem? xs i ≡ some x
    → p x ≡ true
    → any p xs ≡ true
any-at p [] i x h k = cc h
any-at p (y ∷ ys) zero x h k = ground (arith, ap p (some-injective h) ∙ k)
any-at p (y ∷ ys) (suc i) x h k = ground (arith, any-at p ys i x h k)

turned : (a b : ℕ) → (a == b) ≡ true → (b == a) ≡ true
turned a b h = ground (arith, h)

module _ ⦃ip : Netip⦄ (laws : NetipLaws) where
  -- An IPv4 address in IPv6 clothes is judged as what it reaches.
  pub mapped-addr_allowed :
      (n : ℕ) → n < 4294967296 → addr_allowed (v6 (281470681743360 + n) false) ≡ addr_allowed (v4 n)
  unfolding addr_allowed
  mapped-addr_allowed n h = ap unmapped_allowed (laws.unmap_mapped n h ∙ sym (laws.unmap_v4 n))

  routable-v4 : (n : ℕ) → any_contains routable_within (v4 n) ≡ false
  unfolding any_contains
  routable-v4 n = simp laws.contains_v6

  blocked-v4 : (n : ℕ) → is_reserved n ≡ true → any_contains blocked_prefixes (v4 n) ≡ true
  unfolding any_contains is_reserved
  blocked-v4 n h = elim (Bool-cases (n / 16777216 == 0)) [
    | inl e ↦
        any-at (λ p. ip.contains_addr p (v4 n)) blocked_prefixes 0 _ refl
          (laws.contains_v4 (quad 0 0 0 0) 8 n ∙ turned (n / 16777216) 0 e)
    | inr e ↦ elim (Bool-cases (n / 4194304 == 401)) [
      | inl k ↦
          any-at (λ p. ip.contains_addr p (v4 n)) blocked_prefixes 3 _ refl
            (laws.contains_v4 (quad 100 64 0 0) 10 n ∙ turned (n / 4194304) 401 k)
      | inr k ↦
          any-at (λ p. ip.contains_addr p (v4 n)) blocked_prefixes 10 _ refl
            (laws.contains_v4 (quad 240 0 0 0) 4 n
              ∙ turned (n / 268435456) 15 (ground (arith, h, e, k)))
    ]
  ]

  special-v4 : (n : ℕ) → is_local n ≡ true → is_special (v4 n) ≡ true
  unfolding is_special is_local
  special-v4 n h =
      ground
        (arith, h, laws.loopback_v4 n, laws.private_v4 n, laws.link_local_v4 n, laws.multicast_v4 n)

  refused-v4 :
      (n : ℕ)
      → ((is_special (v4 n) || any_contains blocked_prefixes (v4 n)) ≡ true)
      → unmapped_allowed (v4 n) ≡ false
  unfolding unmapped_allowed
  refused-v4 n h = elim (Bool-cases (is_special (v4 n))) [
    | inl e ↦ if-true _ _ _ e
    | inr e ↦
        if-false _ _ _ e
        ∙ if-false _ _ _ (routable-v4 n)
        ∙ ap not (sym (ap (λ s. s || any_contains blocked_prefixes (v4 n)) e) ∙ h)
  ]

  -- No IPv4 address of a network that only its own hosts reach may be fetched, as such or mapped
  -- into IPv6.
  pub internal-refused :
      (n : ℕ)
      → n < 4294967296
      → (is_local n || is_reserved n) ≡ true
      → (addr_allowed (v4 n) ≡ false) × (addr_allowed (v6 (281470681743360 + n) false) ≡ false)
  unfolding addr_allowed
  internal-refused n small h =
      let bare : addr_allowed (v4 n) ≡ false =
        ap unmapped_allowed (laws.unmap_v4 n)
        ∙ refused-v4 n (elim (Bool-cases (is_local n)) [
          | inl e ↦ rw (special-v4 n e) (ground arith)
          | inr e ↦ rw (blocked-v4 n (ground (arith, h, e))) (ground arith)
        ]) in
      (bare, mapped-addr_allowed n small ∙ bare)
