-- ===== src/UrlGuard.antt =====
-- internal/urlguard/urlguard.go: which addresses, hosts and URLs may be fetched.
pub mod Addresses
pub mod Hosts
pub mod Checked
use docsearch.Strings.{ends_with}
use docsearch.Prelude.{
  ℕ, ◌+◌, ◌*◌, Bool, true, false, not, ◌&&◌, ◌||◌, Option, none, some, List, [], ◌∷◌, arith, leb,
  ◌==◌, if◌then◌else◌, is_empty, any, Text, codes, text_eq,
}
use docsearch.Results.{ok, err, ◌>>=◌, Result}

-- `netip.Addr`: the zero value, an IPv4 address, and an IPv6 address with whether it has a zone.
pub data Addr : Type 0 where
  invalid : Addr
  v4 : ℕ → Addr
  v6 : ℕ → Bool → Addr

-- `netip.Prefix`: the address and the number of its bits that count.
pub data Prefix : Type 0 where
  v4_prefix : ℕ → ℕ → Prefix
  v6_prefix : ℕ → ℕ → Prefix

-- What the code calls of `net/netip`.
pub record Netip : Type 0 where
  pub unmap : Addr → Addr
  pub is_unspecified : Addr → Bool
  pub is_loopback : Addr → Bool
  pub is_private : Addr → Bool
  pub is_link_local_unicast : Addr → Bool
  pub is_link_local_multicast : Addr → Bool
  pub is_interface_local_multicast : Addr → Bool
  pub is_multicast : Addr → Bool
  pub contains_addr : Prefix → Addr → Bool

-- An IPv4 address by its bytes, and an IPv6 address by its first four groups, the others zero.
abbrev pub quad : ℕ → ℕ → ℕ → ℕ → ℕ
quad a b c d = ((a * 256 + b) * 256 + c) * 256 + d

abbrev pub groups : ℕ → ℕ → ℕ → ℕ → ℕ
groups a b c d = (((a * 65536 + b) * 65536 + c) * 65536 + d) * 18446744073709551616

abbrev pub blocked_prefixes : List Prefix
blocked_prefixes =
    v4_prefix (quad 0 0 0 0) 8
    ∷ v6_prefix (groups 0x2001 0 0 0) 23
    ∷ v6_prefix (groups 0x3fff 0 0 0) 20
    ∷ v4_prefix (quad 100 64 0 0) 10
    ∷ v4_prefix (quad 192 0 0 0) 24
    ∷ v4_prefix (quad 192 0 2 0) 24
    ∷ v4_prefix (quad 192 88 99 0) 24
    ∷ v4_prefix (quad 198 18 0 0) 15
    ∷ v4_prefix (quad 198 51 100 0) 24
    ∷ v4_prefix (quad 203 0 113 0) 24
    ∷ v4_prefix (quad 240 0 0 0) 4
    ∷ v6_prefix (groups 0x2001 0xdb8 0 0) 32
    ∷ v6_prefix (groups 0x2002 0 0 0) 16
    ∷ v6_prefix (groups 0x2001 0 0 0) 32
    ∷ []

abbrev pub routable_within : List Prefix
routable_within =
    v6_prefix (groups 0x2001 1 0 0 + 1) 128
    ∷ v6_prefix (groups 0x2001 1 0 0 + 2) 128
    ∷ v6_prefix (groups 0x2001 3 0 0) 32
    ∷ v6_prefix (groups 0x2001 4 0x112 0) 48
    ∷ v6_prefix (groups 0x2001 0x20 0 0) 28
    ∷ v6_prefix (groups 0x2001 0x30 0 0) 28
    ∷ []

abbrev pub global_unicast_v6 : Prefix
global_unicast_v6 = v6_prefix (groups 0x2000 0 0 0) 3

abbrev pub is_v6 : Addr → Bool
is_v6 (v6 n zoned) = true
is_v6 _ = false

abbrev pub is_valid : Addr → Bool
is_valid invalid = false
is_valid _ = true

module _ ⦃ip : Netip⦄ where
  unfoldable pub any_contains : List Prefix → Addr → Bool
  any_contains prefixes a = any (λ p. ip.contains_addr p a) prefixes

  -- The predicates of the first switch.
  unfoldable pub is_special : Addr → Bool
  is_special a =
      ip.is_unspecified a
      || ip.is_loopback a
      || ip.is_private a
      || ip.is_link_local_unicast a
      || ip.is_link_local_multicast a
      || ip.is_interface_local_multicast a
      || ip.is_multicast a

  -- `AddrAllowed`, on the address unmapped.
  unfoldable pub unmapped_allowed : Addr → Bool
  unfolding is_special any_contains
  unmapped_allowed a =
      if is_special a
      then false
      else if is_v6 a && not (ip.contains_addr global_unicast_v6 a)
      then false
      else if any_contains routable_within a
      then true
      else not (any_contains blocked_prefixes a)

  unfoldable pub addr_allowed : Addr → Bool
  unfolding unmapped_allowed
  addr_allowed addr = if not (is_valid addr) then false else unmapped_allowed (ip.unmap addr)

abbrev pub blocked_suffixes : List Text
blocked_suffixes = codes ".local" ∷ codes ".internal" ∷ codes ".localhost" ∷ codes ".home.arpa" ∷ []

-- `isASCII`, on bytes.
unfoldable pub is_ascii : Text → Bool
is_ascii s = not (any (λ b. leb 128 b) s)

-- `strings.TrimRight(host, ".")`.
unfoldable pub trim_dots : Text → Text
trim_dots [] = []
trim_dots (b ∷ s) = let rest = trim_dots s in if b == b'.' && is_empty rest then [] else b ∷ rest

-- `HostAllowed`, on the host in lower case and without its last dots.
unfoldable pub name_allowed : Text → Bool
unfolding is_ascii text_eq ends_with
name_allowed h =
    if is_empty h || not (is_ascii h)
    then false
    else if text_eq h (codes "localhost")
    then false
    else not (any (λ s. ends_with s h) blocked_suffixes)

-- `HostAllowed`; `to_lower` is `strings.ToLower`.
unfoldable pub host_allowed : (Text → Text) → Text → Bool
unfolding name_allowed trim_dots
host_allowed to_lower host = name_allowed (to_lower (trim_dots host))

-- A URL that `url.Parse` reads: its scheme, whether it names a user, and its host.
pub record Url : Type 0 where
  pub raw : Text
  pub scheme : Text
  pub names_user : Bool
  pub hostname : Text

pub record Target : Type 0 where
  pub target_url : Url
  pub addrs : List Addr

-- Both have the text of ErrBlocked.
pub data Error : Type 0 where
  blocked : Error
  unresolved : Error

-- What `Check` calls: `url.Parse`, `strings.ToLower`, `netip.ParseAddr` and `net.DefaultResolver`.
-- `W` is the world that a lookup changes.
pub record Calls (W : Type 0) : Type 0 where
  pub parse_url : Text → Option Url
  pub to_lower : Text → Text
  pub parse_addr : Text → Option Addr
  pub default_resolver : Text → W → Option (List Addr) × W

module _ {W : Type 0} (calls : Calls W) ⦃ip : Netip⦄ where
  -- The loop over the answers.
  unfoldable pub all_unmapped : List Addr → Result Error (List Addr)
  unfolding addr_allowed
  all_unmapped [] = ok []
  all_unmapped (a ∷ addrs) =
      let rest = all_unmapped addrs in
      if not (addr_allowed a) then err blocked else (rest >>= λ out. ok (ip.unmap a ∷ out))

  -- The end of `Check`, on what the resolver answers; `none` is an error.
  unfoldable pub judge_answer : Url → Option (List Addr) → Result Error Target
  unfolding all_unmapped
  judge_answer u none = err unresolved
  judge_answer u (some addrs) =
      if is_empty addrs
      then err unresolved
      else (all_unmapped addrs >>= λ out. ok (record { target_url = u; addrs = out }))

  unfoldable pub judge_host :
      (Text → W → Option (List Addr) × W) → Url → Option Addr → W → Result Error Target × W
  unfolding judge_answer addr_allowed
  judge_host lookup u (some literal) world =
      if not (addr_allowed literal)
      then (err blocked, world)
      else (ok (record { target_url = u; addrs = ip.unmap literal ∷ [] }), world)
  judge_host lookup u none world =
      let (answer, after) = lookup u.hostname world in (judge_answer u answer, after)

  unfoldable pub url_allowed : Url → Bool
  unfolding host_allowed text_eq
  url_allowed u =
      (text_eq (calls.to_lower u.scheme) (codes "http")
        || text_eq (calls.to_lower u.scheme) (codes "https"))
      && not u.names_user
      && host_allowed calls.to_lower u.hostname

  unfoldable pub judge :
      (Text → W → Option (List Addr) × W) → Option Url → W → Result Error Target × W
  unfolding url_allowed judge_host
  judge lookup none world = (err blocked, world)
  judge lookup (some u) world =
      let allowed = judge_host lookup u (calls.parse_addr u.hostname) world in
      if url_allowed u then allowed else (err blocked, world)

  -- `Check`; the resolver is `none` for nil.
  unfoldable pub check :
      Text → Option (Text → W → Option (List Addr) × W) → W → Result Error Target × W
  unfolding judge
  check raw none world = judge calls.default_resolver (calls.parse_url raw) world
  check raw (some lookup) world = judge lookup (calls.parse_url raw) world
