-- ===== src/Examples/Guards.antt =====
-- Addresses as numbers, a resolver, a soft not-found page, and digits.
use docsearch.Site.Absent.Taken.{not_found_signature-taken}
use docsearch.Pystr.Digits.{DigitRuns, number, atoi-written}
use docsearch.Site.Absent.{Signature, not_found_signature, words_of, count_in, looks_absent}
use docsearch.Site.Discover.{Fetcher}
use docsearch.Pystr.Numbers.{Cases, atoi, int_size}
use docsearch.Pystr.{is_space, Unicode}
use docsearch.UrlGuard.Checked.{IsSafe, check-IsSafe, check-refuses}
use docsearch.UrlGuard.Addresses.{NetipLaws, is_local, internal-refused}
use docsearch.Prelude.{
  ℕ, ◌+◌, ◌-◌, ◌/◌, ◌%◌, ◌<◌, ◌≡◌, refl, ap, ◌∙◌, Bool, true, false, ◌||◌, Option, none, some, List,
  [], ◌∷◌, ◌++◌, arith, ◌==◌, if◌then◌else◌, if-true, Text, codes, ◌&&◌, leb, inl, inr, Bool-cases,
}
use Prim.Native.Nat.{◌^◌}
use docsearch.Results.{ok, err}
use docsearch.UrlGuard.{
  v4, v6, v4_prefix, v6_prefix, blocked, Prefix, Addr, Netip, Url, Calls, Target, check,
  addr_allowed,
}

abbrev block_eq : ℕ → ℕ → ℕ → ℕ → Bool
block_eq width base bits n = base / 2 ^ (width - bits) == n / 2 ^ (width - bits)

abbrev number_contains : Prefix → Addr → Bool
number_contains (v4_prefix base bits) (v4 n) = block_eq 32 base bits n
number_contains (v6_prefix base bits) (v6 n false) = block_eq 128 base bits n
number_contains _ _ = false

abbrev number_unmap : Addr → Addr
number_unmap (v6 n false) = if n / 4294967296 == 65535 then v4 (n % 4294967296) else v6 n false
number_unmap a = a

abbrev on_v4 : (ℕ → Bool) → Addr → Bool
on_v4 p (v4 n) = p n
on_v4 p _ = false

abbrev numbers : Netip
numbers = record {
  unmap = number_unmap;
  is_unspecified = on_v4 (λ n. n == 0);
  is_loopback = on_v4 (λ n. n / 16777216 == 127);
  is_private = on_v4 (λ n. n / 16777216 == 10 || n / 1048576 == 2753 || n / 65536 == 49320);
  is_link_local_unicast = on_v4 (λ n. n / 65536 == 43518);
  is_link_local_multicast = on_v4 (λ n. false);
  is_interface_local_multicast = on_v4 (λ n. false);
  is_multicast = on_v4 (λ n. n / 268435456 == 14);
  contains_addr = number_contains;
}

unmap-number : (n : ℕ) → n < 4294967296 → number_unmap (v6 (281470681743360 + n) false) ≡ v4 n
unmap-number n h = if-true _ _ _ (here_eq n h) ∙ ap v4 (omega (arith, h))
  where
    here_eq : (n : ℕ) → n < 4294967296 → ((281470681743360 + n) / 4294967296 == 65535) ≡ true
    here_eq n h = ground (arith, h)

abbrev number_laws : NetipLaws ⦃ip = numbers⦄
number_laws = record {
  unmap_v4 = λ n. refl;
  unmap_mapped = unmap-number;
  contains_v4 = λ base bits n. refl;
  contains_v6 = λ base bits n. refl;
  loopback_v4 = λ n. refl;
  private_v4 = λ n. refl;
  link_local_v4 = λ n. refl;
  multicast_v4 = λ n. refl;
}

-- 10.1.2.3, and the same mapped into IPv6.
internal-refused_example :
    (addr_allowed ⦃ip = numbers⦄ (v4 167838211) ≡ false)
    × (addr_allowed ⦃ip = numbers⦄ (v6 (281470681743360 + 167838211) false) ≡ false)
unfolding is_local
internal-refused_example = internal-refused ⦃ip = numbers⦄ number_laws 167838211 (omega arith) refl

abbrev page_url : Url
page_url = record {
  raw = codes "http://a.b/";
  scheme = codes "http";
  names_user = false;
  hostname = codes "a.b";
}

abbrev guard_calls : Calls ℕ
guard_calls = record {
  parse_url = λ raw. some page_url;
  to_lower = λ t. t;
  parse_addr = λ host. none;
  default_resolver = λ host w. (some (v4 134744072 ∷ []), w);
}

-- 8.8.8.8.
abbrev safe_target : Target
safe_target = record { target_url = page_url; addrs = v4 134744072 ∷ [] }

safe_run : (check guard_calls ⦃ip = numbers⦄ (codes "u") none 0).0 ≡ ok safe_target
unfolding check
safe_run = refl

check-IsSafe_example : IsSafe guard_calls ⦃ip = numbers⦄ (codes "u") safe_target
check-IsSafe_example =
    check-IsSafe guard_calls ⦃ip = numbers⦄ (codes "u") none 0 safe_target safe_run

-- A name with a public and a private address.
abbrev rebinding : Text → ℕ → Option (List Addr) × ℕ
rebinding host w = (some (v4 134744072 ∷ v4 167838211 ∷ []), w)

check-refuses_example :
    (check guard_calls ⦃ip = numbers⦄ (codes "u") (some rebinding) 0).0 ≡ err blocked
unfolding addr_allowed
check-refuses_example =
    check-refuses guard_calls ⦃ip = numbers⦄ (codes "u") rebinding 0 page_url
      (v4 134744072 ∷ v4 167838211 ∷ []) refl refl refl refl

-- Letters and digits of ASCII.
abbrev ascii_letter : ℕ → Bool
ascii_letter r = leb 97 r && leb r 122

abbrev ascii_digit_rune : ℕ → Bool
ascii_digit_rune r = leb 48 r && leb r 57

letter-space : (r : ℕ) → is_space r ≡ true → ascii_letter r ≡ false
unfolding is_space
letter-space r h = ground (arith, h)

digit-space : (r : ℕ) → is_space r ≡ true → ascii_digit_rune r ≡ false
unfolding is_space
digit-space r h = ground (arith, h)

abbrev ascii : Unicode
ascii = record {
  is_letter = ascii_letter;
  is_number = ascii_digit_rune;
  in_nl_no = λ r. false;
  space-not_letter = letter-space;
  space-not_number = digit-space;
}

abbrev ascii_cases : Cases
ascii_cases = record {
  is_digit = λ r. leb 48 r && leb r 57 || leb 1632 r && leb r 1641;
  is_upper = λ r. false;
  is_lower = ascii_letter;
  is_title = λ r. false;
  in_other_lowercase = λ r. false;
  in_other_uppercase = λ r. false;
  in_mark_or_modifier = λ r. false;
  rune_to_lower = λ r. r;
}

-- Every page is the same eight words and the request.
abbrev soft_fetcher : Fetcher ℕ
soft_fetcher = record {
  fetch = λ u revalidate n. (
    ok (record {
      status = 200;
      content_type = [];
      body = codes "a b c d e f g h a " ++ u;
      final_url = u;
    }),
    n + 1,
  );
  robots = λ u n. (ok [], n);
}

abbrev soft_words : Signature
soft_words = record {
  counts =
      (codes "a", 2)
      ∷ (codes "b", 1)
      ∷ (codes "c", 1)
      ∷ (codes "d", 1)
      ∷ (codes "e", 1)
      ∷ (codes "f", 1)
      ∷ (codes "g", 1)
      ∷ (codes "h", 1)
      ∷ [];
  total = 9;
}

soft_run :
    (not_found_signature soft_fetcher (λ body. ok body) ⦃u = ascii⦄ ⦃c = ascii_cases⦄ [] true 0).0
    ≡ ok (some soft_words)
unfolding not_found_signature
soft_run = refl

not_found_signature-taken_example :
    looks_absent soft_fetcher
      (λ body. ok body)
      ⦃u = ascii⦄
      ⦃c = ascii_cases⦄
      (codes "h g f e d c b a a, sorry")
      (some soft_words)
    ≡ ok true
unfolding words_of count_in
not_found_signature-taken_example =
    not_found_signature-taken soft_fetcher (λ body. ok body) ⦃u = ascii⦄ ⦃c = ascii_cases⦄ [] true 0
      soft_words (codes "h g f e d c b a a, sorry") (codes "h g f e d c b a a, sorry") soft_run refl
      (
        omega arith,
        (
          omega arith,
          (
            omega arith,
            (omega arith, (omega arith, (omega arith, (omega arith, (omega arith, tt))))),
          ),
        ),
      )

-- The digits of ASCII and of two scripts of mathematics whose runs abut.
abbrev some_zero : ℕ → Bool
some_zero z = z == 48 || z == 120782 || z == 120792

abbrev some_digits : Cases
some_digits = record ascii_cases {
  is_digit = λ r. leb 48 r && leb r 57 || leb 120782 r && leb r 120801;
}

run-some :
    (r : ℕ)
    → (leb 48 r && leb r 57 || leb 120782 r && leb r 120801) ≡ true
    → (z : ℕ) × (d : ℕ) × (some_zero z ≡ true) × (d < 10) × (r ≡ z + d)
run-some r h = elim (Bool-cases (leb r 57)) [
  | inl ascii_run ↦ (48, r - 48, refl, ground (arith, h, ascii_run), ground (arith, h, ascii_run))
  | inr e ↦ elim (Bool-cases (leb r 120791)) [
    | inl first_run ↦
        (120782, r - 120782, refl, ground (arith, h, e, first_run), ground (arith, h, e, first_run))
    | inr second_run ↦ (
      120792,
      r - 120792,
      refl,
      ground (arith, h, e, second_run),
      ground (arith, h, e, second_run),
    )
  ]
]

some_runs : DigitRuns ⦃c = some_digits⦄ some_zero
some_runs = record {
  ascii = refl;
  digit = λ z d h k. ground (arith, h, k);
  run = run-some;
  apart = λ y z h k m. ground (arith, h, k, m);
}

-- "2" and a three of the second script.
atoi-written_example :
    atoi ⦃c = some_digits⦄ (50 ∷ 120795 ∷ []) ≡ some (number (2 ∷ 3 ∷ []) % int_size)
atoi-written_example =
    atoi-written ⦃c = some_digits⦄ some_zero some_runs (50 ∷ 120795 ∷ []) (2 ∷ 3 ∷ [])
      ((48, refl, omega arith, refl), ((120792, refl, omega arith, refl), tt)) refl
