-- ===== src/Sync/Keys.antt =====
-- The key of a document, and its target.
use docsearch.Upload.{key_of, target, cut_prefix, scheme}
use docsearch.Strings.{starts_with}
use docsearch.Sync.{decimal, itoa, key, Options}
use docsearch.Prelude.{
  ℕ, zero, suc, ◌+◌, ◌-◌, ◌*◌, ◌/◌, ◌%◌, ◌<◌, ◌≡◌, refl, sym, ap, ◌∙◌, inl, inr, true, not, [], ◌∷◌,
  ◌++◌, arith, ltb, ==_iff, tests, Bool-cases, length, drop, is_empty, Text, codes,
}

-- The number that a text of digits reads as, behind one that was read before it.
abbrev value : Text → ℕ → ℕ
value [] n = n
value (c ∷ cs) n = value cs (n * 10 + (c - 48))

value-decimal : (fuel n : ℕ) (rest : Text) → n < fuel → value (decimal fuel n rest) 0 ≡ value rest n
unfolding decimal
value-decimal zero n rest h = absurd (omega (arith, h))
value-decimal (suc fuel) n rest h = elim (Bool-cases (ltb n 10)) [
  | inl small ↦ rw small (ap (value rest) (omega (tests, small)))
  | inr large ↦ rw large (
      value-decimal fuel (n / 10) ((48 + n % 10) ∷ rest) (omega (tests, h, large))
      ∙ ap (value rest) (omega arith))
]

value-itoa : (n : ℕ) → value (itoa n) 0 ≡ n
unfolding itoa
value-itoa n = value-decimal (n + 1) n [] (omega arith)

append-cancel : (s t u : Text) → s ++ t ≡ s ++ u → t ≡ u
append-cancel [] t u h = h
append-cancel (c ∷ s) t u h = append-cancel s t u (cc h)

starts_with-append : (s t : Text) → starts_with s (s ++ t) ≡ true
unfolding starts_with
starts_with-append [] t = refl
starts_with-append (c ∷ s) t = ground (arith, starts_with-append s t, ==_iff c c)

drop-append : (s t : Text) → drop (length s) (s ++ t) ≡ t
drop-append [] t = refl
drop-append (c ∷ s) t = drop-append s t

-- The key of a target of a key that is not empty is that key.
pub key_of-target : (k : Text) → key_of (target k) ≡ (k, not (is_empty k))
unfolding key_of cut_prefix target
key_of-target k = rw (starts_with-append scheme k) (rw (drop-append scheme k) refl)

-- Two documents that are queued under the same target have the same id.
pub target_key-injective :
    (options : Options) (a b : ℕ) → target (key options a) ≡ target (key options b) → a ≡ b
unfolding target key
target_key-injective options a b h =
    let same : itoa a ≡ itoa b = append-cancel (codes "-") (itoa a) (itoa b) (
      append-cancel options.prefix (codes "-" ++ itoa a) (codes "-" ++ itoa b) (
        append-cancel scheme (options.prefix ++ (codes "-" ++ itoa a))
          (options.prefix ++ (codes "-" ++ itoa b)) h)) in
    sym (value-itoa a) ∙ ap (λ t. value t 0) same ∙ value-itoa b
