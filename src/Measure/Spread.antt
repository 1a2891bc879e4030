-- ===== src/Measure/Spread.antt =====
-- The numbers of `spread` in measure.go, and their order.
use mathlib.Core.Bool.{false≢true}
use native.Mathlib.Nat.{le-div_iff_mul-le, div-le_of_le-mul}
use docsearch.Measure.{TokenSpread, spread}
use docsearch.Prelude.{
  ℕ, zero, suc, ◌-◌, ◌*◌, ◌/◌, ◌≤◌, ◌<◌, min, ◌≡◌, refl, sym, true, false, List, [], ◌∷◌, arith,
  leb, tests, length, get_or, is_empty, sum_by, Chained, sort, sum_by-sort, length-sort,
  sort-Chained,
}

get_or_mono :
    (xs : List ℕ) (i j : ℕ)
    → Chained (λ a b. leb a b ≡ true) xs
    → i ≤ j
    → j < length xs
    → get_or xs i 0 ≤ get_or xs j 0
get_or_mono [] i j c h k = absurd (omega arith)
get_or_mono (x ∷ xs) zero zero c h k = omega arith
get_or_mono (x ∷ []) zero (suc j) c h k = absurd (omega arith)
get_or_mono (x ∷ y ∷ ys) zero (suc j) c h k =
    omega (tests, c.0, get_or_mono (y ∷ ys) zero j c.1 (omega arith) (omega arith))
get_or_mono (x ∷ xs) (suc i) zero c h k = absurd (omega arith)
get_or_mono (x ∷ []) (suc i) (suc j) c h k = absurd (omega arith)
get_or_mono (x ∷ y ∷ ys) (suc i) (suc j) c h k =
    get_or_mono (y ∷ ys) i j c.1 (omega arith) (omega arith)

abbrev total_of : List ℕ → ℕ
total_of = sum_by (λ n. n)

total-le :
    (m : ℕ) (xs : List ℕ)
    → ((i : ℕ) → i < length xs → get_or xs i 0 ≤ m)
    → total_of xs ≤ length xs * m
total-le m [] h = omega arith
total-le m (x ∷ xs) h =
    omega (arith, h 0 (omega arith), total-le m xs (λ i k. h (suc i) (omega arith)))

le-total :
    (m : ℕ) (xs : List ℕ)
    → ((i : ℕ) → i < length xs → m ≤ get_or xs i 0)
    → m * length xs ≤ total_of xs
le-total m [] h = omega arith
le-total m (x ∷ xs) h =
    omega (arith, h 0 (omega arith), le-total m xs (λ i k. h (suc i) (omega arith)))

leb_total : (x y : ℕ) → leb x y ≡ false → leb y x ≡ true
leb_total x y h = ground arith

-- What a report reads off a distribution that is not empty.
pub record IsSpread (counts : List ℕ) (s : TokenSpread) : Type 0 where
  pub low : s.min_size ≤ s.median
  pub middle : s.median ≤ s.p95
  pub high : s.p95 ≤ s.max_size
  pub mean_low : s.min_size ≤ s.mean
  pub mean_high : s.mean ≤ s.max_size
  pub exact : s.total ≡ sum_by (λ n. n) counts

percentile_index : (len num den : ℕ) → 0 < len → min (len - 1) (len * num / den) < len
percentile_index len num den h = omega arith

ordered :
    (counts sorted : List ℕ)
    → sorted ≡ sort leb counts
    → 0 < length sorted
    → Chained (λ a b. leb a b ≡ true) sorted
    → total_of sorted ≡ total_of counts
    → is_empty sorted ≡ false
    → IsSpread counts (spread counts)
unfolding spread
ordered counts sorted e h c t ne = rw (← e) (
    rw ne (record {
      low = get_or_mono sorted 0 _ c (omega arith) (percentile_index (length sorted) 1 2 h);
      middle = get_or_mono sorted _ _ c (omega arith) (percentile_index (length sorted) 19 20 h);
      high = get_or_mono sorted _ _ c (omega arith) (omega arith);
      mean_low =
          (le-div_iff_mul-le h).1
            (le-total _ sorted (λ i k. get_or_mono sorted 0 i c (omega arith) k));
      mean_high =
          div-le_of_le-mul (length sorted)
            (total-le _ sorted (λ i k. get_or_mono sorted i _ c (omega arith) (omega arith)));
      exact = t;
    }))

-- The spread of a distribution that is not empty is in order: the minimum, the median, the 95th
-- percentile and the maximum do not fall, the mean lies between minimum and maximum, and the total
-- is the sum of what was measured.
pub spread-IsSpread : (counts : List ℕ) → is_empty counts ≡ false → IsSpread counts (spread counts)
spread-IsSpread counts h =
    ordered counts (sort leb counts) refl
      (omega (arith, length-sort leb counts, some_left counts h))
      (sort-Chained leb leb_total counts) (sum_by-sort leb (λ n. n) counts)
      (not_empty (sort leb counts) (omega (arith, length-sort leb counts, some_left counts h)))
  where
    some_left : (xs : List ℕ) → is_empty xs ≡ false → 0 < length xs
    some_left [] e = absurd (false≢true (sym e))
    some_left (x ∷ xs) e = omega arith

    not_empty : (xs : List ℕ) → 0 < length xs → is_empty xs ≡ false
    not_empty [] e = absurd (omega arith)
    not_empty (x ∷ xs) e = refl
