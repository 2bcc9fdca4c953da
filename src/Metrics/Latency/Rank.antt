-- ===== src/Metrics/Latency/Rank.antt =====
-- metrics/latency.py: what a percentile says of the values, and how percentiles compare.
use mathlib.Core.List.{Perm}
use mathlib.Core.List.Perm
use llm_serving_runtime.Base.{
  ℕ, zero, suc, ◌+◌, ◌-◌, ◌*◌, ◌%◌, min, max, ◌≤◌, ◌<◌, ◌≡◌, refl, ap, ◌≢◌, ◌⊎◌, inl, inr, List, [],
  ◌∷◌, arith, Bool-cases, length, get_or, All, count_p, count_p-perm,
}
use llm_serving_runtime.Base.Int.{ℤ, pos, ◌≤ℤ◌, leb_ℤ, IsSorted, All-le_trans}
use llm_serving_runtime.Metrics.Latency.{round_div, insert, sorted, rank, percentile}

insert-perm : (v : ℤ) (xs : List ℤ) → Perm (insert v xs) (v ∷ xs)
unfolding insert
insert-perm v [] = Perm.rfl
insert-perm v (x ∷ xs) =
    ground (
      arith,
      Perm.refl (v ∷ x ∷ xs),
      Perm.trans (Perm.cons x (insert-perm v xs)) (Perm.swap v x xs),
    )

pub sorted-perm : (xs : List ℤ) → Perm (sorted xs) xs
unfolding sorted
sorted-perm [] = Perm.rfl
sorted-perm (x ∷ xs) = Perm.trans (insert-perm x (sorted xs)) (Perm.cons x (sorted-perm xs))

All-insert :
    (a v : ℤ) (xs : List ℤ) → a ≤ℤ v → All (λ y. a ≤ℤ y) xs → All (λ y. a ≤ℤ y) (insert v xs)
unfolding insert
All-insert a v [] h k = (h, tt)
All-insert a v (x ∷ xs) h k = ground (arith, All-insert a v xs h k.1)

insert-IsSorted : (v : ℤ) (xs : List ℤ) → IsSorted xs → IsSorted (insert v xs)
unfolding insert
insert-IsSorted v [] s = (tt, tt)
insert-IsSorted v (x ∷ xs) s = elim (Bool-cases (leb_ℤ v x)) [
  | inl le ↦ rw le ((ground arith, All-le_trans v x xs (ground arith) s.0), s)
  | inr gt ↦ rw gt (All-insert x v xs (ground arith) s.0, insert-IsSorted v xs s.1)
]

pub sorted-IsSorted : (xs : List ℤ) → IsSorted (sorted xs)
unfolding sorted
sorted-IsSorted [] = tt
sorted-IsSorted (x ∷ xs) = insert-IsSorted x (sorted xs) (sorted-IsSorted xs)

round_div_mono : (n m : ℕ) → n ≤ m → round_div n 100 ≤ round_div m 100
unfolding round_div
round_div_mono n m h = ground arith

round_div_le : (n k : ℕ) → n ≤ 100 * k → round_div n 100 ≤ k
unfolding round_div
round_div_le n k h = ground arith

pub rank_mono : (n p q : ℕ) → p ≤ q → rank n p ≤ rank n q
unfolding rank
rank_mono n p q h = omega (arith, round_div_mono (p * (n - 1)) (q * (n - 1)) (grind arith))

All-get_or :
    (a : ℤ) (xs : List ℤ) (j : ℕ) (d : ℤ)
    → All (λ y. a ≤ℤ y) xs
    → j < length xs
    → a ≤ℤ get_or xs j d
All-get_or a [] j d h k = absurd (omega arith)
All-get_or a (x ∷ xs) zero d h k = h.0
All-get_or a (x ∷ xs) (suc j) d h k = All-get_or a xs j d h.1 (omega arith)

-- In a sorted list a later index holds no smaller value.
get_or-mono :
    (xs : List ℤ) (i j : ℕ) (d : ℤ)
    → IsSorted xs
    → i ≤ j
    → j < length xs
    → get_or xs i d ≤ℤ get_or xs j d
get_or-mono [] i j d s h k = absurd (omega arith)
get_or-mono (x ∷ xs) zero zero d s h k = omega arith
get_or-mono (x ∷ xs) zero (suc j) d s h k = All-get_or x xs j d s.0 (omega arith)
get_or-mono (x ∷ xs) (suc i) zero d s h k = absurd (omega arith)
get_or-mono (x ∷ xs) (suc i) (suc j) d s h k = get_or-mono xs i j d s.1 (omega arith) (omega arith)

abbrev pub at_most : ℤ → List ℤ → ℕ
at_most r = count_p (λ v. leb_ℤ v r)

abbrev pub at_least : ℤ → List ℤ → ℕ
at_least r = count_p (λ v. leb_ℤ r v)

at_least-All : (r : ℤ) (xs : List ℤ) → All (λ y. r ≤ℤ y) xs → at_least r xs ≡ length xs
at_least-All r [] h = refl
at_least-All r (x ∷ xs) h = ground (arith, at_least-All r xs h.1)

IsSorted-counts :
    (xs : List ℤ) (i : ℕ) (d : ℤ)
    → IsSorted xs
    → i < length xs
    → (suc i ≤ at_most (get_or xs i d) xs) × (length xs ≤ at_least (get_or xs i d) xs + i)
IsSorted-counts [] i d s h = absurd (omega arith)
IsSorted-counts (x ∷ xs) zero d s h = ground (arith, at_least-All x xs s.0)
IsSorted-counts (x ∷ xs) (suc i) d s h =
    ground (arith, IsSorted-counts xs i d s.1, All-get_or x xs i d s.0)

length-insert : (v : ℤ) (xs : List ℤ) → length (insert v xs) ≡ suc (length xs)
unfolding insert
length-insert v [] = refl
length-insert v (x ∷ xs) = ground (arith, length-insert v xs)

pub length-sorted : (xs : List ℤ) → length (sorted xs) ≡ length xs
unfolding sorted
length-sorted [] = refl
length-sorted (x ∷ xs) = omega (arith, length-insert x (sorted xs), length-sorted xs)

rank-lt : (n pct : ℕ) → 0 < n → rank n pct < n
unfolding rank
rank-lt n pct h = omega arith

-- The whole number that is nearest to a number of hundredths; of two at the same distance, the even
-- one.
abbrev pub IsNearest : ℕ → ℕ → Type 0
IsNearest hundredths k =
    ((hundredths < 100 * k + 50) × (100 * k < hundredths + 50))
    ⊎ ((k % 2 ≡ 0) × ((hundredths ≡ 100 * k + 50) ⊎ (100 * k ≡ hundredths + 50)))

round_div-IsNearest : (n : ℕ) → IsNearest n (round_div n 100)
unfolding round_div
round_div-IsNearest n = ground arith

rank-IsNearest : (n pct : ℕ) → pct ≤ 100 → IsNearest (pct * (n - 1)) (rank n pct)
unfolding rank
rank-IsNearest n pct h =
    let bounded : pct * (n - 1) ≤ 100 * (n - 1) = grind arith in
    let small = round_div_le (pct * (n - 1)) (n - 1) bounded in
    let same : min (n - 1) (max 0 (round_div (pct * (n - 1)) 100)) ≡ round_div (pct * (n - 1)) 100 =
      omega (arith, small) in
    rw same (round_div-IsNearest (pct * (n - 1)))

percentile_counts :
    (values : List ℤ) (pct : ℕ)
    → values ≢ []
    → let n = length values in
      let r = percentile values pct in
      (suc (rank n pct) ≤ at_most r values) × (n ≤ at_least r values + rank n pct)
unfolding percentile
percentile_counts [] pct h = absurd (h refl)
percentile_counts (v ∷ values) pct h =
    let xs = sorted (v ∷ values) in
    let r = get_or xs (rank (length xs) pct) (pos 0) in
    omega (
      arith,
      length-sorted (v ∷ values),
      ap (λ n. rank n pct) (length-sorted (v ∷ values)),
      IsSorted-counts xs (rank (length xs) pct) (pos 0) (sorted-IsSorted (v ∷ values))
          (rank-lt (length xs) pct (omega (arith, length-sorted (v ∷ values)))),
      count_p-perm (λ x. leb_ℤ x r) xs (v ∷ values) (sorted-perm (v ∷ values)),
      count_p-perm (λ x. leb_ℤ r x) xs (v ∷ values) (sorted-perm (v ∷ values)),
    )

length_pos : (values : List ℤ) → values ≢ [] → 0 < length values
length_pos [] h = absurd (h refl)
length_pos (v ∷ values) h = omega arith

-- A percentile, of at most 100, of `n` values, at least one, is the value of nearest rank: with the
-- whole number `k` below `n` that is nearest to `pct / 100 * (n - 1)`, and even where two are, more
-- than `k` of the values are at most the percentile, and all but `k` are no less.
pub percentile-rank :
    (values : List ℤ) (pct : ℕ)
    → values ≢ []
    → pct ≤ 100
    → let n = length values in
      let r = percentile values pct in
      (k : ℕ) × IsNearest (pct * (n - 1)) k
      × (k < n)
      × (k < at_most r values)
      × (n ≤ at_least r values + k)
percentile-rank values pct h bound =
    let n = length values in
    let (most, least) = percentile_counts values pct h in
    (
      rank n pct,
      rank-IsNearest n pct bound,
      rank-lt n pct (length_pos values h),
      omega (arith, most),
      omega (arith, least),
    )

-- A higher percentage never gives a smaller value.
pub percentile-mono :
    (values : List ℤ) (p q : ℕ) → p ≤ q → percentile values p ≤ℤ percentile values q
unfolding percentile
percentile-mono [] p q h = omega arith
percentile-mono (v ∷ values) p q h =
    let xs = sorted (v ∷ values) in
    get_or-mono xs (rank (length xs) p) (rank (length xs) q) (pos 0) (sorted-IsSorted (v ∷ values))
      (rank_mono (length xs) p q h)
      (rank-lt (length xs) q (omega (arith, length-sorted (v ∷ values))))
