-- ===== src/Metrics/Latency.antt =====
-- metrics/latency.py: the nearest-rank percentile. A latency is a signed number of nanoseconds, the
-- percentage a whole number. The product and the quotient under `round` are taken exactly, where
-- the code computes them in floating point.
pub mod Rank
use llm_serving_runtime.Base.{
  ℕ, ◌+◌, ◌-◌, ◌*◌, ◌/◌, ◌%◌, min, max, List, [], ◌∷◌, ltb, ◌==◌, if◌then◌else◌, length, get_or,
}
use llm_serving_runtime.Base.Int.{ℤ, pos, leb_ℤ}

-- Python's `round` of n / d: a half goes to the even neighbour.
unfoldable pub round_div : ℕ → ℕ → ℕ
round_div n d =
    let q = n / d in
    let r = n % d in
    if ltb (2 * r) d then q else if ltb d (2 * r) then q + 1 else if q % 2 == 0 then q else q + 1

-- `sorted`, by insertion.
unfoldable pub insert : ℤ → List ℤ → List ℤ
insert v [] = v ∷ []
insert v (x ∷ xs) = let rest = insert v xs in if leb_ℤ v x then v ∷ x ∷ xs else x ∷ rest

unfoldable pub sorted : List ℤ → List ℤ
unfolding insert
sorted [] = []
sorted (x ∷ xs) = insert x (sorted xs)

unfoldable pub rank : ℕ → ℕ → ℕ
unfolding round_div
rank n pct = min (n - 1) (max 0 (round_div (pct * (n - 1)) 100))

unfoldable pub percentile : List ℤ → ℕ → ℤ
unfolding sorted
percentile [] pct = pos 0
percentile (v ∷ values) pct =
    let sorted_values = sorted (v ∷ values) in
    get_or sorted_values (rank (length sorted_values) pct) (pos 0)
