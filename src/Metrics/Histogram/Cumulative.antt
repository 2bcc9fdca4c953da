-- ===== src/Metrics/Histogram/Cumulative.antt =====
-- metrics/collector.py: the exported buckets count the samples below each bound.
use llm_serving_runtime.Base.{
  ℕ, zero, suc, ◌+◌, ◌<◌, ◌≡◌, refl, ap, ◌∙◌, inl, inr, Option, none, some, List, [], ◌∷◌, map,
  arith, if◌then◌else◌, Bool-cases, length, replicate, All, sum, count_p,
}
use mathlib.Core.Path.{ap₂, fun_ext}
use mathlib.Core.List.{map-map}
use llm_serving_runtime.Base.Int.{ℤ, pos, ◌≤ℤ◌, leb_ℤ, IsSorted, All-le_trans, ◌+ℤ◌}
use llm_serving_runtime.Metrics.Histogram.{
  Histogram, init, or_default, bump_last, tally, observe, cumulate, observe_all, prometheus_lines,
  Exposition,
}

-- There is a count for each bound and one more, and each sample is counted once.
pub record IsValid (h : Histogram) : Type 0 where
  pub sized : length h.counts ≡ length h.boundaries + 1
  pub counted : sum h.counts ≡ h.total

length-bump_last : (counts : List ℕ) → length (bump_last counts) ≡ length counts
unfolding bump_last
length-bump_last [] = refl
length-bump_last (c ∷ []) = refl
length-bump_last (c ∷ d ∷ counts) = ap suc (length-bump_last (d ∷ counts))

sum-bump_last : (c : ℕ) (counts : List ℕ) → sum (bump_last (c ∷ counts)) ≡ suc (sum (c ∷ counts))
unfolding bump_last
sum-bump_last c [] = omega arith
sum-bump_last c (d ∷ counts) = omega (arith, sum-bump_last d counts)

length-tally : (v : ℤ) (bs : List ℤ) (cs : List ℕ) → length (tally v bs cs) ≡ length cs
unfolding tally
length-tally v [] cs = length-bump_last cs
length-tally v (b ∷ bs) [] = refl
length-tally v (b ∷ bs) (c ∷ cs) = ground (arith, length-tally v bs cs)

sum-tally :
    (v : ℤ) (bs : List ℤ) (cs : List ℕ)
    → length cs ≡ length bs + 1
    → sum (tally v bs cs) ≡ suc (sum cs)
unfolding tally
sum-tally v [] [] h = absurd (omega arith)
sum-tally v [] (c ∷ cs) h = sum-bump_last c cs
sum-tally v (b ∷ bs) [] h = absurd (omega arith)
sum-tally v (b ∷ bs) (c ∷ cs) h = ground (arith, sum-tally v bs cs)

pub observe-IsValid : (v : ℤ) (h : Histogram) → IsValid h → IsValid (observe v h)
unfolding observe
observe-IsValid v h valid = record {
  sized = length-tally v h.boundaries h.counts ∙ valid.sized;
  counted = omega (arith, sum-tally v h.boundaries h.counts valid.sized, valid.counted);
}

sum-replicate : (n : ℕ) → sum (replicate n 0) ≡ 0
sum-replicate zero = refl
sum-replicate (suc n) = omega (arith, sum-replicate n)

length-replicate : (n : ℕ) → length (replicate n (zero)) ≡ n
length-replicate zero = refl
length-replicate (suc n) = ap suc (length-replicate n)

pub init-IsValid : (buckets : List ℤ) → IsValid (init buckets)
unfolding init
init-IsValid buckets = record {
  sized = length-replicate (suc (length (or_default buckets))) ∙ omega arith;
  counted = sum-replicate (suc (length (or_default buckets)));
}

-- Each pair with its count one higher where the sample is at most the bound.
abbrev raise : ℤ → ℤ × ℕ → ℤ × ℕ
raise v (b, n) = (b, (if leb_ℤ v b then 1 else 0) + n)

cumulate-suc :
    (v : ℤ) (n m : ℕ) (bs : List ℤ) (cs : List ℕ)
    → m ≡ n + 1
    → All (λ b. v ≤ℤ b) bs
    → cumulate m bs cs ≡ map (raise v) (cumulate n bs cs)
unfolding cumulate
cumulate-suc v n m [] cs e h = refl
cumulate-suc v n m (b ∷ bs) [] e h = refl
cumulate-suc v n m (b ∷ bs) (c ∷ cs) e h =
    ground (arith, cumulate-suc v (n + c) (m + c) bs cs (omega arith) h.1)

cumulate-tally :
    (v : ℤ) (n : ℕ) (bs : List ℤ) (cs : List ℕ)
    → IsSorted bs
    → cumulate n bs (tally v bs cs) ≡ map (raise v) (cumulate n bs cs)
unfolding cumulate tally
cumulate-tally v n [] cs s = refl
cumulate-tally v n (b ∷ bs) [] s = refl
cumulate-tally v n (b ∷ bs) (c ∷ cs) s = elim (Bool-cases (leb_ℤ v b)) [
  | inl le ↦ rw le (
      ap₂ ◌∷◌ (ap₂ (λ (x : ℤ) (y : ℕ). (x, y)) refl (omega arith)) (
        cumulate-suc v (n + c) (n + (c + 1)) bs cs (omega arith)
          (All-le_trans v b bs (ground arith) s.0)))
  | inr gt ↦ rw gt (
      ap₂ ◌∷◌ (ap₂ (λ (x : ℤ) (y : ℕ). (x, y)) refl (omega arith))
        (cumulate-tally v (n + c) bs cs s.1))
]

-- Each bound with the number of samples that are at most it.
abbrev pub counted_below : List ℤ → ℤ → ℤ × ℕ
counted_below values b = (b, count_p (λ v. leb_ℤ v b) values)

observe_all-cumulate :
    (values : List ℤ) (f : ℤ → ℕ) (h : Histogram)
    → IsSorted h.boundaries
    → cumulate 0 h.boundaries h.counts ≡ map (λ b. (b, f b)) h.boundaries
    → cumulate 0 h.boundaries (observe_all values h).counts
      ≡ map (λ b. (b, count_p (λ v. leb_ℤ v b) values + f b)) h.boundaries
unfolding observe_all observe
observe_all-cumulate [] f h s e =
    e
    ∙ ap (λ g. map g h.boundaries) (fun_ext λ b. ap₂ (λ (x : ℤ) (y : ℕ). (x, y)) refl (omega arith))
observe_all-cumulate (v ∷ values) f h s e =
    observe_all-cumulate values (λ b. (if leb_ℤ v b then 1 else 0) + f b) (observe v h) s
      (cumulate-tally v 0 h.boundaries h.counts s ∙ ap (map (raise v)) e ∙ map-map _ _ h.boundaries)
    ∙ ap (λ g. map g h.boundaries) (fun_ext λ b. ap₂ (λ (x : ℤ) (y : ℕ). (x, y)) refl (omega arith))

cumulate-replicate :
    (bs : List ℤ) → cumulate 0 bs (replicate (suc (length bs)) 0) ≡ map (λ b. (b, zero)) bs
unfolding cumulate
cumulate-replicate [] = refl
cumulate-replicate (b ∷ bs) = ap (◌∷◌ (b, 0)) (cumulate-replicate bs)

observe_all-fields :
    (values : List ℤ) (h : Histogram)
    → ((observe_all values h).boundaries ≡ h.boundaries)
      × ((observe_all values h).total ≡ length values + h.total)
unfolding observe_all observe
observe_all-fields [] h = (refl, omega arith)
observe_all-fields (v ∷ values) h =
    let (same, total) = observe_all-fields values (observe v h) in (same, omega (arith, total))

export_nothing : (h : Histogram) → h.total ≡ 0 → prometheus_lines h ≡ none
unfolding prometheus_lines
export_nothing h e = ground arith

export_samples :
    (h : Histogram) (n : ℕ) (buckets : List (ℤ × ℕ))
    → h.total ≡ n
    → 0 < n
    → cumulate 0 h.boundaries h.counts ≡ buckets
    → prometheus_lines h
      ≡ some (record { buckets = buckets; inf = n; sum_samples = h.sum_samples; count = n })
unfolding prometheus_lines
export_samples h n buckets e some_sample c = ground arith

-- The sum of some samples on top of another.
abbrev pub sum_from : ℤ → List ℤ → ℤ
sum_from total [] = total
sum_from total (v ∷ values) = sum_from (total +ℤ v) values

observe_all-sum_samples :
    (values : List ℤ) (h : Histogram)
    → (observe_all values h).sum_samples ≡ sum_from h.sum_samples values
unfolding observe_all observe
observe_all-sum_samples [] h = refl
observe_all-sum_samples (v ∷ values) h = observe_all-sum_samples values (observe v h)

init-cumulate :
    (bounds values : List ℤ)
    → IsSorted (or_default bounds)
    → let h = observe_all values (init bounds) in
      cumulate 0 h.boundaries h.counts ≡ map (counted_below values) (or_default bounds)
unfolding init
init-cumulate bounds values s =
    let (same, _) = observe_all-fields values (init bounds) in
    rw same (
      observe_all-cumulate values (λ _. 0) (init bounds) s (cumulate-replicate (or_default bounds))
      ∙ ap (λ g. map g (or_default bounds))
          (fun_ext λ b. ap₂ (λ (x : ℤ) (y : ℕ). (x, y)) refl (omega arith)))

init-total : (bounds values : List ℤ) → (observe_all values (init bounds)).total ≡ length values
unfolding init
init-total bounds values = omega (arith, (observe_all-fields values (init bounds)).1)

init-sum :
    (bounds values : List ℤ)
    → (observe_all values (init bounds)).sum_samples ≡ sum_from (pos 0) values
unfolding init
init-sum bounds values = observe_all-sum_samples values (init bounds)

-- What some samples export: nothing, or for each bound how many of them are at most it, their
-- number, and their sum.
abbrev pub exported : List ℤ → List ℤ → Option Exposition
exported bounds [] = none
exported bounds (v ∷ values) = some (record {
  buckets = map (counted_below (v ∷ values)) bounds;
  inf = length (v ∷ values);
  sum_samples = sum_from (pos 0) (v ∷ values);
  count = length (v ∷ values);
})

-- The export of a histogram over rising bounds, after any samples: each bucket counts exactly the
-- samples that are at most its bound, `+Inf` and the count are the number of samples, and the sum is
-- their sum. Without a sample there is no export.
pub prometheus_lines-observe_all :
    (bounds values : List ℤ)
    → IsSorted (or_default bounds)
    → prometheus_lines (observe_all values (init bounds)) ≡ exported (or_default bounds) values
prometheus_lines-observe_all bounds [] s =
    export_nothing (observe_all [] (init bounds)) (init-total bounds [])
prometheus_lines-observe_all bounds (v ∷ values) s =
    export_samples (observe_all (v ∷ values) (init bounds)) (length (v ∷ values))
      (map (counted_below (v ∷ values)) (or_default bounds)) (init-total bounds (v ∷ values))
      (omega arith) (init-cumulate bounds (v ∷ values) s)
    ∙ rw (init-sum bounds (v ∷ values)) refl
