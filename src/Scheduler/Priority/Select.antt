-- ===== src/Scheduler/Priority/Select.antt =====
-- scheduler/priority.py: `_pop_next_locked` takes an entry with the least key, and only that.
use mathlib.Core.List.{Perm}
use mathlib.Core.List.Perm
use llm_serving_runtime.Base.{
  ℕ, zero, suc, ◌≤◌, ◌≡◌, refl, subst, ◌∙◌, ◌≢◌, ◌⊎◌, inl, inr, true, false, none, some, List, [],
  ◌∷◌, arith, Bool-cases, get_elem?, drop, erase_idx, All,
}
use llm_serving_runtime.Scheduler.Priority.{
  QueuedRequest, PriorityScheduler, effective_priority, key_lt, scan, pop_at, select,
}

-- The order of the keys.
abbrev pub KeyLe : ℕ → ℕ → QueuedRequest → QueuedRequest → Type 0
KeyLe interval now a b =
    (effective_priority interval a now ≤ effective_priority interval b now)
    × (effective_priority interval a now ≡ effective_priority interval b now
        → a.sequence ≤ b.sequence)

drop-cons {ℓ} :
    {A : Type ℓ} (i : ℕ) (l : List A) (x : A) (xs : List A)
    → drop i l ≡ x ∷ xs
    → (get_elem? l i ≡ some x) × (drop (suc i) l ≡ xs)
drop-cons zero [] x xs e = absurd (cc)
drop-cons zero (y ∷ l) x xs e = (cc, cc)
drop-cons (suc i) [] x xs e = absurd (cc)
drop-cons (suc i) (y ∷ l) x xs e = drop-cons i l x xs e

pub erase_idx-perm {ℓ} :
    {A : Type ℓ} (l : List A) (i : ℕ) (x : A) → get_elem? l i ≡ some x → Perm l (x ∷ erase_idx l i)
erase_idx-perm [] i x e = absurd (cc)
erase_idx-perm (y ∷ l) zero x e = Perm.cons' (cc) Perm.rfl
erase_idx-perm (y ∷ l) (suc i) x e =
    Perm.trans (Perm.cons y (erase_idx-perm l i x e)) (Perm.swap x y _)

module _ (interval now : ℕ) where
  lt_key : (a b : QueuedRequest) → key_lt interval now a b ≡ true → KeyLe interval now a b
  unfolding key_lt
  lt_key a b h = ground arith

  ge_key : (a b : QueuedRequest) → key_lt interval now a b ≡ false → KeyLe interval now b a
  unfolding key_lt
  ge_key a b h = ground arith

  pub KeyLe-trans :
      (a b c : QueuedRequest)
      → KeyLe interval now a b
      → KeyLe interval now b c
      → KeyLe interval now a c
  KeyLe-trans a b c h k = grind arith

  All-KeyLe :
      (a b : QueuedRequest) (xs : List QueuedRequest)
      → KeyLe interval now a b
      → All (KeyLe interval now b) xs
      → All (KeyLe interval now a) xs
  All-KeyLe a b [] h k = tt
  All-KeyLe a b (x ∷ xs) h k = (KeyLe-trans a b x h k.0, All-KeyLe a b xs h k.1)

module _ (interval now : ℕ) (l : List QueuedRequest) where
  -- The scan returns the index of an entry of the list whose key is least of all that it saw.
  scan-least :
      (best_index : ℕ) (best : QueuedRequest) (i : ℕ) (xs : List QueuedRequest)
      → get_elem? l best_index ≡ some best
      → drop i l ≡ xs
      → (q : QueuedRequest) × (get_elem? l (scan interval now best_index best i xs) ≡ some q)
        × KeyLe interval now q best
        × All (KeyLe interval now q) xs
  unfolding scan
  scan-least best_index best i [] here rest = (best, here, (omega arith, λ _. omega arith), tt)
  scan-least best_index best i (x ∷ xs) here rest = elim (Bool-cases (key_lt interval now x best)) [
    | inl better ↦
        let (q, found, least, all) =
          scan-least i x (suc i) xs (drop-cons i l x xs rest).0 (drop-cons i l x xs rest).1 in
        rw better (
          q,
          found,
          KeyLe-trans interval now q x best least (lt_key interval now x best better),
          (least, all),
        )
    | inr worse ↦
        let (q, found, least, all) =
          scan-least best_index best (suc i) xs here (drop-cons i l x xs rest).1 in
        rw worse (
          q,
          found,
          least,
          (KeyLe-trans interval now q best x least (ge_key interval now x best worse), all),
        )
  ]

-- What a call of `select` gives, and what it keeps.
pub record Selects (now : ℕ) (s : PriorityScheduler) (q : QueuedRequest) (s' : PriorityScheduler)
    : Type 0 where
  pub selected : select now s ≡ some (q, s')
  pub kept : Perm s.items (q ∷ s'.items)
  pub least : All (KeyLe s.aging_boost_interval_s now q) s.items
  pub same_counter : s'.counter ≡ s.counter
  pub same_interval : s'.aging_boost_interval_s ≡ s.aging_boost_interval_s

pop_at_lem :
    (i : ℕ) (s : PriorityScheduler) (q : QueuedRequest)
    → get_elem? s.items i ≡ some q
    → pop_at i s ≡ some (q, record s { items = erase_idx s.items i })
unfolding pop_at
pop_at_lem i s q e = ground arith

select-pop_at :
    (now : ℕ) (s : PriorityScheduler) (x : QueuedRequest) (xs : List QueuedRequest)
    → s.items ≡ x ∷ xs
    → select now s ≡ pop_at (scan s.aging_boost_interval_s now 0 x 1 xs) s
unfolding select
select-pop_at now s x xs e = ground arith

select-nil : (now : ℕ) (s : PriorityScheduler) → s.items ≡ [] → select now s ≡ none
unfolding select
select-nil now s e = ground arith

select_cons :
    (now : ℕ) (s : PriorityScheduler) (x : QueuedRequest) (xs : List QueuedRequest)
    → s.items ≡ x ∷ xs
    → (q : QueuedRequest) × (s' : PriorityScheduler) × Selects now s q s'
select_cons now s x xs e =
    let interval = s.aging_boost_interval_s in
    let i = scan interval now 0 x 1 xs in
    let (q, found, least, all) = scan-least interval now (x ∷ xs) 0 x 1 xs refl refl in
    (
      q,
      record s { items = erase_idx s.items i },
      record {
        selected = select-pop_at now s x xs e ∙ pop_at_lem i s q (rw e found);
        kept = erase_idx-perm s.items i q (rw e found);
        least = rw e (least, all);
        same_counter = refl;
        same_interval = refl;
      },
    )

-- `_pop_next_locked` on a queue that is not empty takes one entry, one with the least effective
-- priority and the smallest sequence number at that priority, and leaves all the others, the
-- counter and the interval.
pub select-least :
    (now : ℕ) (s : PriorityScheduler)
    → s.items ≢ []
    → (q : QueuedRequest) × (s' : PriorityScheduler) × Selects now s q s'
select-least now s h = by_items s.items refl
  where
    by_items :
        (l : List QueuedRequest)
        → s.items ≡ l
        → (q : QueuedRequest) × (s' : PriorityScheduler) × Selects now s q s'
    by_items [] e = absurd (h e)
    by_items (x ∷ xs) e = select_cons now s x xs e

-- Either the queue is empty, or an entry is taken.
pub select_cases :
    (now : ℕ) (s : PriorityScheduler)
    → ((s.items ≡ []) × (select now s ≡ none))
      ⊎ ((q : QueuedRequest) × (s' : PriorityScheduler) × Selects now s q s')
select_cases now s = by_items s.items refl
  where
    by_items :
        (l : List QueuedRequest)
        → s.items ≡ l
        → ((s.items ≡ []) × (select now s ≡ none))
          ⊎ ((q : QueuedRequest) × (s' : PriorityScheduler) × Selects now s q s')
    by_items [] e = inl (e, select-nil now s e)
    by_items (x ∷ xs) e = inr (select_cons now s x xs e)

-- A call that takes an entry does so as `select-least` says.
pub select-Selects :
    (now : ℕ) (s s' : PriorityScheduler) (q : QueuedRequest)
    → select now s ≡ some (q, s')
    → Selects now s q s'
select-Selects now s s' q e = elim (select_cases now s) [
  | inl (_, nothing) ↦ absurd (cc)
  | inr (q', rest, sel) ↦
      let same_entry : q' ≡ q = cc in
      let same_rest : rest ≡ s' = cc in
      subst (λ x. Selects now s x s') same_entry (subst (Selects now s q') same_rest sel)
]
