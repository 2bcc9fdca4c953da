-- ===== src/Scripts/Retries.antt =====
-- scripts/download_vllm_smoke_assets.py: the attempts end, and how.
use llm_serving_runtime.Base.{
  ℕ, zero, suc, ◌+◌, ◌-◌, ◌≤◌, ◌<◌, ◌≡◌, refl, sym, ap, subst, ◌∙◌, ◌⊎◌, inl, inr, Bool, true,
  false, Option, none, some, List, [], ◌∷◌, arith, ◌==◌, if◌then◌else◌, Bool-cases, count_p,
  count_p-append,
}
use llm_serving_runtime.Base.Text.{String}
use llm_serving_runtime.Base.Int.{pos}
use llm_serving_runtime.Scripts.{
  FilePath, Download, Event, attempting, failing, sleeping, Exit, returned, gave_up, attempts,
  download_with_retries,
}

abbrev pub is_attempt : Event → Bool
is_attempt (attempting attempt) = true
is_attempt (failing message) = false
is_attempt sleeping = false

abbrev pub is_pause : Event → Bool
is_pause (attempting attempt) = false
is_pause (failing message) = false
is_pause sleeping = true

-- The attempt fails, with some message.
abbrev pub Fails : (ℕ → Download) → ℕ → Type 0
Fails download i = (message : String) × (download i ≡ inl message)

-- The attempts from `first` to before `last` fail.
abbrev pub AllFail : (ℕ → Download) → ℕ → ℕ → Type 0
AllFail download first last = (i : ℕ) → first ≤ i → i < last → Fails download i

-- What `todo` attempts from `first` on come to: the first of them that succeeds gives its path,
-- after a pause for each one before; or all fail, with a pause after each but the last.
abbrev pub Ends : (ℕ → Download) → ℕ → ℕ → Option String → Exit FilePath × List Event → Type 0
Ends download first todo last_error (exit, events) =
    ((before : ℕ) × (path : FilePath) × (before < todo)
      × AllFail download first (first + before)
      × (download (first + before) ≡ inr path)
      × (exit ≡ returned path)
      × (count_p is_attempt events ≡ before + 1)
      × (count_p is_pause events ≡ before))
    ⊎ ((e : Option String) × AllFail download first (first + todo)
        × (exit ≡ gave_up e)
        × (((todo ≡ 0) × (e ≡ last_error))
            ⊎ ((m : String) × (1 ≤ todo) × (e ≡ some m) × (download (first + (todo - 1)) ≡ inl m)))
        × (count_p is_attempt events ≡ todo)
        × (count_p is_pause events ≡ todo - 1))

AllFail-cons :
    (download : ℕ → Download) (first last : ℕ)
    → Fails download first
    → AllFail download (suc first) last
    → AllFail download first last
AllFail-cons download first last now later i low high = elim (Bool-cases (i == first)) [
  | inl same ↦ subst (λ (i : ℕ). Fails download i) (ground arith) now
  | inr other ↦ later i (ground arith) high
]

Download-cases :
    (d : Download) → ((message : String) × (d ≡ inl message)) ⊎ ((path : FilePath) × (d ≡ inr path))
Download-cases (inl message) = inl (message, refl)
Download-cases (inr path) = inr (path, refl)

shift : (first n : ℕ) → suc first + n ≡ first + suc n
shift first n = omega arith

last_failure :
    (download : ℕ → Download) (first todo : ℕ) (message : String) (error : Option String)
    → download first ≡ inl message
    → ((todo ≡ 0) × (error ≡ some message))
      ⊎ ((m : String) × (1 ≤ todo) × (error ≡ some m) × (download (suc first + (todo - 1)) ≡ inl m))
    → (m : String) × (1 ≤ suc todo) × (error ≡ some m) × (download (first + (suc todo - 1)) ≡ inl m)
last_failure download first todo message error e (inl (none_left, same)) =
    let here : first + (suc todo - 1) ≡ first = omega (arith, none_left) in
    (message, omega arith, same, ap download here ∙ e)
last_failure download first todo message error e (inr (m, some_left, same, d)) =
    let here : first + (suc todo - 1) ≡ suc first + (todo - 1) = omega (arith, some_left) in
    (m, omega arith, same, ap download here ∙ d)

pub attempts-Ends :
    (download : ℕ → Download) (first todo : ℕ) (last_error : Option String)
    → Ends download first todo last_error (attempts download first todo last_error)
unfolding attempts
attempts-Ends download first zero last_error =
    inr (last_error, (λ i low high. absurd (omega arith)), refl, inl (refl, refl), refl, refl)
attempts-Ends download first (suc todo) last_error = elim (Download-cases (download first)) [
  | inr (path, e) ↦
      let here : first + 0 ≡ first = omega arith in
      let found : download (first + 0) ≡ inr path = ap download here ∙ e in
      rw (e, attempts)
        (inl (0, path, omega arith, (λ i low high. absurd (omega arith)), found, refl, refl, refl))
  | inl (message, e) ↦
      let rest = attempts download (suc first) todo (some message) in
      rw (e, attempts)
        (elim (attempts-Ends download (suc first) todo (some message)) [
          | inl (before, path, in_time, earlier, found, exits, tries, pauses) ↦ inl (
            suc before,
            path,
            omega arith,
            AllFail-cons download first (first + suc before) (message, e)
                (subst (AllFail download (suc first)) (shift first before) earlier),
            ap download (sym (shift first before)) ∙ found,
            exits,
            ground (
              arith,
              count_p-append is_attempt (if todo == 0 then [] else sleeping ∷ []) rest.1,
              tries,
            ),
            ground (
              arith,
              count_p-append is_pause (if todo == 0 then [] else sleeping ∷ []) rest.1,
              pauses,
            ),
          )
          | inr (error, earlier, exits, last, tries, pauses) ↦ inr (
            error,
            AllFail-cons download first (first + suc todo) (message, e)
                (subst (AllFail download (suc first)) (shift first todo) earlier),
            exits,
            inr (last_failure download first todo message error e last),
            ground (
              arith,
              count_p-append is_attempt (if todo == 0 then [] else sleeping ∷ []) rest.1,
              tries,
            ),
            ground (
              arith,
              count_p-append is_pause (if todo == 0 then [] else sleeping ∷ []) rest.1,
              pauses,
            ),
          )
        ])
]

-- With the library installed, and at least one retry, the download ends after at most so many
-- attempts, whatever they meet: at the first attempt that succeeds, with its path and one pause for
-- each failure before; or after all of them failed, with the message of the last, and no pause after
-- that.
pub download_with_retries-ends :
    (download : ℕ → Download) (retries : ℕ)
    → 1 ≤ retries
    → let (exit, events) = download_with_retries true download (pos retries) in
      ((before : ℕ) × (path : FilePath) × (before < retries)
        × AllFail download 1 (1 + before)
        × (download (1 + before) ≡ inr path)
        × (exit ≡ returned path)
        × (count_p is_attempt events ≡ before + 1)
        × (count_p is_pause events ≡ before))
      ⊎ ((message : String) × AllFail download 1 (1 + retries)
          × (download retries ≡ inl message)
          × (exit ≡ gave_up (some message))
          × (count_p is_attempt events ≡ retries)
          × (count_p is_pause events ≡ retries - 1))
unfolding download_with_retries
download_with_retries-ends download retries h = elim (attempts-Ends download 1 retries none) [
  | inl found ↦ inl found
  | inr (e, failed, exits, inl (no_retries, same), tries, pauses) ↦ absurd (omega arith)
  | inr (e, failed, exits, inr (message, some_left, same, last), tries, pauses) ↦
      let here : retries ≡ 1 + (retries - 1) = omega arith in
      inr (message, failed, ap download here ∙ last, exits ∙ ap gave_up same, tries, pauses)
]
