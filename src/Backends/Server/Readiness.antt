-- ===== src/Backends/Server/Readiness.antt =====
-- The backends' servers: when a start succeeds, and what a failed one leaves.
use llm_serving_runtime.Base.{
  ℕ, zero, suc, ◌+◌, ◌≤◌, ◌<◌, ◌≡◌, refl, sym, ap, subst, ◌∙◌, ◌≢◌, ◌↔◌, ◌⊎◌, inl, inr, Bool, false,
  Option, none, some, arith, ◌==◌, Bool-cases,
}
use llm_serving_runtime.Base.Text.{String}
use llm_serving_runtime.Backends.Server.{
  Process, ServerBackend, Health, status, connect_error, raises, returns, fails, await_health,
  start, stop,
}

-- The check lets the loop go on.
pub data IsRetried : Health → Type 0 where
  refused : IsRetried connect_error
  not_ready : (code : ℕ) → code ≢ 200 → IsRetried (status code)

-- The first healthy answer of the attempts from `first` up to `last`.
pub record BecomesHealthy (health : ℕ → Health) (first last : ℕ) : Type 0 where
  pub attempt : ℕ
  pub begun : first ≤ attempt
  pub in_time : attempt < last
  pub healthy : health attempt ≡ status 200
  pub until : (i : ℕ) → first ≤ i → i < attempt → IsRetried (health i)

BecomesHealthy-now :
    (health : ℕ → Health) (first last : ℕ)
    → first < last
    → health first ≡ status 200
    → BecomesHealthy health first last
BecomesHealthy-now health first last h e = record {
  attempt = first;
  begun = omega arith;
  in_time = h;
  healthy = e;
  until = λ i low high. absurd (omega arith);
}

BecomesHealthy-later :
    (health : ℕ → Health) (first last : ℕ)
    → IsRetried (health first)
    → BecomesHealthy health (suc first) last
    → BecomesHealthy health first last
BecomesHealthy-later health first last r b = record {
  attempt = b.attempt;
  begun = omega (arith, b.begun);
  in_time = b.in_time;
  healthy = b.healthy;
  until = λ i low high. elim (Bool-cases (i == first)) [
    | inl same ↦ subst (λ (i : ℕ). IsRetried (health i)) (ground arith) r
    | inr other ↦ b.until i (ground arith) high
  ];
}

IsRetried-ok : {a : Health} → IsRetried a → a ≢ status 200
IsRetried-ok refused e = absurd (cc)
IsRetried-ok (not_ready code bad) e = bad (cc)

IsRetried-raises : {a : Health} {message : String} → IsRetried a → a ≢ raises message
IsRetried-raises refused e = absurd (cc)
IsRetried-raises (not_ready code bad) e = absurd (cc)

-- One attempt of the loop.
data Attempt (health : ℕ → Health) (failure : String) (first todo : ℕ) : Type 0 where
  goes_on :
      IsRetried (health first)
      → await_health health failure first (suc todo) ≡ await_health health failure (suc first) todo
      → Attempt health failure first todo
  succeeds :
      health first ≡ status 200
      → await_health health failure first (suc todo) ≡ returns
      → Attempt health failure first todo
  breaks :
      (message : String)
      → health first ≡ raises message
      → await_health health failure first (suc todo) ≡ fails message
      → Attempt health failure first todo

Attempt-cases :
    (health : ℕ → Health) (failure : String) (first todo : ℕ) → Attempt health failure first todo
unfolding await_health
Attempt-cases health failure first todo = by_answer (health first) refl
  where
    by_answer : (a : Health) → health first ≡ a → Attempt health failure first todo
    by_answer (status code) a = elim (Bool-cases (code == 200)) [
      | inl ok ↦ succeeds (a ∙ ap status (ground arith)) (rw (a, await_health, ok) refl)
      | inr bad ↦
          goes_on (rw a (not_ready code (λ e. ground arith))) (rw (a, await_health, bad) refl)
    ]
    by_answer connect_error a = goes_on (rw a refused) (rw (a, await_health) refl)
    by_answer (raises message) a = breaks message a (rw (a, await_health) refl)

await_health-BecomesHealthy :
    (health : ℕ → Health) (failure : String) (first todo : ℕ)
    → await_health health failure first todo ≡ returns
    → BecomesHealthy health first (first + todo)
unfolding await_health
await_health-BecomesHealthy health failure first zero e = absurd (cc)
await_health-BecomesHealthy health failure first (suc todo) e =
    let shift : suc first + todo ≡ first + suc todo = omega arith in
    elim (Attempt-cases health failure first todo) [
      | goes_on r step ↦ BecomesHealthy-later health first (first + suc todo) r (
          subst (BecomesHealthy health (suc first)) shift
            (await_health-BecomesHealthy health failure (suc first) todo (sym step ∙ e)))
      | succeeds ok step ↦ BecomesHealthy-now health first (first + suc todo) (omega arith) ok
      | breaks message a step ↦ absurd (cc)
    ]

await_health_ready :
    (health : ℕ → Health) (failure : String) (first todo : ℕ)
    → BecomesHealthy health first (first + todo)
    → await_health health failure first todo ≡ returns
await_health_ready health failure first zero b = absurd (omega (arith, b.begun, b.in_time))
await_health_ready health failure first (suc todo) b =
    elim (Attempt-cases health failure first todo) [
      | goes_on r step ↦
          step
          ∙ await_health_ready health failure (suc first) todo (record {
            attempt = b.attempt;
            begun = elim (Bool-cases (b.attempt == first)) [
              | inl same ↦ absurd (IsRetried-ok r (ap health (ground arith) ∙ b.healthy))
              | inr other ↦ ground (arith, b.begun)
            ];
            in_time = omega (arith, b.in_time);
            healthy = b.healthy;
            until = λ i low high. b.until i (omega arith) high;
          })
      | succeeds ok step ↦ step
      | breaks message a step ↦ elim (Bool-cases (b.attempt == first)) [
        | inl same ↦
            let here : health first ≡ health b.attempt = ap health (ground arith) in
            let ok : raises message ≡ status 200 = sym a ∙ here ∙ b.healthy in absurd (cc)
        | inr other ↦
            absurd (IsRetried-raises (b.until first (omega arith) (ground (arith, b.begun))) a)
      ]
    ]

await_health_never :
    (health : ℕ → Health) (failure : String) (first todo : ℕ)
    → ((i : ℕ) → first ≤ i → i < first + todo → IsRetried (health i))
    → await_health health failure first todo ≡ fails failure
unfolding await_health
await_health_never health failure first zero never = refl
await_health_never health failure first (suc todo) never =
    let r = never first (omega arith) (omega arith) in
    elim (Attempt-cases health failure first todo) [
      | goes_on _ step ↦
          step
          ∙ await_health_never health failure (suc first) todo
              (λ i low high. never i (omega arith) (omega arith))
      | succeeds ok step ↦ absurd (IsRetried-ok r ok)
      | breaks message a step ↦ absurd (IsRetried-raises r a)
    ]

-- A start of a stopped backend whose process can be created succeeds exactly if one of the given
-- number of health checks answers 200 and all before it are refused or answer another status.
pub start_succeeds_iff :
    (attempts : ℕ) (exited : Option ℕ) (health : ℕ → Health) (failure : String) (s : ServerBackend)
    → s.has_client ≡ false
    → ((start attempts none exited health failure s).0 ≡ returns) ↔ BecomesHealthy health 0 attempts
unfolding start
start_succeeds_iff attempts exited health failure s stopped = rw stopped (
  λ e.
      subst (BecomesHealthy health 0) (omega arith)
        (await_health-BecomesHealthy health failure 0 attempts e),
  λ b.
      await_health_ready health failure 0 attempts
        (subst (BecomesHealthy health 0) (omega arith) b),
)

-- A start of a stopped backend whose process can be created, but whose health checks are all
-- refused or answer another status than 200, fails, and keeps the process as it is by then, running
-- unless it ended by itself: the next start, whatever it is given, reports success and changes
-- nothing.
pub start-start_failed :
    (attempts attempts' : ℕ) (health health' : ℕ → Health) (failure failure' : String)
    (spawned' : Option String) (exited exited' : Option ℕ) (s : ServerBackend)
    → s.has_client ≡ false
    → ((i : ℕ) → i < attempts → IsRetried (health i))
    → let (outcome, s') = start attempts none exited health failure s in
      (outcome ≡ fails failure)
      × (s'.process ≡ some (record { returncode = exited }))
      × (start attempts' spawned' exited' health' failure' s' ≡ (returns, s'))
unfolding start
start-start_failed attempts attempts' health health' failure failure' spawned' exited exited' s
      stopped never =
    rw stopped (
      await_health_never health failure 0 attempts (λ i low high. never i (omega arith)),
      refl,
      refl,
    )

-- The client is released, and no process runs.
abbrev pub IsReleased : ServerBackend → Type 0
IsReleased s =
    (s.has_client ≡ false)
    × ((s.process ≡ none) ⊎ ((code : ℕ) × (s.process ≡ some (record { returncode = some code }))))

stop_process :
    (exited exited' returncode : Option ℕ) (has_client : Bool)
    → let s' =
        stop exited (record {
          process = some (record { returncode = returncode });
          has_client = has_client;
        }) in
      IsReleased s' × (stop exited' s' ≡ s')
unfolding stop
stop_process none exited' none c = ((refl, inl refl), refl)
stop_process (some code) exited' none c = ((refl, inr (code, refl)), refl)
stop_process exited exited' (some code) c = ((refl, inr (code, refl)), refl)

stop_fields :
    (exited exited' : Option ℕ) (process : Option Process) (has_client : Bool)
    → let s' = stop exited (record { process = process; has_client = has_client }) in
      IsReleased s' × (stop exited' s' ≡ s')
unfolding stop
stop_fields exited exited' none c = ((refl, inl refl), refl)
stop_fields exited exited' (some p) c = stop_process exited exited' p.returncode c

-- After a stop the client is released, no process runs, and a second stop changes nothing.
pub stop-IsReleased :
    (exited exited' : Option ℕ) (s : ServerBackend)
    → let s' = stop exited s in IsReleased s' × (stop exited' s' ≡ s')
stop-IsReleased exited exited' s = stop_fields exited exited' s.process s.has_client
