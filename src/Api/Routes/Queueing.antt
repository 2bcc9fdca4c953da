-- ===== src/Api/Routes/Queueing.antt =====
-- api/routes.py: requests between admission control and the queue. Each has passed `admit` and waits in
-- `scheduler.submit`, for the scheduler's lock.
use llm_serving_runtime.Base.{
  ℕ, suc, ◌+◌, ◌≤◌, ◌<◌, ◌≡◌, refl, ap, ◌∙◌, inl, inr, true, arith, Bool-cases, List, [], ◌∷◌, ◌++◌,
  length, length-append,
}
use llm_serving_runtime.Base.Text.{String}
use llm_serving_runtime.Core.Request.{ChatCompletionRequest}
use llm_serving_runtime.Core.Response.{ScheduledRequest}
use llm_serving_runtime.Admission.{AdmissionController, admit}
use llm_serving_runtime.Admission.Bounds.{admit-config}
use llm_serving_runtime.Admission.Decisions.{HasRoom}
use llm_serving_runtime.Scheduler.Interface.{Scheduler}
use llm_serving_runtime.Api.Routes.{
  Services, Accepted, refused, admitted, admit_chat, accept_chat, reject_chat, put_chat,
}
use llm_serving_runtime.Api.Routes.Admitting.{
  waiting, decision, admit_chat-accepted, admit_chat-refused,
}

-- The server, and the items whose `submit` waits.
pub record Front (sch : Scheduler) : Type 0 where
  pub services : Services sch
  pub in_flight : List ScheduledRequest

abbrev pub joined : Accepted → List ScheduledRequest → List ScheduledRequest
joined (refused response) items = items
joined (admitted item) items = item ∷ items

admit-accepted_room :
    (now queue_size : ℕ) (c : AdmissionController)
    → (admit now queue_size c).0.accepted ≡ true
    → HasRoom c.max_queue_size queue_size
unfolding admit
admit-accepted_room now queue_size c a = ground arith

module _ {sch : Scheduler} where
  -- A request arrives.
  unfoldable pub arrive : String → ℕ → ChatCompletionRequest → Front sch → Front sch
  unfolding admit_chat
  arrive id now body f =
      let (answer, services) = admit_chat id now body f.services in
      record { services = services; in_flight = joined answer f.in_flight }

  -- What can become of the server while at most `most` requests at a time stand between `admit` and
  -- the queue: a request arrives; one of those in flight, in any order, is put on the queue; or
  -- another task works, which takes requests off the queue or leaves it alone and does not touch
  -- admission control.
  pub data Reaches (most : ℕ) (f : Front sch) : Front sch → Type 0 where
    starts : Reaches most f f
    arrives :
        {g : Front sch} (id : String) (now : ℕ) (body : ChatCompletionRequest)
        → length g.in_flight < most
        → Reaches most f g
        → Reaches most f (arrive id now body g)
    puts :
        {g : Front sch} (now : ℕ) (before : List ScheduledRequest) (item : ScheduledRequest)
        (after : List ScheduledRequest)
        → g.in_flight ≡ before ++ (item ∷ after)
        → Reaches most f g
        → Reaches most f
            (record { services = put_chat now item g.services; in_flight = before ++ after })
    works :
        {g : Front sch} (services : Services sch)
        → services.admission ≡ g.services.admission
        → waiting services ≤ waiting g.services
        → Reaches most f g
        → Reaches most f (record { services = services; in_flight = g.in_flight })

  -- Those that wait, and those on their way.
  abbrev pub load : Front sch → ℕ
  load f = waiting f.services + length f.in_flight

  arrive-max_queue_size :
      (id : String) (now : ℕ) (body : ChatCompletionRequest) (f : Front sch)
      → (arrive id now body f).services.admission.max_queue_size
        ≡ f.services.admission.max_queue_size
  unfolding arrive admit_chat reject_chat accept_chat
  arrive-max_queue_size id now body f = elim (Bool-cases (decision now f.services).accepted) [
    | inl a ↦ rw a (admit-config now (waiting f.services) f.services.admission).2
    | inr a ↦ rw a (admit-config now (waiting f.services) f.services.admission).2
  ]

  arrive-load :
      (id : String) (now : ℕ) (body : ChatCompletionRequest) (f : Front sch) (most : ℕ)
      → 0 < f.services.admission.max_queue_size
      → length f.in_flight < most
      → load f < f.services.admission.max_queue_size + most
      → load (arrive id now body f) < f.services.admission.max_queue_size + most
  unfolding arrive
  arrive-load id now body f most p room le = elim (Bool-cases (decision now f.services).accepted) [
    | inl a ↦
        let (answer, same, _) = admit_chat-accepted id now body f.services a in
        let more : length (joined (admit_chat id now body f.services).0 f.in_flight)
            ≡ suc (length f.in_flight) =
          ap (λ x. length (joined x f.in_flight)) answer in
        ground (
          arith,
          more,
          ap sch.size same,
          admit-accepted_room now (waiting f.services) f.services.admission a,
        )
    | inr a ↦
        let (answer, same, _) = admit_chat-refused id now body f.services a in
        let equal : length (joined (admit_chat id now body f.services).0 f.in_flight)
            ≡ length f.in_flight =
          ap (λ x. length (joined x f.in_flight)) answer in
        omega (arith, equal, ap sch.size same)
  ]

  put_chat-waiting :
      (now : ℕ) (item : ScheduledRequest) (s : Services sch)
      → waiting (put_chat now item s) ≡ suc (waiting s)
  unfolding put_chat
  put_chat-waiting now item s = sch.size-submit _ _ _

  put_chat-admission :
      (now : ℕ) (item : ScheduledRequest) (s : Services sch)
      → (put_chat now item s).admission ≡ s.admission
  unfolding put_chat
  put_chat-admission now item s = refl

  -- Under a positive cap that the queue keeps at the start, with no request in flight: however
  -- requests arrive and are put on the queue, at most `most` of them at a time in between, and
  -- whatever the other tasks do in between that neither adds to the queue nor touches admission
  -- control, the cap stays the same, and the queue and the requests in flight together exceed it by
  -- less than `most`. So a queue whose `submit` never waits, with one request in between, keeps the
  -- cap.
  pub Reaches-waiting_le :
      {most : ℕ} {f g : Front sch}
      → 0 < f.services.admission.max_queue_size
      → 0 < most
      → f.in_flight ≡ []
      → waiting f.services ≤ f.services.admission.max_queue_size
      → Reaches most f g
      → (g.services.admission.max_queue_size ≡ f.services.admission.max_queue_size)
        × (waiting g.services + length g.in_flight < f.services.admission.max_queue_size + most)
  Reaches-waiting_le p some_room quiet le starts = (refl, omega (arith, ap length quiet))
  Reaches-waiting_le {most} p some_room quiet le (arrives {g = g} id now body room r) =
      let (cap, bound) = Reaches-waiting_le p some_room quiet le r in
      (
        arrive-max_queue_size id now body g ∙ cap,
        omega (
          arith,
          cap,
          bound,
          arrive-load id now body g most (omega (arith, cap)) room (omega (arith, cap, bound)),
        ),
      )
  Reaches-waiting_le p some_room quiet le (puts {g = g} now before item after e r) =
      let (cap, bound) = Reaches-waiting_le p some_room quiet le r in
      (
        ap (λ c. c.max_queue_size) (put_chat-admission now item g.services) ∙ cap,
        omega (
          arith,
          bound,
          put_chat-waiting now item g.services,
          ap length e,
          length-append before (item ∷ after),
          length-append before after,
        ),
      )
  Reaches-waiting_le p some_room quiet le (works services same less r) =
      let (cap, bound) = Reaches-waiting_le p some_room quiet le r in
      (ap (λ c. c.max_queue_size) same ∙ cap, omega (arith, bound))
