-- ===== src/Tests/Api.antt =====
-- The API's handlers at concrete inputs.
use llm_serving_runtime.Base.{
  ◌+◌, ◌<◌, length, ◌≤◌, ◌≡◌, refl, ◌⊎◌, true, false, none, [], ◌∷◌, map, arith,
}
use llm_serving_runtime.Core.Response.{
  completion, streaming, new_completion, new_streaming, token_event, completed_event, put, raised,
}
use llm_serving_runtime.Metrics.Collector
use llm_serving_runtime.Metrics.Collector.Accounts.{counters, one_completed, one_failed}
use llm_serving_runtime.Scheduler.Interface.{fifo}
use llm_serving_runtime.Scheduler.Fifo
use llm_serving_runtime.Workers.Batch.{complete_item, fail_item}
use llm_serving_runtime.Api.Streaming.{chunk, chat_completion_stream}
use llm_serving_runtime.Api.Streaming.Delivery.{chat_completion_stream_abandoned}
use llm_serving_runtime.Api.Routes.{
  Services, http_error, admitted, refused, admit_chat, accept_chat, put_chat, finish_chat,
  timed_out, failed, serve_stream,
}
use llm_serving_runtime.Api.Routes.Admitting.{
  waiting, one_requested, one_rejected, new_item, IsShort, admit_chat_outcome,
}
use llm_serving_runtime.Api.Routes.Queueing.{
  Front, arrive, starts, arrives, puts, Reaches-waiting_le,
}
use llm_serving_runtime.Admission.{token, admit, bucket_capacity}
use llm_serving_runtime.Admission.Bounds.{IsValid}
use llm_serving_runtime.Admission.Decisions.{HasRoom, available}
use llm_serving_runtime.Api.Routes.Accounting.{
  waits_for, streams_to, seen_by_worker, after_worker, times_out, finish_chat-fail_item,
  finish_chat-GivesUp, serve_stream-complete_item,
}
use llm_serving_runtime.Tests.Data.{body, request, completion_item}

-- A server with a queue of at most two requests, and one that waits.
abbrev server : Services fifo
server = record {
  metrics = Collector.init;
  admission = record {
    max_queue_size = 2;
    request_rate_limit_per_s = 0;
    request_rate_limit_burst = 0;
    capacity = 0;
    tokens = 0;
    last_refill_at = 0;
  };
  scheduler = record { queue = completion_item "r0" ∷ [] };
  log = [];
}

size_of_server : waiting server ≡ 1
unfolding Fifo.size
size_of_server = refl

chat_completion_stream_abandoned_example :
    let (frames, h', cancelled) =
      chat_completion_stream "r1" "qwen" (map token_event ("a" ∷ [])) new_streaming in
    (frames ≡ map (chunk "r1" "qwen") ("a" ∷ []))
    × (h' ≡ record new_streaming { cancelled = true })
    × (cancelled ≡ true)
chat_completion_stream_abandoned_example =
    chat_completion_stream_abandoned "r1" "qwen" ("a" ∷ []) new_streaming refl

-- Two requests pass `admit` before the first of them is put on the queue.
abbrev front : Front fifo
front = record { services = server; in_flight = [] }

abbrev two_pass : Front fifo
two_pass = arrive "r2" 6 (body true) (arrive "r1" 5 (body false) front)

abbrev put_both : Front fifo
put_both = record {
  services =
      put_chat 8 (new_item "r1" 5 (body false))
        (put_chat 7 (new_item "r2" 6 (body true)) two_pass.services);
  in_flight = [];
}

-- With a cap of two, three requests wait.
put_both_waiting : waiting put_both.services ≡ 3
unfolding put_chat arrive admit_chat accept_chat admit Fifo.size Fifo.submit
put_both_waiting = refl

two_pass-in_flight :
    two_pass.in_flight ≡ new_item "r2" 6 (body true) ∷ new_item "r1" 5 (body false) ∷ []
unfolding arrive admit_chat accept_chat admit Fifo.size
two_pass-in_flight = refl

one_passes : length (arrive "r1" 5 (body false) front).in_flight ≡ 1
unfolding arrive admit_chat accept_chat admit Fifo.size
one_passes = refl

Reaches-waiting_le_example :
    (put_both.services.admission.max_queue_size ≡ server.admission.max_queue_size)
    × (waiting put_both.services + length put_both.in_flight < server.admission.max_queue_size + 2)
Reaches-waiting_le_example =
    Reaches-waiting_le {most = 2} {f = front} {g = put_both} (omega arith) (omega arith) refl
      (omega (arith, size_of_server))
      (puts 8 [] (new_item "r1" 5 (body false)) [] refl (
        puts 7 [] (new_item "r2" 6 (body true)) (new_item "r1" 5 (body false) ∷ [])
          two_pass-in_flight
          (arrives "r2" 6 (body true) (omega (arith, one_passes))
            (arrives "r1" 5 (body false) (omega arith) starts))))

server-IsValid : IsValid server.admission
unfolding bucket_capacity
server-IsValid = record { sized = refl; capped = omega arith }

admit_chat_outcome_example :
    let (answer, t) = admit_chat "r1" 5 (body false) server in
    let room = HasRoom 2 (waiting server) in
    (t.scheduler ≡ server.scheduler)
    × ((room
          × ((server.admission.request_rate_limit_per_s ≡ 0)
              ⊎ (token ≤ available 5 server.admission))
          × (answer ≡ admitted (new_item "r1" 5 (body false)))
          × (counters t.metrics ≡ one_requested (counters server.metrics)))
        ⊎ ((¬ room)
            × (answer ≡ refused (http_error 503 "scheduler queue is full"))
            × (counters t.metrics ≡ one_rejected (counters server.metrics)))
        ⊎ (room
            × IsShort 5 server.admission
            × (answer ≡ refused (http_error 429 "request rate limit exceeded"))
            × (counters t.metrics ≡ one_rejected (counters server.metrics))))
admit_chat_outcome_example = admit_chat_outcome "r1" 5 (body false) server server-IsValid

finish_chat-fail_item_example :
    let (error, item, sh) =
      fail_item 9 "out of memory"
        (waits_for (request "r1" 1) new_completion)
        (seen_by_worker server []) in
    let h' = record new_completion { future = raised "out of memory" } in
    let (response, h'', t) =
      finish_chat "qwen" "120.000" 6 10 item.request h'
        (failed "out of memory")
        (after_worker server sh) in
    (error ≡ none)
    × (item.handle ≡ completion h')
    × (response ≡ http_error 500 "out of memory")
    × (counters t.metrics ≡ one_failed (counters server.metrics))
finish_chat-fail_item_example =
    finish_chat-fail_item "qwen" "120.000" 6 9 10 "out of memory" (request "r1" 1) new_completion
      server [] (refl, refl)

finish_chat-GivesUp_example :
    let (response, h', t) =
      finish_chat "qwen" "120.000" 6 10 (request "r1" 1) new_completion timed_out server in
    (response ≡ http_error 504 "request timed out")
    × (counters t.metrics ≡ one_failed (counters server.metrics))
    × (complete_item 11 8 ("a" ∷ []) (waits_for (request "r1" 1) h') (seen_by_worker server [])
        ≡ (none, waits_for (request "r1" 1) h', seen_by_worker server []))
    × (fail_item 11 "out of memory" (waits_for (request "r1" 1) h') (seen_by_worker server [])
        ≡ (none, waits_for (request "r1" 1) h', seen_by_worker server []))
finish_chat-GivesUp_example =
    finish_chat-GivesUp "qwen" "120.000" 6 10 11 8 ("a" ∷ []) "out of memory" (request "r1" 1)
      new_completion server (seen_by_worker server []) times_out

serve_stream-complete_item_example :
    let (error, item, sh) =
      complete_item 9 8
        ("a" ∷ "b" ∷ [])
        (streams_to (request "r1" 1) new_streaming)
        (seen_by_worker server []) in
    let h' = put (completed_event "stop") new_streaming in
    let (frames, h'', t) =
      serve_stream 10 "qwen" item.request
        (map token_event ("a" ∷ []))
        h'
        (after_worker server sh) in
    (item.handle ≡ streaming h')
    × (counters t.metrics ≡ one_failed (one_completed (counters server.metrics)))
serve_stream-complete_item_example =
    serve_stream-complete_item "qwen" 9 10 8 ("a" ∷ "b" ∷ []) ("a" ∷ []) (request "r1" 1)
      new_streaming server [] (refl, refl)
