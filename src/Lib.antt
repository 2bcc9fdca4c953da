-- ===== src/Lib.antt =====
-- The verification library of the LLM serving runtime, a Python server that admits chat requests,
-- queues them, batches them onto a token-generating backend and answers them whole or as a stream.
--
-- The parts, and how they interact. A request enters by the handler in
-- src/llm_runtime/api/routes.py (Api/Routes.antt: `admit_chat` up to its first wait, `put_chat`
-- for the awaited `submit`, `finish_chat` from the wait for the result on, `serve_stream` for the
-- body of a stream; Api/Endpoints for `health` and `get_metrics`).
-- Admission control, src/llm_runtime/core/admission.py (Admission.antt), caps the queue and limits
-- the rate. An accepted request with its handle, core/request.py and core/response.py
-- (Core/Request, Core/Prompt, Core/Response), goes to one of two schedulers,
-- src/llm_runtime/scheduler (Scheduler/Fifo, Scheduler/Priority, behind the record in
-- Scheduler/Interface). A worker, src/llm_runtime/workers/manager.py (Workers/Manager,
-- Workers/Batch, Workers/Loop for the endless loop of one worker on the FIFO scheduler, and
-- Workers/Pool for any number of workers, on a scheduler behind the record in Scheduler/Source),
-- takes a batch, feeds it to a backend, src/llm_runtime/backends (Backends/Base, Backends/Mock, and
-- Backends/Server for llama.cpp and vLLM: the server process, Backends/Server/Command for its
-- command line and Backends/Server/Stream for the event stream that `generate` reads), and delivers
-- tokens, completions and errors to the handles, which the API reads: a future, or a queue that
-- src/llm_runtime/api/streaming.py (Api/Streaming, with the text in Api/Streaming/Text) turns into
-- frames. Api/Answers follows a request from the workers to its client. Both sides count in
-- src/llm_runtime/metrics (Metrics/Latency, Metrics/Histogram, Metrics/Collector; Metrics/Snapshot
-- for `snapshot` and Metrics/Exposition for `snapshot_prometheus`), where Metrics/Gpu reads the
-- devices. src/llm_runtime/utils/logging.py (Logging) writes the log lines.
-- src/llm_runtime/core/lifecycle.py and config.py (Core/Lifecycle, Config) choose the parts and
-- their parameters, Config/Environment from the environment. src/llm_runtime/main.py (App, with the
-- log of the requests in App/Requests) starts and stops the whole.
-- scripts/download_vllm_smoke_assets.py (Scripts) fetches a model for it. The modules below a
-- component hold its proofs; Tests holds runs at concrete inputs.
--
-- State and operations. A class is a record with the class's name and its methods are functions of
-- the record with the methods' names; a union is a data type. What a coroutine sees of the others
-- while it waits is an argument: the arrivals and clock readings of a batch's rounds, the
-- submissions during a wait on the condition, and the backend's events together with the API's
-- cancellations as one list of happenings. Between two waits a coroutine runs alone, as under
-- asyncio. A call under a lock is one step from when it has the lock; `put_chat` is a step of its own,
-- after any others, since `submit` may wait for the scheduler's lock. A loop that reads the clock for
-- each item is given a function of readings; the two readings that `_complete_item` takes for one
-- item, one after the other, are one.
--
-- Units. A clock reading is a number of nanoseconds, a rate a number of nano-requests per second,
-- and a bucket's token is 10^18 parts, so that refills are exact; a latency is a signed number of
-- nanoseconds. The floating-point rounding of the source is left out. The floats that are only
-- passed on are numbers of millionths. A text that the code walks is a list of code points. An
-- exception is its message; one that the backend raises is neither a TimeoutError nor a
-- CancelledError, which `asyncio.wait_for` raises itself. The set `pending` of the worker is walked
-- in the order of insertion.
--
-- Loops are structural: on the queue, on the places left in a batch, on the list of happenings, on
-- the decode steps, on the health checks or the attempts of a download that are left. The endless
-- loop of a worker is a function of the list of its turns, of any length, and several workers are a
-- relation between states, with any number of steps. The one fuel is that of the digits of a
-- number: the number's successor, which exceeds the count of its digits (Base/Decimal).
--
-- Not modelled: HTTP, and the texts of responses and log lines (both are values; the text of a
-- stream is modelled, with `json.dumps` and `json.loads` as arguments), Python's text of a float,
-- digits other than 0 to 9 in what `int` reads, the mock backend's sleeps, running nvidia-smi,
-- several workers with batches of more than one request (the runtime starts several only for a
-- backend with native batching, with batches of one), the wiring of FastAPI, and the benchmarks,
-- which only call the server.
mod Base
pub mod Admission
pub mod Core
pub mod Config
pub mod Api
pub mod Scheduler
pub mod Metrics
pub mod Backends
pub mod Workers
pub mod App
pub mod Logging
pub mod Scripts
mod Tests
