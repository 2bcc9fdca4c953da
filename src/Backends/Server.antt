-- ===== src/Backends/Server.antt =====
-- backends/llama_cpp_backend.py and backends/vllm_backend.py: the server process behind a backend and
-- the HTTP client. Both classes start and stop in the same way, with other numbers of attempts.
-- What the operating system and the server answer is an argument: whether the process can be
-- created, each health check, and whether the process has ended when it is looked at.
pub mod Readiness
pub mod Stream
pub mod Frames
pub mod Command
use llm_serving_runtime.Base.{
  ℕ, zero, suc, Bool, true, false, Option, none, some, ◌==◌, if◌then◌else◌,
}
use llm_serving_runtime.Base.Text.{String}

-- `returncode` is none while the process runs.
pub record Process : Type 0 where
  pub returncode : Option ℕ

pub record ServerBackend : Type 0 where
  pub process : Option Process
  pub has_client : Bool

abbrev pub new_server : ServerBackend
new_server = record { process = none; has_client = false }

-- What one request to `/health` gives: a status, `httpx.ConnectError`, or another exception.
pub data Health : Type 0 where
  status : (code : ℕ) → Health
  connect_error : Health
  raises : (message : String) → Health

-- How a call ends.
pub data Outcome : Type 0 where
  returns : Outcome
  fails : (message : String) → Outcome

-- The loop over `range(attempts)`, with `todo` attempts left; `failure` is the message at its end.
unfoldable pub await_health : (ℕ → Health) → String → ℕ → ℕ → Outcome
await_health health failure attempt zero = fails failure
await_health health failure attempt (suc todo) =
    let next = await_health health failure (suc attempt) todo in
    elim (health attempt) [
      | status code ↦ if code == 200 then returns else next
      | connect_error ↦ next
      | raises message ↦ fails message
    ]

-- `spawned` is the message of an exception of `create_subprocess_exec`, if it raises, and `exited` the
-- code of a process that has ended by itself when the call ends, if it has.
unfoldable pub start :
    ℕ → Option String → Option ℕ → (ℕ → Health) → String → ServerBackend → Outcome × ServerBackend
unfolding await_health
start attempts spawned exited health failure s =
    if s.has_client then (returns, s) else elim spawned [
      | some message ↦ (fails message, s)
      | none ↦ (
        await_health health failure 0 attempts,
        record { process = some (record { returncode = exited }); has_client = true },
      )
    ]

-- `exited` is the process's return code at the call, if it has ended by itself. A process that does
-- not terminate in time is killed: it is gone in both cases.
unfoldable pub stop : Option ℕ → ServerBackend → ServerBackend
stop exited s = record {
  process = elim s.process [
    | none ↦ none
    | some p ↦ elim p.returncode [
      | some code ↦ some p
      | none ↦ elim exited [ none ↦ none | some code ↦ some (record { returncode = some code }) ]
    ]
  ];
  has_client = false;
}

-- The guard of `generate`: no client, no generation.
unfoldable pub can_generate : ServerBackend → Bool
can_generate s = s.has_client
