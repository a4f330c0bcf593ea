-- ===== src/Sdk/Registry.antt =====
-- workflow-sdk-node/src/handler/registry.ts: the handlers of a worker by job type. What a handler
-- is made of (its variables `V`, the abort signal `S`) is a parameter.
use rochallor_engine.Base.{
  ℕ, String, Option, none, some, List, if◌then◌else◌, is_empty, lookup, insert, keys,
}

-- The fields of an engine job that a handler gets to see.
pub record Job (V : Type 0) : Type 0 where
  pub id : String
  pub job_type : String
  pub instance_id : String
  pub retries_remaining : ℕ
  pub variables : Option V

pub record JobContext (V S : Type 0) : Type 0 where
  pub job_id : String
  pub instance_id : String
  pub job_type : String
  pub retries_remaining : ℕ
  pub variables : V
  pub signal : Option S

-- What a handler throws: a `NonRetryableError`, another `Error`, or another value, which is kept
-- as the text that `String(err)` makes of it.
pub data Thrown : Type 0 where
  non_retryable_error : String → Thrown
  an_error : String → Thrown
  a_value : String → Thrown

-- How a handler's promise settles. `variables_to_set` may be missing.
pub data Settled (V : Type 0) : Type 0 where
  returned : Option V → Settled V
  threw : Thrown → Settled V

abbrev pub Handler : Type 0 → Type 0 → Type 0
Handler V S = JobContext V S → Settled V

abbrev pub Handlers : Type 0 → Type 0 → Type 0
Handlers V S = List (String × Handler V S)

-- `register` throws on an empty job type: `none`.
unfoldable pub register :
    {V S : Type 0} → String → Handler V S → Handlers V S → Option (Handlers V S)
register job_type handler handlers =
    if is_empty job_type then none else some (insert job_type handler handlers)

unfoldable pub get : {V S : Type 0} → String → Handlers V S → Option (Handler V S)
get job_type handlers = lookup job_type handlers

unfoldable pub job_types : {V S : Type 0} → Handlers V S → List String
job_types handlers = keys handlers

abbrev pub value_or : {A : Type 0} → A → Option A → A
value_or default none = default
value_or _ (some x) = x

-- `empty` is the object `{}`.
unfoldable pub context_from : {V S : Type 0} → V → Job V → Option S → JobContext V S
context_from empty job signal = record {
  job_id = job.id;
  instance_id = job.instance_id;
  job_type = job.job_type;
  retries_remaining = job.retries_remaining;
  variables = value_or empty job.variables;
  signal = signal;
}
