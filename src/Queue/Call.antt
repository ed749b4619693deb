-- ===== src/Queue/Call.antt =====
-- A queued call, what the client makes of it, and the records kept of it
-- (src/core/api_queue.py).
use igthon.Prelude.{ℕ, String, Bool, false, Option, none, some, if◌then◌else◌, str_eq}

-- `Priority`: a lower value is served first.
abbrev pub urgent : ℕ
urgent = 0

abbrev pub high : ℕ
high = 5

abbrev pub normal : ℕ
normal = 10

pub data QueueStatus : Type 0 where
  pending running done error : QueueStatus

-- The code of a MARKET order that the epic does not accept.
abbrev pub market_order_not_supported_code : String
market_order_not_supported_code = "error.trading.otc.market-orders.not-supported-for-epic"

pub record QueuedCall (Payload Time : Type 0) : Type 0 where
  pub seq : ℕ
  pub priority : ℕ
  pub method : String
  pub endpoint : String
  pub payload : Option Payload
  pub version : ℕ
  pub suppress_error_logging : Bool
  pub label : String
  pub max_attempts : ℕ
  pub attempts : ℕ
  pub total_attempts : ℕ
  pub expect_not_found : Bool
  pub expect_market_order_rejection : Bool
  pub status : QueueStatus
  pub last_error : String
  pub created_at : Time
  pub started_at : Option Time
  pub finished_at : Option Time

-- What `_handle_failure` reads of an exception: its class, its `ig_error_code`, the status code of
-- its `response`, and its text.
pub record Failure : Type 0 where
  pub is_runtime_error : Bool
  pub ig_error_code : String
  pub http_status : Option ℕ
  pub text : String

pub data Outcome (Answer : Type 0) : Type 0 where
  returned : Answer → Outcome Answer
  raised : Failure → Outcome Answer

-- The calls that `_invoke` makes of the IG client.
pub data Request (Payload : Type 0) : Type 0 where
  get : String → ℕ → Bool → Bool → Request Payload
  post : String → Option Payload → ℕ → Bool → Request Payload
  put : String → Option Payload → ℕ → Request Payload
  delete : String → Option Payload → ℕ → Bool → Request Payload

-- `ValueError(f"Unsupported method: ...")`
abbrev pub unsupported : String → Failure
unsupported method = record {
  is_runtime_error = false;
  ig_error_code = "";
  http_status = none;
  text = method;
}

module _ {Payload Time : Type 0} where
  -- The request of a call; `none` is a method that the client lacks.
  unfoldable pub request_of : QueuedCall Payload Time → Option (Request Payload)
  request_of c =
      if str_eq c.method "GET"
      then some (Request.get c.endpoint c.version c.suppress_error_logging c.expect_not_found)
      else if str_eq c.method "POST"
      then some (Request.post c.endpoint c.payload c.version c.expect_market_order_rejection)
      else if str_eq c.method "PUT"
      then some (Request.put c.endpoint c.payload c.version)
      else if str_eq c.method "DELETE"
      then some (Request.delete c.endpoint c.payload c.version c.expect_market_order_rejection)
      else none

  -- `_invoke`, with the client as a function.
  unfoldable pub invoke :
      {Answer : Type 0}
      → (Request Payload → Outcome Answer)
      → QueuedCall Payload Time
      → Outcome Answer
  unfolding request_of
  invoke client c = elim (request_of c) [
    | none ↦ Outcome.raised (unsupported c.method)
    | some r ↦ client r
  ]

pub record QueueTaskView (Time : Type 0) : Type 0 where
  pub label : String
  pub method : String
  pub endpoint : String
  pub status : QueueStatus
  pub attempts : ℕ
  pub total_attempts : ℕ
  pub priority : ℕ
  pub last_error : String
  pub created_at : Time
  pub finished_at : Option Time

pub record QueueErrorView (Time : Type 0) : Type 0 where
  pub label : String
  pub method : String
  pub endpoint : String
  pub version : ℕ
  pub http_status : Option ℕ
  pub ig_error_code : String
  pub error : String
  pub attempts : ℕ
  pub total_attempts : ℕ
  pub priority : ℕ
  pub failed_at : Time

module _ {Payload Time : Type 0} where
  unfoldable pub task_view : QueuedCall Payload Time → QueueTaskView Time
  task_view c = record {
    label = c.label;
    method = c.method;
    endpoint = c.endpoint;
    status = c.status;
    attempts = c.attempts;
    total_attempts = c.total_attempts;
    priority = c.priority;
    last_error = c.last_error;
    created_at = c.created_at;
    finished_at = c.finished_at;
  }

  -- The view of a waiting call, in `pending_tasks`.
  unfoldable pub pending_view : QueuedCall Payload Time → QueueTaskView Time
  unfolding task_view
  pending_view c = task_view (record c { status = QueueStatus.pending; finished_at = none })

  -- `call.finished_at or datetime.now(UTC)`
  unfoldable pub error_view : Time → QueuedCall Payload Time → Failure → QueueErrorView Time
  error_view now c f = record {
    label = c.label;
    method = c.method;
    endpoint = c.endpoint;
    version = c.version;
    http_status = f.http_status;
    ig_error_code = f.ig_error_code;
    error = f.text;
    attempts = c.attempts;
    total_attempts = c.total_attempts;
    priority = c.priority;
    failed_at = elim c.finished_at [ none ↦ now | some t ↦ t ];
  }
