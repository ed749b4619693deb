-- ===== src/Queue/Submit.antt =====
-- What the producers hand to `_submit`, and the call that it builds (src/core/api_queue.py).
use igthon.Prelude.{ℕ, String, Bool, false, Option, none, some, str_eq, if◌then◌else◌}
use igthon.Queue.Call.{QueueStatus, QueuedCall}
use Prim.Native.String.{◌++◌ as text_append}

-- The arguments of `_submit`.
pub record Submission (Payload : Type 0) : Type 0 where
  pub method : String
  pub endpoint : String
  pub payload : Option Payload
  pub version : ℕ
  pub suppress : Bool
  pub priority : ℕ
  pub label : Option String
  pub expect_not_found : Bool
  pub expect_market_order_rejection : Bool

module _ {Payload : Type 0} where
  unfoldable pub get : String → ℕ → Bool → ℕ → Option String → Bool → Submission Payload
  get endpoint version suppress priority label expect_not_found = record {
    method = "GET";
    endpoint = endpoint;
    payload = none;
    version = version;
    suppress = suppress;
    priority = priority;
    label = label;
    expect_not_found = expect_not_found;
    expect_market_order_rejection = false;
  }

  unfoldable pub post : String → Payload → ℕ → ℕ → Option String → Bool → Submission Payload
  post endpoint payload version priority label expect_rejection = record {
    method = "POST";
    endpoint = endpoint;
    payload = some payload;
    version = version;
    suppress = false;
    priority = priority;
    label = label;
    expect_not_found = false;
    expect_market_order_rejection = expect_rejection;
  }

  unfoldable pub put : String → Payload → ℕ → ℕ → Option String → Submission Payload
  put endpoint payload version priority label = record {
    method = "PUT";
    endpoint = endpoint;
    payload = some payload;
    version = version;
    suppress = false;
    priority = priority;
    label = label;
    expect_not_found = false;
    expect_market_order_rejection = false;
  }

  unfoldable pub delete :
      String → Option Payload → ℕ → ℕ → Option String → Bool → Submission Payload
  delete endpoint payload version priority label expect_rejection = record {
    method = "DELETE";
    endpoint = endpoint;
    payload = payload;
    version = version;
    suppress = false;
    priority = priority;
    label = label;
    expect_not_found = false;
    expect_market_order_rejection = expect_rejection;
  }

-- `label or f"{method} {endpoint}"`
unfoldable pub label_of : Option String → String → String → String
label_of none method endpoint = text_append method (text_append " " endpoint)
label_of (some l) method endpoint =
    if str_eq l "" then text_append method (text_append " " endpoint) else l

module _ {Payload Time : Type 0} where
  unfoldable pub new_call : Time → ℕ → ℕ → Submission Payload → QueuedCall Payload Time
  unfolding label_of
  new_call now seq max_attempts s = record {
    seq = seq;
    priority = s.priority;
    method = s.method;
    endpoint = s.endpoint;
    payload = s.payload;
    version = s.version;
    suppress_error_logging = s.suppress;
    label = label_of s.label s.method s.endpoint;
    max_attempts = max_attempts;
    attempts = 0;
    total_attempts = 0;
    expect_not_found = s.expect_not_found;
    expect_market_order_rejection = s.expect_market_order_rejection;
    status = QueueStatus.pending;
    last_error = "";
    created_at = now;
    started_at = none;
    finished_at = none;
  }
