-- ===== src/Queue/Tests.antt =====
-- Runs of the queue, and the theorems at concrete inputs. Payloads, moments and answers are numbers.
use igthon.Prelude.{ℕ, ◌≡◌, refl, false, some, none, List, [], ◌∷◌, All}
use igthon.Queue.{
  Config, submit, register, enqueue, start, take, begin, finish, handle_failure, give_up, log_error,
  record_error, record_recent, resume, held,
}
use igthon.Queue.Call.{QueuedCall, Failure, Outcome, QueueStatus, high, normal}
use igthon.Queue.Submit.{Submission, get, post, new_call, label_of}
use igthon.Queue.Entries.{
  put_call, set_pending, pop_pending, is_rate_limit, is_transient, is_retriable,
}
use igthon.Queue.Trace.{
  Event, submits, takes, begins, answers, resumes, cancels, starts, step, run, initial, works,
  moved,
}
use igthon.Queue.Conserve.{IsConserved, run-IsConserved}
use igthon.Queue.Order.{IsServedBefore, take-IsServedBefore}
use igthon.Queue.Accounts.{IsAccounted, run-IsAccounted}
use igthon.Queue.Futures.{IsAnswered, run-IsAnswered}

abbrev config : Config
config = record { max_attempts = 3; retry_margin = 5; recent_size = 2; errors_size = 2 }

abbrev market : Submission ℕ
market = get "/markets/EPIC" 3 false normal none false

abbrev order : Submission ℕ
order = post "/positions/otc" 7 2 high none false

abbrev outage : Failure
outage = record {
  is_runtime_error = false;
  ig_error_code = "";
  http_status = some 503;
  text = "unavailable";
}

abbrev quota : Failure
quota = record {
  is_runtime_error = false;
  ig_error_code = "error.request.too.frequent";
  http_status = some 403;
  text = "quota";
}

-- A read that fails, is tried again, meets the quota, and waits; an order overtakes it.
abbrev events : List (Event ℕ ℕ ℕ)
events =
    starts
    ∷ submits 10 market
    ∷ takes
    ∷ begins 11
    ∷ answers 12 (Outcome.raised outage)
    ∷ takes
    ∷ begins 13
    ∷ answers 14 (Outcome.raised quota)
    ∷ submits 15 market
    ∷ submits 16 order
    ∷ resumes
    ∷ takes
    ∷ []

abbrev served : QueuedCall ℕ ℕ
served = new_call 16 3 3 order

run-events : (run events (initial config)).phase ≡ held served
unfolding run step submit register enqueue start take begin finish handle_failure give_up log_error
    record_error record_recent resume put_call set_pending pop_pending is_rate_limit is_transient
    is_retriable works moved new_call label_of get post
run-events = refl

run-IsConserved_example : IsConserved 1 (run events (initial config))
run-IsConserved_example = run-IsConserved config events 1

run-IsAccounted_example : IsAccounted (run events (initial config))
run-IsAccounted_example = run-IsAccounted config events

run-IsAnswered_example : IsAnswered 1 (run (cancels 2 ∷ events) (initial config))
run-IsAnswered_example = run-IsAnswered config (cancels 2 ∷ events) 1

-- An order that came later is taken before the read.
abbrev two : List (Event ℕ ℕ ℕ)
two = starts ∷ submits 10 market ∷ submits 11 order ∷ []

abbrev urgent_call : QueuedCall ℕ ℕ
urgent_call = new_call 11 2 3 order

take-IsServedBefore_example :
    let q = (run two (initial config)).queue in
    (q.queue ≡ urgent_call ∷ (take q).1.queue) × All (IsServedBefore urgent_call) (take q).1.queue
unfolding run step submit register enqueue start take begin finish handle_failure give_up log_error
    record_error record_recent resume put_call set_pending pop_pending is_rate_limit is_transient
    is_retriable works moved new_call label_of get post
take-IsServedBefore_example = take-IsServedBefore config two urgent_call refl

-- The read that has failed once is with the client again.
abbrev retried : List (Event ℕ ℕ ℕ)
retried =
    starts
    ∷ submits 10 market
    ∷ takes
    ∷ begins 11
    ∷ answers 12 (Outcome.raised outage)
    ∷ takes
    ∷ begins 13
    ∷ []

abbrev second_try : QueuedCall ℕ ℕ
second_try = record (new_call 10 1 3 market) {
  status = QueueStatus.running;
  started_at = some 13;
  attempts = 2;
  total_attempts = 2;
}
