-- ===== src/ErrorLog.antt =====
-- The log of the last API errors (src/core/api_error_log.py).
mod Tests
use igthon.Prelude.{
  ℕ, ◌≤◌, map, arith, ◌≡◌, refl, ◌∙◌, ap, String, Option, none, some, List, [], ◌∷◌, ◌++◌, length,
}
use igthon.Prelude.Dicts.{Dict, lookup}
use igthon.Prelude.Ring.{keep_last, keep_last_all, keep_last-append, length-keep_last}
use mathlib.Core.List.{reverse, append_assoc, append-nil}

pub record ApiErrorEntry : Type 0 where
  pub timestamp : ℕ
  pub method : String
  pub endpoint : String
  pub http_status : ℕ
  pub ig_error_code : String
  pub hint : String

abbrev pub ig_error_translations : Dict String
ig_error_translations =
    (
      "error.public-api.failure.encryption.not-enabled",
      "Encryption not enabled — enable password encryption in your IG account settings.",
    )
    ∷ (
      "error.public-api.failure.kyc.required",
      "KYC verification required — complete identity verification on IG.",
    )
    ∷ (
      "error.public-api.failure.stockbroking-not-supported",
      "Stockbroking not supported on this account type.",
    )
    ∷ (
      "error.service.financial.stockbroking-account-type.not.supported",
      "Account type does not support stockbroking.",
    )
    ∷ (
      "error.public-api.failure.preferred-account-not-set",
      "No preferred account set — set a default account in IG settings.",
    )
    ∷ (
      "error.public.api.failure.trading.position.not.enabled.for.this.epic",
      "Trading not enabled for this instrument (epic). Check dealing permissions.",
    )
    ∷ (
      "error.request.too.frequent",
      "API rate limit exceeded — too many requests in a short time window.",
    )
    ∷ (
      "access.denied.reason.ip.blocked",
      "IP address blocked by IG — contact IG support or wait for the block to lift.",
    )
    ∷ (
      "error.public-api.failure.invalid-deal-size",
      "Invalid deal size — check minimum/maximum size for this instrument.",
    )
    ∷ ("error.public-api.failure.epic-does-not-exist", "Epic does not exist or has been delisted.")
    ∷ (
      "error.public-api.failure.market-closed",
      "Market is closed — trading is outside market hours.",
    )
    ∷ (
      "error.security.account-token-invalid",
      "Access token invalid or expired — re-authentication required.",
    )
    ∷ ("error.security.client-token-missing", "API key missing from request headers.")
    ∷ (
      "error.security.account-token-missing",
      "Account token (OAuth Bearer) missing from request headers.",
    )
    ∷ ("error.security.oauth-token-invalid", "OAuth token is invalid or has been revoked.")
    ∷ (
      "error.public-api.failure.no-deal-reference-number",
      "No deal reference returned — the order may not have been placed.",
    )
    ∷ []

pub record ApiErrorLog : Type 0 where
  pub max_entries : ℕ
  pub entries : List ApiErrorEntry

abbrev pub hint_of : String → String
unfolding lookup
hint_of code = elim (lookup code ig_error_translations) [ none ↦ "" | some hint ↦ hint ]

-- An error that the client reports, and the time.
pub record Report : Type 0 where
  pub now : ℕ
  pub method : String
  pub endpoint : String
  pub http_status : ℕ
  pub ig_error_code : String

unfoldable pub entry_of : Report → ApiErrorEntry
entry_of r = record {
  timestamp = r.now;
  method = r.method;
  endpoint = r.endpoint;
  http_status = r.http_status;
  ig_error_code = r.ig_error_code;
  hint = hint_of r.ig_error_code;
}

unfoldable pub record_entry : Report → ApiErrorLog → ApiErrorLog
unfolding entry_of
record_entry r l = record l { entries = keep_last l.max_entries (l.entries ++ entry_of r ∷ []) }

unfoldable pub get_all : ApiErrorLog → List ApiErrorEntry
get_all l = reverse l.entries

unfoldable clear : ApiErrorLog → ApiErrorLog
clear l = record l { entries = [] }

unfoldable count : ApiErrorLog → ℕ
count l = length l.entries

unfoldable pub record_all : List Report → ApiErrorLog → ApiErrorLog
record_all [] l = l
record_all (r ∷ rs) l = record_all rs (record_entry r l)

record_all-entries :
    (rs : List Report) (l : ApiErrorLog)
    → length l.entries ≤ l.max_entries
    → (record_all rs l).entries ≡ keep_last l.max_entries (l.entries ++ map entry_of rs)
unfolding record_all record_entry
record_all-entries [] l h = rw (append-nil, keep_last_all l.max_entries l.entries h) refl
record_all-entries (r ∷ rs) l h =
    record_all-entries rs (record_entry r l)
      (length-keep_last l.max_entries (l.entries ++ entry_of r ∷ []))
    ∙ keep_last-append l.max_entries (l.entries ++ entry_of r ∷ []) (map entry_of rs)
    ∙ ap (keep_last l.max_entries) (append_assoc l.entries (entry_of r ∷ []) (map entry_of rs))

-- After any errors a new log shows the last of them, as many as it may hold, newest first.
pub get_all-record_all :
    (n : ℕ) (rs : List Report)
    → get_all (record_all rs (record { max_entries = n; entries = [] }))
      ≡ reverse (keep_last n (map entry_of rs))
unfolding get_all
get_all-record_all n rs =
    ap reverse (record_all-entries rs (record { max_entries = n; entries = [] }) (omega arith))
