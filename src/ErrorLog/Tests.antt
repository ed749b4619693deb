-- ===== src/ErrorLog/Tests.antt =====
-- The error log at a concrete input.
use igthon.Prelude.{ℕ, ◌≡◌, refl, [], ◌∷◌, map}
use igthon.Prelude.Ring.{keep_last}
use igthon.ErrorLog.{Report, entry_of, record_all, get_all, get_all-record_all, clear, count}
use mathlib.Core.List.{reverse}

abbrev report : ℕ → Report
report now = record {
  now = now;
  method = "GET";
  endpoint = "/prices";
  http_status = 403;
  ig_error_code = "error.request.too.frequent";
}

-- The oldest of three errors has left a log of two.
get_all-record_all_example :
    get_all
      (record_all (report 1 ∷ report 2 ∷ report 3 ∷ []) (record { max_entries = 2; entries = [] }))
    ≡ reverse (keep_last 2 (map entry_of (report 1 ∷ report 2 ∷ report 3 ∷ [])))
get_all-record_all_example = get_all-record_all 2 (report 1 ∷ report 2 ∷ report 3 ∷ [])

count-clear :
    count (clear (record_all (report 1 ∷ []) (record { max_entries = 2; entries = [] }))) ≡ 0
unfolding count clear record_all
count-clear = refl
