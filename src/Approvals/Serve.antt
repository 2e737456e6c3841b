-- ===== src/Approvals/Serve.antt =====
-- web3/internal/service/approval.go, `CheckTronUSDTApprovals`: a request, from its address to the answer,
-- with the usage budgets of the day.
use grpc_go_project.Prelude.{
  ℕ, ◌+◌, Bool, true, false, not, Option, none, some, List, [], ◌∷◌, if◌then◌else◌,
}
use grpc_go_project.Prelude.Int.{pos}
use grpc_go_project.Prelude.Result.{Result, ok, err}
use grpc_go_project.Usage.{
  UsageError, usage_failed, Refused, reserve_query, QueryStatus, success, partial, failed,
}
use grpc_go_project.Usage.Account.{
  Limits, UsageCall, query, upstream, result, Usage, use_one, use_many,
}
use grpc_go_project.Approvals.Check.{
  CheckStatus, check_success, check_partial, check_failed, CheckResponse,
}

pub data ServeError : Type 0 where
  invalid_address not_enabled too_many_requests usage_unavailable request_canceled leader_failed :
      ServeError

-- `usageError`
abbrev pub usage_error : UsageError → ServeError
usage_error usage_failed = usage_unavailable
usage_error _ = too_many_requests

-- `approvalStatusName`
abbrev pub approval_status_name : CheckStatus → QueryStatus
approval_status_name check_success = success
approval_status_name check_partial = partial
approval_status_name check_failed = failed

-- What a request meets behind the cache. The first request for an address runs the check, which
-- reserves upstream calls that the database may refuse; while it runs, further ones wait for its
-- response, or are cancelled. There is no response where the query was switched off meanwhile.
pub data Flight : Type 0 where
  leads : List Bool → Option CheckResponse → Flight
  follows : Option CheckResponse → Flight
  gives_up : Flight

-- A request: its validity and the HMAC of its address, the database's refusals, and the cached response,
-- if there is one that can be read.
pub record CheckRequest : Type 0 where
  pub address_valid : Bool
  pub address_hmac : ℕ
  pub enabled : Bool
  pub refused : Refused
  pub cached : Option CheckResponse
  pub flight : Flight
  pub record_refused : Bool

unfoldable pub upstream_calls : List Bool → List UsageCall
upstream_calls [] = []
upstream_calls (refused ∷ rest) = upstream refused ∷ upstream_calls rest

-- The answer to what a check or the request in front brought.
abbrev pub answer :
    Limits → Bool → Option CheckResponse → Usage → Result ServeError CheckResponse × Usage
answer l refused none u = (err leader_failed, use_one l (result refused failed false) u)
answer l refused (some r) u =
    (ok r, use_one l (result refused (approval_status_name r.status) false) u)

abbrev pub fly : Limits → Bool → Flight → Usage → Result ServeError CheckResponse × Usage
fly l refused (leads calls response) u =
    answer l refused response (use_many l (upstream_calls calls) u)
fly l refused (follows response) u = answer l refused response u
fly l refused gives_up u = (err request_canceled, u)

abbrev pub after_cache :
    Limits → CheckRequest → Option CheckResponse → Usage → Result ServeError CheckResponse × Usage
after_cache l req (some r) u =
    (ok r, use_one l (result req.record_refused (approval_status_name r.status) true) u)
after_cache l req none u = fly l req.record_refused req.flight u

abbrev pub after_reserve :
    Limits
    → CheckRequest
    → Result UsageError (Unit {0})
    → Usage
    → Result ServeError CheckResponse × Usage
after_reserve l req (err e) u = (err (usage_error e), u)
after_reserve l req (ok _) u = after_cache l req req.cached u

-- `CheckTronUSDTApprovals`
unfoldable pub check_approvals :
    Limits → CheckRequest → Usage → Result ServeError CheckResponse × Usage
unfolding use_one use_many upstream_calls reserve_query
check_approvals l req u =
    if not req.address_valid
    then (err invalid_address, u)
    else if not req.enabled
    then (err not_enabled, u)
    else after_reserve l req
        (reserve_query req.refused req.address_hmac (pos l.queries) (pos l.addresses) u.day).0
        (use_one l (query req.refused req.address_hmac) u)

-- A day of requests, with the number of responses that were sent.
abbrev pub count_answer : ℕ → Result ServeError CheckResponse × Usage → ℕ × Usage
count_answer n (ok r, u) = (n + 1, u)
count_answer n (err e, u) = (n, u)

unfoldable pub serve_all : Limits → List CheckRequest → ℕ × Usage → ℕ × Usage
unfolding check_approvals
serve_all l [] s = s
serve_all l (req ∷ rest) (n, u) = serve_all l rest (count_answer n (check_approvals l req u))
