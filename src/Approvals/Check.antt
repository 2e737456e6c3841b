-- ===== src/Approvals/Check.antt =====
-- web3/internal/service/approval.go, `check`: the response for one address.
use grpc_go_project.Prelude.{
  ℕ, Bool, true, false, not, ◌&&◌, Option, none, some, List, [], ◌∷◌, ◌++◌, length, ◌==◌, map,
  if◌then◌else◌,
}
use grpc_go_project.Prelude.Text.{Text}
use grpc_go_project.Prelude.Result.{Result, ok, err}
use grpc_go_project.Approvals.{
  ApprovalRecord, UpstreamError, PartialError, partial_error, risk_data_unavailable,
  token_decimals_unavailable, allowance_unavailable,
}
use grpc_go_project.Approvals.Enumerate.{ScanLimits, PageReply, Enumeration, enumerate}
use grpc_go_project.Prelude.Sort.{text_ltb, sort_by}
use grpc_go_project.Approvals.Verify.{AllowanceReply, TronApproval, SpenderFacts, verify_allowances}

pub data CheckStatus : Type 0 where
  check_success check_partial check_failed : CheckStatus

-- `CheckTronUSDTApprovalsResponse`, without its ids, times and texts.
pub record CheckResponse : Type 0 where
  pub status : CheckStatus
  pub enumeration_complete : Bool
  pub truncated : Bool
  pub risk_data_available : Bool
  pub allowance_verification_complete : Bool
  pub approvals : List TronApproval
  pub partial_errors : List PartialError

-- What the provider and the budget answer in the course of one check. A refused reservation stands in
-- the place of the answer of the call that it was for.
pub record Upstream : Type 0 where
  pub enabled : Bool
  pub pages : ℕ → PageReply
  pub risky_spenders : Result UpstreamError (List Text)
  pub usdt_decimals : Result UpstreamError ℕ
  pub allowance : ApprovalRecord → AllowanceReply

-- `candidates`: the values of the map in the order of their addresses.
abbrev pub candidates_of : Enumeration → List ApprovalRecord
candidates_of e =
    sort_by (λ a b. text_ltb a.to_address b.to_address) (map (λ entry. entry.1) e.by_spender)

abbrev pub risk_errors : Result UpstreamError (List Text) → List PartialError
risk_errors (ok spenders) = []
risk_errors (err e) = partial_error e risk_data_unavailable [] ∷ []

abbrev pub decimals_errors : Result UpstreamError ℕ → List PartialError
decimals_errors (ok n) = []
decimals_errors (err e) = partial_error e token_decimals_unavailable [] ∷ []

abbrev pub is_ok : {A : Type 0} → Result UpstreamError A → Bool
is_ok (ok a) = true
is_ok (err e) = false

abbrev pub or_default : {A : Type 0} → A → Result UpstreamError A → A
or_default d (ok a) = a
or_default d (err e) = d

unfoldable pub allowance_errors : List TronApproval → List PartialError
allowance_errors [] = []
allowance_errors (a ∷ rest) =
    if a.allowance_verified
    then allowance_errors rest
    else record { code = allowance_unavailable; retryable = true; spender = a.spender }
      ∷ allowance_errors rest

abbrev pub failed_response : Enumeration → CheckResponse
failed_response e = record {
  status = check_failed;
  enumeration_complete = e.complete;
  truncated = e.truncated;
  risk_data_available = false;
  allowance_verification_complete = false;
  approvals = [];
  partial_errors = e.errors;
}

-- What verifyAllowances is called with.
abbrev pub facts_of : Upstream → Enumeration → SpenderFacts
facts_of u e = record {
  address_types = e.address_types;
  names = e.names;
  risky = or_default [] u.risky_spenders;
  risk_available = is_ok u.risky_spenders;
  decimals = or_default 6 u.usdt_decimals;
}

-- The response once there are candidates, or none and the enumeration is complete.
unfoldable pub verified_response : Upstream → Enumeration → CheckResponse
unfolding verify_allowances allowance_errors sort_by text_ltb partial_error
verified_response u e =
    let facts = facts_of u e in
    let verified = verify_allowances facts u.allowance (candidates_of e) in
    let allowances_complete = verified.1 && is_ok u.usdt_decimals in
    record {
      status = if e.complete && allowances_complete then check_success else check_partial;
      enumeration_complete = e.complete;
      truncated = e.truncated;
      risk_data_available = is_ok u.risky_spenders;
      allowance_verification_complete = allowances_complete;
      approvals = verified.0;
      partial_errors =
          e.errors
          ++ (risk_errors u.risky_spenders
              ++ (decimals_errors u.usdt_decimals ++ allowance_errors verified.0));
    }

-- `check` of an upstream that is enabled.
unfoldable pub check_enabled : ScanLimits → Text → Upstream → CheckResponse
unfolding enumerate verified_response sort_by text_ltb
check_enabled l owner u =
    let e = enumerate l owner u.pages in
    if length (candidates_of e) == 0 && not e.complete
    then failed_response e
    else verified_response u e

-- `check`: none where the query is not enabled.
unfoldable pub check : ScanLimits → Text → Upstream → Option CheckResponse
unfolding check_enabled
check l owner u = if u.enabled then some (check_enabled l owner u) else none
