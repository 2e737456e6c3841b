-- ===== src/Approvals.antt =====
-- web3/internal/service/approval.go: the check of a TRON address for USDT approvals. `Enumerate` reads
-- the list of approvals page by page, `Verify` reads the allowances, `Check` puts the response together.
use grpc_go_project.Prelude.{ℕ, Bool, true, false, Option, none, some, List, [], ◌∷◌, if◌then◌else◌}
use grpc_go_project.Prelude.Text.{Text, text_eq, codes, is_empty, trim_space}
use grpc_go_project.Prelude.Result.{Result, ok, err}
pub mod Enumerate
pub mod Complete
pub mod Whole
pub mod Verify
pub mod Check
pub mod Covers
pub mod Reasons
pub mod Explain
pub mod Serve
pub mod Served

-- `tron.ApprovalRecord`, as far as the service reads it.
pub record ApprovalRecord : Type 0 where
  pub unlimited : Bool
  pub from_address : Text
  pub to_address : Text
  pub contract_address : Text
  pub project_name : Text

-- `tron.AddressInfo`
pub record AddressInfo : Type 0 where
  pub tag1 : Text
  pub name : Text
  pub public_tag : Text

-- `tron.ApprovalPage`; its maps as lists of entries, in the order in which they are visited, and a
-- negative total, which ends the loop like any total that is reached, as 0.
pub record ApprovalPage : Type 0 where
  pub total : ℕ
  pub entries : List ApprovalRecord
  pub contract_map : List (Text × Bool)
  pub contract_info : List (Text × AddressInfo)
  pub normal_address_info : List (Text × AddressInfo)

-- An error of the provider or the usage budget: cancelled, out of time, or another one.
pub data UpstreamError : Type 0 where
  canceled deadline_exceeded other_error : UpstreamError

pub data PartialCode : Type 0 where
  upstream_timeout upstream_budget_exhausted approval_enumeration_failed scan_limit_reached :
      PartialCode
  risk_data_unavailable token_decimals_unavailable allowance_unavailable : PartialCode

-- `TronApprovalPartialError`, without its message.
pub record PartialError : Type 0 where
  pub code : PartialCode
  pub retryable : Bool
  pub spender : Text

-- `partialError`
unfoldable pub partial_error : UpstreamError → PartialCode → Text → PartialError
partial_error canceled code spender = record { code = code; retryable = false; spender = spender }
partial_error deadline_exceeded code spender = record {
  code = upstream_timeout;
  retryable = true;
  spender = spender;
}
partial_error other_error code spender = record { code = code; retryable = true; spender = spender }

pub data SpenderType : Type 0 where
  unspecified contract address unknown : SpenderType

-- `firstNonEmpty`
unfoldable pub first_non_empty : List Text → Text
first_non_empty [] = []
first_non_empty (v ∷ vs) =
    let rest = first_non_empty vs in if is_empty (trim_space v) then rest else trim_space v

-- A map: the newest entry of a key stands first. A missing key reads as the default.
unfoldable pub look_up : {A : Type 0} → A → Text → List (Text × A) → A
look_up d key [] = d
look_up d key ((k, a) ∷ rest) = if text_eq k key then a else look_up d key rest
