-- ===== src/Approvals/Verify.antt =====
-- web3/internal/service/approval.go, `verifyAllowances`: the allowance of each candidate on the chain.
use grpc_go_project.Prelude.{
  ℕ, ◌-◌, ◌^◌, Bool, true, false, not, ◌&&◌, some, List, [], ◌∷◌, ltb, ◌==◌, if◌then◌else◌,
}
use grpc_go_project.Prelude.Int.{pos}
use grpc_go_project.Prelude.Text.{Text, text_eq, codes}
use grpc_go_project.Units.{decimal, format_units}
use grpc_go_project.Approvals.{
  ApprovalRecord, SpenderType, unspecified, unknown, first_non_empty, look_up,
}
use grpc_go_project.Prelude.Sort.{text_ltb, sort_by}

-- What verifying one candidate meets: a refused reservation, a failed call, or the allowance.
pub data AllowanceReply : Type 0 where
  no_call call_failed : AllowanceReply
  allowed : ℕ → AllowanceReply

pub data UnlimitedStatus : Type 0 where
  status_unknown finite unlimited_allowance conflict : UnlimitedStatus

-- `TronUSDTApproval`, without its times and its link.
pub record TronApproval : Type 0 where
  pub spender : Text
  pub spender_type : SpenderType
  pub display_name : Text
  pub decimals : ℕ
  pub unlimited_status : UnlimitedStatus
  pub risk_checked : Bool
  pub risk_labels : List Text
  pub raw_allowance : Text
  pub display_allowance : Text
  pub allowance_verified : Bool
  pub active : Bool

abbrev pub max_uint256 : ℕ
max_uint256 = 2 ^ 256 - 1

abbrev pub bool_eq : Bool → Bool → Bool
bool_eq true b = b
bool_eq false b = not b

-- What the enumeration and the risk data say of the spenders.
pub record SpenderFacts : Type 0 where
  pub address_types : List (Text × SpenderType)
  pub names : List (Text × Text)
  pub risky : List Text
  pub risk_available : Bool
  pub decimals : ℕ

unfoldable pub is_risky : Text → List Text → Bool
is_risky spender [] = false
is_risky spender (r ∷ rest) = if text_eq r spender then true else is_risky spender rest

abbrev pub known_type : SpenderType → SpenderType
known_type unspecified = unknown
known_type t = t

-- `verifyOne` before the allowance is read.
unfoldable pub unverified : SpenderFacts → ApprovalRecord → TronApproval
unfolding is_risky look_up first_non_empty
unverified f candidate =
    let spender = candidate.to_address in
    record {
      spender = spender;
      spender_type = known_type (look_up unspecified spender f.address_types);
      display_name = first_non_empty (look_up [] spender f.names ∷ codes "未识别" ∷ []);
      decimals = f.decimals;
      unlimited_status = status_unknown;
      risk_checked = f.risk_available;
      risk_labels =
          if f.risk_available && is_risky spender f.risky
          then codes "TRONSCAN_KNOWN_RISK" ∷ []
          else [];
      raw_allowance = [];
      display_allowance = [];
      allowance_verified = false;
      active = false;
    }

abbrev pub limit_status : Bool → Bool → UnlimitedStatus
limit_status is_maximum claimed =
    if not (bool_eq is_maximum claimed)
    then conflict
    else if is_maximum
    then unlimited_allowance
    else finite

-- `verifyOne`
unfoldable pub verify_one : SpenderFacts → ApprovalRecord → AllowanceReply → TronApproval
unfolding unverified decimal format_units
verify_one f candidate no_call = unverified f candidate
verify_one f candidate call_failed = unverified f candidate
verify_one f candidate (allowed n) = record (unverified f candidate) {
  raw_allowance = decimal n;
  display_allowance = format_units (some (pos n)) f.decimals;
  allowance_verified = true;
  active = ltb 0 n;
  unlimited_status = limit_status (n == max_uint256) candidate.unlimited;
}

-- Each worker takes the next index from a channel and writes the slot of that index, so each candidate
-- is verified once and its slot holds the result, in whichever order the workers run.
unfoldable pub verify_each :
    SpenderFacts → (ApprovalRecord → AllowanceReply) → List ApprovalRecord → List TronApproval
unfolding verify_one
verify_each f replies [] = []
verify_each f replies (c ∷ cs) = verify_one f c (replies c) ∷ verify_each f replies cs

unfoldable pub all_verified : List TronApproval → Bool
all_verified [] = true
all_verified (a ∷ rest) = a.allowance_verified && all_verified rest

abbrev pub has_labels : TronApproval → Bool
has_labels a = elim a.risk_labels [ [] ↦ false | r ∷ rest ↦ true ]

-- Approvals with a risk label stand first, and each group in the order of its spenders.
abbrev pub shown_before : TronApproval → TronApproval → Bool
shown_before a b =
    if bool_eq (has_labels a) (has_labels b) then text_ltb a.spender b.spender else has_labels a

-- `verifyAllowances`
unfoldable pub verify_allowances :
    SpenderFacts
    → (ApprovalRecord → AllowanceReply)
    → List ApprovalRecord
    → List TronApproval × Bool
unfolding verify_each all_verified text_ltb sort_by
verify_allowances f replies candidates =
    let approvals = verify_each f replies candidates in
    (sort_by shown_before approvals, all_verified approvals)
