-- ===== src/Approvals/Enumerate.antt =====
-- web3/internal/service/approval.go, `enumerate`: the candidates for a check, page by page.
use grpc_go_project.Prelude.{
  ℕ, zero, suc, ◌+◌, Bool, true, false, not, ◌&&◌, ◌||◌, List, [], ◌∷◌, ◌++◌, length, leb, ◌==◌,
  if◌then◌else◌,
}
use grpc_go_project.Prelude.Text.{Text, text_eq, is_empty, trim_space}
use grpc_go_project.Approvals.{
  ApprovalRecord, AddressInfo, ApprovalPage, UpstreamError, upstream_budget_exhausted,
  approval_enumeration_failed, scan_limit_reached, PartialError, partial_error, SpenderType,
  contract, address, first_non_empty, look_up,
}

-- The settings of a check: the token contract and the limits of `TronApprovalService`.
pub record ScanLimits : Type 0 where
  pub usdt_contract : Text
  pub page_size : ℕ
  pub max_pages : ℕ
  pub max_spenders : ℕ

-- What a round of the loop meets: a refused reservation or the answer of ListApprovals.
pub data PageReply : Type 0 where
  no_budget : UpstreamError → PageReply
  list_failed : UpstreamError → PageReply
  listed : ApprovalPage → PageReply

-- The variables of the loop. `by_spender` has the newest spender first.
pub record Enumeration : Type 0 where
  pub by_spender : List (Text × ApprovalRecord)
  pub address_types : List (Text × SpenderType)
  pub names : List (Text × Text)
  pub truncated : Bool
  pub complete : Bool
  pub start : ℕ
  pub errors : List PartialError

unfoldable pub has_spender : Text → List (Text × ApprovalRecord) → Bool
has_spender spender [] = false
has_spender spender ((s, a) ∷ rest) = if text_eq s spender then true else has_spender spender rest

-- An approval that counts: of the token, by the owner, for a spender that is neither blank nor the
-- token contract itself.
abbrev pub counts_for : ScanLimits → Text → ApprovalRecord → Bool
counts_for l owner a =
    text_eq a.contract_address l.usdt_contract
    && text_eq a.from_address owner
    && not (is_empty (trim_space a.to_address))
    && not (text_eq (trim_space a.to_address) l.usdt_contract)

-- `if names[spender] == "" { names[spender] = … }`
abbrev pub name_if_missing : Text → Text → List (Text × Text) → List (Text × Text)
name_if_missing spender project names =
    if is_empty (look_up [] spender names) then (spender, project) ∷ names else names

-- One round of the loop over the approvals of a page.
unfoldable pub take_approval : ScanLimits → Text → Enumeration → ApprovalRecord → Enumeration
unfolding has_spender look_up
take_approval l owner e a =
    let spender = trim_space a.to_address in
    if not (counts_for l owner a)
    then e
    else if has_spender spender e.by_spender
    then e
    else if leb l.max_spenders (length e.by_spender)
    then record e { truncated = true }
    else record e {
      by_spender = (spender, a) ∷ e.by_spender;
      names = name_if_missing spender a.project_name e.names;
    }

unfoldable pub take_approvals : ScanLimits → Text → Enumeration → List ApprovalRecord → Enumeration
unfolding take_approval
take_approvals l owner e [] = e
take_approvals l owner e (a ∷ rest) = take_approvals l owner (take_approval l owner e a) rest

unfoldable pub types_of : List (Text × Bool) → List (Text × SpenderType) → List (Text × SpenderType)
types_of [] types = types
types_of ((key, is_contract) ∷ rest) types =
    types_of rest ((key, if is_contract then contract else address) ∷ types)

unfoldable pub contract_names : List (Text × AddressInfo) → List (Text × Text) → List (Text × Text)
unfolding first_non_empty
contract_names [] names = names
contract_names ((key, i) ∷ rest) names =
    contract_names rest ((key, first_non_empty (i.tag1 ∷ i.public_tag ∷ i.name ∷ [])) ∷ names)

unfoldable pub address_names : List (Text × AddressInfo) → List (Text × Text) → List (Text × Text)
unfolding first_non_empty
address_names [] names = names
address_names ((key, i) ∷ rest) names =
    address_names rest ((key, first_non_empty (i.public_tag ∷ i.tag1 ∷ i.name ∷ [])) ∷ names)

-- The body of the loop for a page, up to the test that ends it.
unfoldable pub take_page : ScanLimits → Text → ApprovalPage → Enumeration → Enumeration
unfolding take_approvals types_of contract_names address_names
take_page l owner page e =
    let labelled = record e {
      address_types = types_of page.contract_map e.address_types;
      names = address_names page.normal_address_info (contract_names page.contract_info e.names);
    } in
    let taken = take_approvals l owner labelled page.entries in
    record taken { start = taken.start + length page.entries }

-- A failed round ends the loop.
abbrev pub stop_with : PartialError → Enumeration → Enumeration
stop_with x e = record e { errors = e.errors ++ x ∷ [] }

-- The loop, with the number of rounds left; `replies` gives the answer for a start and is asked once
-- for each.
unfoldable pub enumerate_pages : ScanLimits → Text → (ℕ → PageReply) → ℕ → Enumeration → Enumeration
unfolding take_page partial_error
enumerate_pages l owner replies zero e = e
enumerate_pages l owner replies (suc left) e = elim (replies e.start) [
  | no_budget x ↦ stop_with (partial_error x upstream_budget_exhausted []) e
  | list_failed x ↦ stop_with (partial_error x approval_enumeration_failed []) e
  | listed page ↦
      let taken = take_page l owner page e in
      let marked = record taken { truncated = if left == 0 then true else taken.truncated } in
      if length page.entries == 0 || leb page.total taken.start
      then record taken { complete = not taken.truncated }
      else enumerate_pages l owner replies left marked
]

abbrev pub empty_enumeration : Enumeration
empty_enumeration = record {
  by_spender = [];
  address_types = [];
  names = [];
  truncated = false;
  complete = false;
  start = 0;
  errors = [];
}

-- What follows the loop.
abbrev pub finish : Enumeration → Enumeration
finish e =
    if e.truncated
    then record e {
      errors =
          e.errors ++ record { code = scan_limit_reached; retryable = false; spender = [] } ∷ [];
      complete = false;
    }
    else e

-- `enumerate`, before the candidates are sorted.
unfoldable pub enumerate : ScanLimits → Text → (ℕ → PageReply) → Enumeration
unfolding enumerate_pages
enumerate l owner replies = finish (enumerate_pages l owner replies l.max_pages empty_enumeration)
