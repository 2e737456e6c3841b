-- ===== src/Examples/Approvals.antt =====
-- The theorems on a check for approvals, at an owner with two of them, and on a day of requests.
use grpc_go_project.Prelude.{
  ℕ, ◌≡◌, ◌≤◌, ◌⊎◌, refl, true, false, none, List, [], ◌∷◌, take, drop, All, arith,
}
use grpc_go_project.Prelude.Text.{codes, is_space, trim_left, trim_space, text_eq}
use grpc_go_project.Prelude.Result.{ok}
use grpc_go_project.Approvals.{ApprovalRecord, look_up, other_error}
use grpc_go_project.Approvals.Enumerate.{
  ScanLimits, PageReply, listed, list_failed, has_spender, take_approval, take_approvals, types_of,
  contract_names, address_names, take_page, enumerate_pages, enumerate,
}
use grpc_go_project.Approvals.Complete.{Serves, Found}
use grpc_go_project.Approvals.Whole.{enumerate_misses_none}
use grpc_go_project.Prelude.Sort.{text_ltb, insert_by, sort_by}
use grpc_go_project.Approvals.Verify.{
  allowed, verify_one, verify_each, all_verified, verify_allowances,
}
use grpc_go_project.Approvals.Check.{check_success, Upstream, verified_response, check_enabled}
use grpc_go_project.Approvals.Covers.{AllReported, ReadFrom, check_success_covers}
use grpc_go_project.Approvals.Reasons.{Reason}
use grpc_go_project.Approvals.Explain.{check_explained}
use grpc_go_project.Approvals.Serve.{CheckRequest, leads, gives_up, serve_all}
use grpc_go_project.Approvals.Served.{responses_within}
use grpc_go_project.Usage.Account.{Limits, WithinBudget, unused}

abbrev approval_for : ℕ → ApprovalRecord
approval_for n = record {
  unlimited = false;
  from_address = codes "T1";
  to_address = n ∷ [];
  contract_address = codes "TR";
  project_name = codes "swap";
}

abbrev two_approvals : List ApprovalRecord
two_approvals = approval_for 100 ∷ approval_for 101 ∷ []

abbrev one_by_one : ScanLimits
one_by_one = record { usdt_contract = codes "TR"; page_size = 1; max_pages = 3; max_spenders = 5 }

abbrev served : ℕ → PageReply
served start = listed (record {
  total = 2;
  entries = take 1 (drop start two_approvals);
  contract_map = [];
  contract_info = [];
  normal_address_info = [];
})

served-Serves : Serves two_approvals 1 served
served-Serves start page h = (
  let e : record {
    total = 2;
    entries = take 1 (drop start two_approvals);
    contract_map = [];
    contract_info = [];
    normal_address_info = [];
  }
          ≡ page =
        cc in
      cc,
  cc,
)

abbrev answering : Upstream
answering = record {
  enabled = true;
  pages = served;
  risky_spenders = ok [];
  usdt_decimals = ok 6;
  allowance = λ _. allowed 7;
}

enumerate_misses_none_example :
    All (Found one_by_one (codes "T1") (enumerate one_by_one (codes "T1") served)) two_approvals
unfolding enumerate enumerate_pages take_page take_approvals take_approval has_spender trim_space
    trim_left is_space look_up types_of contract_names address_names text_eq
enumerate_misses_none_example =
    enumerate_misses_none one_by_one (codes "T1") two_approvals served (omega arith) served-Serves
      refl

check_success_covers_example :
    AllReported one_by_one
      (codes "T1")
      two_approvals
      (check_enabled one_by_one (codes "T1") answering)
    × All (ReadFrom answering.allowance) (check_enabled one_by_one (codes "T1") answering).approvals
unfolding check_enabled verified_response verify_allowances enumerate enumerate_pages take_page
    take_approvals take_approval has_spender trim_space trim_left is_space look_up types_of
    contract_names address_names text_eq sort_by insert_by text_ltb verify_each all_verified
    verify_one
check_success_covers_example =
    check_success_covers one_by_one (codes "T1") two_approvals answering (omega arith) served-Serves
      refl

check_explained_example :
    ((check_enabled one_by_one
        (codes "T1")
        (record answering { pages = λ _. list_failed other_error })).status
      ≡ check_success)
    ⊎ Reason
        (record answering { pages = λ _. list_failed other_error })
        (check_enabled one_by_one
          (codes "T1")
          (record answering { pages = λ _. list_failed other_error }))
check_explained_example =
    check_explained one_by_one (codes "T1")
      (record answering { pages = λ _. list_failed other_error }) (omega arith)

abbrev request : CheckRequest
request = record {
  address_valid = true;
  address_hmac = 8;
  enabled = true;
  refused = record {
    creates = false;
    locks = false;
    finds = false;
    inserts = false;
    updates = false;
  };
  cached = none;
  flight = leads (false ∷ []) none;
  record_refused = false;
}

abbrev daily_limits : Limits
daily_limits = record { queries = 1; addresses = 1; upstream_calls = 4 }

responses_within_example :
    WithinBudget daily_limits
      (serve_all daily_limits (request ∷ record request { flight = gives_up } ∷ []) (0, unused)).1
    × ((serve_all daily_limits (request ∷ record request { flight = gives_up } ∷ []) (0, unused)).0
        ≤ 1)
responses_within_example =
    responses_within daily_limits (request ∷ record request { flight = gives_up } ∷ [])
