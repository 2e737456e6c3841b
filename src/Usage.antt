-- ===== src/Usage.antt =====
-- web3/internal/repository/usage.go: the budgets of TRON queries for one UTC day. `Budget` has what
-- the budgets promise.
use grpc_go_project.Prelude.{
  ℕ, ◌+◌, Bool, true, false, not, ◌&&◌, Option, none, some, List, [], ◌∷◌, ◌==◌, if◌then◌else◌,
}
use grpc_go_project.Prelude.Int.{ℤ, pos, leb_ℤ, ltb_ℤ}
use grpc_go_project.Prelude.Result.{Result, ok, err}
pub mod Account
pub mod Reserve
pub mod Budget

-- `model.TronUsageDaily`, without its times.
pub record TronUsageDaily : Type 0 where
  pub query_count : ℕ
  pub distinct_address_count : ℕ
  pub upstream_call_count : ℕ
  pub cache_hit_count : ℕ
  pub success_count : ℕ
  pub partial_count : ℕ
  pub failed_count : ℕ

-- The rows of one day: the counters, once they were created, and the HMACs of the addresses. No
-- statement on one day reads or writes the rows of another.
pub record UsageDay : Type 0 where
  pub counters : Option TronUsageDaily
  pub addresses : List ℕ

pub data UsageError : Type 0 where
  daily_query_limit daily_address_limit daily_upstream_limit usage_failed : UsageError

abbrev pub no_usage : TronUsageDaily
no_usage = record {
  query_count = 0;
  distinct_address_count = 0;
  upstream_call_count = 0;
  cache_hit_count = 0;
  success_count = 0;
  partial_count = 0;
  failed_count = 0;
}

-- Which statements of a transaction the database refuses.
pub record Refused : Type 0 where
  pub creates : Bool
  pub locks : Bool
  pub finds : Bool
  pub inserts : Bool
  pub updates : Bool

-- `Clauses(clause.OnConflict{DoNothing: true}).Create`.
abbrev pub created : Option TronUsageDaily → TronUsageDaily
created none = no_usage
created (some d) = d

unfoldable pub has_address : ℕ → List ℕ → Bool
has_address a [] = false
has_address a (b ∷ bs) = if b == a then true else has_address a bs

-- The counters and addresses that a granted query leaves.
abbrev pub count_query : Bool → ℕ → TronUsageDaily → List ℕ → UsageDay
count_query true hmac d addresses = record {
  counters = some (record d {
    query_count = d.query_count + 1;
    distinct_address_count = d.distinct_address_count + 1;
  });
  addresses = hmac ∷ addresses;
}
count_query false hmac d addresses = record {
  counters = some (record d { query_count = d.query_count + 1 });
  addresses = addresses;
}

-- `ReserveQuery`: an error rolls the transaction back.
unfoldable pub reserve_query :
    Refused → ℕ → ℤ → ℤ → UsageDay → Result UsageError (Unit {0}) × UsageDay
unfolding has_address
reserve_query refused hmac query_limit address_limit u =
    let d = created u.counters in
    let is_new = not (has_address hmac u.addresses) in
    if refused.creates
    then (err usage_failed, u)
    else if refused.locks
    then (err usage_failed, u)
    else if leb_ℤ query_limit (pos d.query_count)
    then (err daily_query_limit, u)
    else if refused.finds
    then (err usage_failed, u)
    else if is_new && leb_ℤ address_limit (pos d.distinct_address_count)
    then (err daily_address_limit, u)
    else if is_new && refused.inserts
    then (err usage_failed, u)
    else if refused.updates
    then (err usage_failed, u)
    else (ok tt, count_query is_new hmac d u.addresses)

-- The rows with an upstream count below the limit: the row of the day or none.
abbrev pub count_upstream :
    ℤ → Option TronUsageDaily → List ℕ → Result UsageError (Unit {0}) × UsageDay
count_upstream limit none addresses =
    (err daily_upstream_limit, record { counters = none; addresses = addresses })
count_upstream limit (some d) addresses =
    if ltb_ℤ (pos d.upstream_call_count) limit
    then (
      ok tt,
      record {
        counters = some (record d { upstream_call_count = d.upstream_call_count + 1 });
        addresses = addresses;
      },
    )
    else (err daily_upstream_limit, record { counters = some d; addresses = addresses })

-- `ReserveUpstreamCall`
unfoldable pub reserve_upstream_call : Bool → ℤ → UsageDay → Result UsageError (Unit {0}) × UsageDay
reserve_upstream_call refused limit u =
    if refused then (err usage_failed, u) else count_upstream limit u.counters u.addresses

-- The statuses that `RecordResult` counts, and any other one.
pub data QueryStatus : Type 0 where
  success partial failed other : QueryStatus

abbrev pub count_status : QueryStatus → TronUsageDaily → TronUsageDaily
count_status success d = record d { success_count = d.success_count + 1 }
count_status partial d = record d { partial_count = d.partial_count + 1 }
count_status failed d = record d { failed_count = d.failed_count + 1 }
count_status other d = d

abbrev pub count_hit : Bool → TronUsageDaily → TronUsageDaily
count_hit true d = record d { cache_hit_count = d.cache_hit_count + 1 }
count_hit false d = d

-- `RecordResult`: without a row nothing is counted, and that is no error.
unfoldable pub record_result :
    Bool → QueryStatus → Bool → UsageDay → Result UsageError (Unit {0}) × UsageDay
record_result refused status cached u = elim u.counters [
  | none ↦ if refused then (err usage_failed, u) else (ok tt, u)
  | some d ↦
      if refused
      then (err usage_failed, u)
      else (ok tt, record u { counters = some (count_status status (count_hit cached d)) })
]
