-- ===== src/Usage/Budget.antt =====
-- The budgets of web3/internal/repository/usage.go over every sequence of calls.
use grpc_go_project.Prelude.{
  ◌≡◌, refl, ◌∙◌, Bool, true, false, Option, none, some, List, [], ◌∷◌, arith, if-cases,
}
use grpc_go_project.Prelude.Result.{Result}
use grpc_go_project.Usage.{
  TronUsageDaily, UsageDay, UsageError, QueryStatus, success, partial, failed, other, count_status,
  count_hit, record_result,
}
use grpc_go_project.Usage.Account.{
  Limits, UsageCall, query, upstream, result, Usage, use_one, use_many, distinct, WithinBudget,
  unused,
}
use grpc_go_project.Usage.Reserve.{reserve_query-WithinBudget, reserve_upstream_call-WithinBudget}

abbrev SameBudget : TronUsageDaily → TronUsageDaily → Type 0
SameBudget d d' =
    (d'.query_count ≡ d.query_count)
    × (d'.upstream_call_count ≡ d.upstream_call_count)
    × (d'.distinct_address_count ≡ d.distinct_address_count)

count_status-SameBudget :
    (status : QueryStatus) (d : TronUsageDaily) → SameBudget d (count_status status d)
count_status-SameBudget success d = (refl, refl, refl)
count_status-SameBudget partial d = (refl, refl, refl)
count_status-SameBudget failed d = (refl, refl, refl)
count_status-SameBudget other d = (refl, refl, refl)

count_hit-SameBudget : (cached : Bool) (d : TronUsageDaily) → SameBudget d (count_hit cached d)
count_hit-SameBudget true d = (refl, refl, refl)
count_hit-SameBudget false d = (refl, refl, refl)

abbrev with_counters : Usage → Option TronUsageDaily → Usage
with_counters u counters = record u {
  day = record { counters = counters; addresses = u.day.addresses };
}

SameBudget-WithinBudget :
    (l : Limits) (u : Usage) (d d' : TronUsageDaily)
    → SameBudget d d'
    → WithinBudget l (with_counters u (some d))
    → WithinBudget l (with_counters u (some d'))
SameBudget-WithinBudget l u d d' (q, c, a) w = record {
  counted_queries = q ∙ w.counted_queries;
  counted_calls = c ∙ w.counted_calls;
  counted_addresses = a ∙ w.counted_addresses;
  no_repeat = w.no_repeat;
  queries_within = w.queries_within;
  calls_within = w.calls_within;
  addresses_within = w.addresses_within;
}

-- The counters that a recorded result changes are not those of the budgets.
record_result-WithinBudget :
    (l : Limits) (refused : Bool) (status : QueryStatus) (cached : Bool) (u : Usage)
    (counters : Option TronUsageDaily)
    → WithinBudget l (with_counters u counters)
    → WithinBudget l
        (record u { day = (record_result refused status cached (with_counters u counters).day).1 })
unfolding record_result
record_result-WithinBudget l refused status cached u none w =
    if-cases
      (λ (x : Result UsageError (Unit {0}) × UsageDay). WithinBudget l (record u { day = x.1 }))
      refused _ _ (λ _. w) (λ _. w)
record_result-WithinBudget l refused status cached u (some d) w =
    if-cases
      (λ (x : Result UsageError (Unit {0}) × UsageDay). WithinBudget l (record u { day = x.1 }))
      refused _ _ (λ _. w)
      λ _.
        SameBudget-WithinBudget l u (count_hit cached d) (count_status status (count_hit cached d))
          (count_status-SameBudget status (count_hit cached d))
          (SameBudget-WithinBudget l u d (count_hit cached d) (count_hit-SameBudget cached d) w)

pub use_one-WithinBudget :
    (l : Limits) (c : UsageCall) (u : Usage) → WithinBudget l u → WithinBudget l (use_one l c u)
unfolding use_one
use_one-WithinBudget l (query refused hmac) u w = reserve_query-WithinBudget l refused hmac u w
use_one-WithinBudget l (upstream refused) u w = reserve_upstream_call-WithinBudget l refused u w
use_one-WithinBudget l (result refused status cached) u w =
    record_result-WithinBudget l refused status cached u u.day.counters w

pub unused-WithinBudget : (l : Limits) → WithinBudget l unused
unfolding distinct
unused-WithinBudget l = record {
  counted_queries = refl;
  counted_calls = refl;
  counted_addresses = refl;
  no_repeat = refl;
  queries_within = omega arith;
  calls_within = omega arith;
  addresses_within = omega arith;
}

-- Over every sequence of calls from an unused day, by any number of instances and whatever the
-- database refuses, under limits that stay the same: the stored counts are the numbers of granted
-- queries and upstream calls and of stored addresses, no address is stored twice, and none of the
-- three exceeds its limit.
pub use_many-WithinBudget :
    (l : Limits) (calls : List UsageCall) → WithinBudget l (use_many l calls unused)
unfolding use_many
use_many-WithinBudget l calls = from_any calls unused (unused-WithinBudget l)
  where
    from_any :
        (cs : List UsageCall) (u : Usage) → WithinBudget l u → WithinBudget l (use_many l cs u)
    from_any [] u w = w
    from_any (c ∷ cs) u w = from_any cs (use_one l c u) (use_one-WithinBudget l c u w)
