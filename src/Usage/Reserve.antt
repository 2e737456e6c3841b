-- ===== src/Usage/Reserve.antt =====
-- Granted and refused reservations of web3/internal/repository/usage.go keep the budgets.
use grpc_go_project.Prelude.{
  ℕ, ◌+◌, ◌≡◌, refl, Bool, true, false, not, ◌&&◌, Option, none, some, List, arith, if-cases,
}
use grpc_go_project.Prelude.Int.{pos, leb_ℤ, ltb_ℤ}
use grpc_go_project.Prelude.Result.{Result, ok, err}
use grpc_go_project.Usage.{
  TronUsageDaily, UsageDay, UsageError, daily_query_limit, daily_address_limit,
  daily_upstream_limit, usage_failed, Refused, created, has_address, count_query, reserve_query,
  count_upstream, reserve_upstream_call,
}
use grpc_go_project.Usage.Account.{Limits, Usage, one_if_ok, distinct, WithinBudget}

-- What a call of `ReserveQuery` leaves, counted.
abbrev pub after_query : ℕ → ℕ → Result UsageError (Unit {0}) × UsageDay → Usage
after_query gq gc (r, d) = record {
  granted_queries = gq + one_if_ok r;
  granted_calls = gc;
  day = d;
}

abbrev pub after_call : ℕ → ℕ → Result UsageError (Unit {0}) × UsageDay → Usage
after_call gq gc (r, d) = record { granted_queries = gq; granted_calls = gc + one_if_ok r; day = d }

query_refused :
    (l : Limits) (u : Usage) (e : UsageError)
    → WithinBudget l u
    → WithinBudget l (after_query u.granted_queries u.granted_calls (err e, u.day))
query_refused l u e w = record {
  counted_queries = let a = w.counted_queries in omega arith;
  counted_calls = w.counted_calls;
  counted_addresses = w.counted_addresses;
  no_repeat = w.no_repeat;
  queries_within = let a = w.queries_within in omega arith;
  calls_within = w.calls_within;
  addresses_within = w.addresses_within;
}

query_granted :
    (l : Limits) (u : Usage) (hmac : ℕ) (is_new : Bool)
    → WithinBudget l u
    → is_new ≡ not (has_address hmac u.day.addresses)
    → leb_ℤ (pos l.queries) (pos (created u.day.counters).query_count) ≡ false
    → (is_new && leb_ℤ (pos l.addresses) (pos (created u.day.counters).distinct_address_count))
      ≡ false
    → WithinBudget l (
        after_query u.granted_queries u.granted_calls
          (ok tt, count_query is_new hmac (created u.day.counters) u.day.addresses))
unfolding distinct
query_granted l u hmac true w new q a = record {
  counted_queries = let x = w.counted_queries in omega arith;
  counted_calls = w.counted_calls;
  counted_addresses = let x = w.counted_addresses in omega arith;
  no_repeat = ground arith;
  queries_within = let x = w.counted_queries in ground arith;
  calls_within = w.calls_within;
  addresses_within = let x = w.counted_addresses in ground arith;
}
query_granted l u hmac false w old q a = record {
  counted_queries = let x = w.counted_queries in omega arith;
  counted_calls = w.counted_calls;
  counted_addresses = w.counted_addresses;
  no_repeat = w.no_repeat;
  queries_within = let x = w.counted_queries in ground arith;
  calls_within = w.calls_within;
  addresses_within = w.addresses_within;
}

pub reserve_query-WithinBudget :
    (l : Limits) (refused : Refused) (hmac : ℕ) (u : Usage)
    → WithinBudget l u
    → WithinBudget l (
        after_query u.granted_queries u.granted_calls
          (reserve_query refused hmac (pos l.queries) (pos l.addresses) u.day))
unfolding reserve_query
reserve_query-WithinBudget l refused hmac u w =
    let P = λ (x : Result UsageError (Unit {0}) × UsageDay).
      WithinBudget l (after_query u.granted_queries u.granted_calls x) in
    let no = λ (e : UsageError). query_refused l u e w in
    let is_new = not (has_address hmac u.day.addresses) in
    if-cases P refused.creates _ _ (λ _. no usage_failed)
      λ _.
        if-cases P refused.locks _ _ (λ _. no usage_failed)
          λ _.
            if-cases P (leb_ℤ (pos l.queries) (pos (created u.day.counters).query_count)) _ _
              (λ _. no daily_query_limit)
              λ q.
                if-cases P refused.finds _ _ (λ _. no usage_failed)
                  λ _.
                    if-cases P
                      (is_new
                        && leb_ℤ (pos l.addresses)
                            (pos (created u.day.counters).distinct_address_count))
                      _ _ (λ _. no daily_address_limit)
                      λ a.
                        if-cases P (is_new && refused.inserts) _ _ (λ _. no usage_failed)
                          λ _.
                            if-cases P refused.updates _ _ (λ _. no usage_failed)
                              λ _. query_granted l u hmac is_new w refl q a

call_refused :
    (l : Limits) (u : Usage) (e : UsageError)
    → WithinBudget l u
    → WithinBudget l (after_call u.granted_queries u.granted_calls (err e, u.day))
call_refused l u e w = record {
  counted_queries = w.counted_queries;
  counted_calls = let a = w.counted_calls in omega arith;
  counted_addresses = w.counted_addresses;
  no_repeat = w.no_repeat;
  queries_within = w.queries_within;
  calls_within = let a = w.calls_within in omega arith;
  addresses_within = w.addresses_within;
}

call_granted :
    (l : Limits) (gq gc : ℕ) (d : TronUsageDaily) (addresses : List ℕ)
    → WithinBudget l (record {
      granted_queries = gq;
      granted_calls = gc;
      day = record { counters = some d; addresses = addresses };
    })
    → ltb_ℤ (pos d.upstream_call_count) (pos l.upstream_calls) ≡ true
    → WithinBudget l (
        after_call gq gc (
          ok tt,
          record {
            counters = some (record d { upstream_call_count = d.upstream_call_count + 1 });
            addresses = addresses;
          },
        ))
call_granted l gq gc d addresses w room = record {
  counted_queries = w.counted_queries;
  counted_calls = let a = w.counted_calls in omega arith;
  counted_addresses = w.counted_addresses;
  no_repeat = w.no_repeat;
  queries_within = w.queries_within;
  calls_within = let a = w.counted_calls in ground arith;
  addresses_within = w.addresses_within;
}

count_upstream-WithinBudget :
    (l : Limits) (gq gc : ℕ) (counters : Option TronUsageDaily) (addresses : List ℕ)
    → WithinBudget l (record {
      granted_queries = gq;
      granted_calls = gc;
      day = record { counters = counters; addresses = addresses };
    })
    → WithinBudget l (after_call gq gc (count_upstream (pos l.upstream_calls) counters addresses))
count_upstream-WithinBudget l gq gc none addresses w =
    call_refused l
      (record {
        granted_queries = gq;
        granted_calls = gc;
        day = record { counters = none; addresses = addresses };
      })
      daily_upstream_limit w
count_upstream-WithinBudget l gq gc (some d) addresses w =
    if-cases (λ x. WithinBudget l (after_call gq gc x))
      (ltb_ℤ (pos d.upstream_call_count) (pos l.upstream_calls)) _ _
      (λ room. call_granted l gq gc d addresses w room)
      (λ _.
        call_refused l
          (record {
            granted_queries = gq;
            granted_calls = gc;
            day = record { counters = some d; addresses = addresses };
          })
          daily_upstream_limit w)

pub reserve_upstream_call-WithinBudget :
    (l : Limits) (refused : Bool) (u : Usage)
    → WithinBudget l u
    → WithinBudget l (
        after_call u.granted_queries u.granted_calls
          (reserve_upstream_call refused (pos l.upstream_calls) u.day))
unfolding reserve_upstream_call
reserve_upstream_call-WithinBudget l refused u w =
    if-cases (λ x. WithinBudget l (after_call u.granted_queries u.granted_calls x)) refused _ _
      (λ _. call_refused l u usage_failed w)
      (λ _.
        count_upstream-WithinBudget l u.granted_queries u.granted_calls u.day.counters
          u.day.addresses w)
