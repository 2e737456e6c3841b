-- ===== src/Usage/Account.antt =====
-- The calls of web3/internal/repository/usage.go on one day, and what is counted of them.
use grpc_go_project.Prelude.{ℕ, ◌+◌, ◌≡◌, Bool, true, not, ◌&&◌, none, List, [], ◌∷◌, length, ◌≤◌}
use grpc_go_project.Prelude.Int.{pos}
use grpc_go_project.Prelude.Result.{Result, ok, err}
use grpc_go_project.Usage.{
  UsageDay, UsageError, Refused, created, has_address, reserve_query, reserve_upstream_call,
  QueryStatus, record_result,
}

-- The limits of a day.
pub record Limits : Type 0 where
  pub queries : ℕ
  pub addresses : ℕ
  pub upstream_calls : ℕ

-- A call by any instance of the service, with what the database refuses in it.
pub data UsageCall : Type 0 where
  query : Refused → ℕ → UsageCall
  upstream : Bool → UsageCall
  result : Bool → QueryStatus → Bool → UsageCall

-- The calls that were granted, and the day that they leave.
pub record Usage : Type 0 where
  pub granted_queries : ℕ
  pub granted_calls : ℕ
  pub day : UsageDay

abbrev pub one_if_ok : Result UsageError (Unit {0}) → ℕ
one_if_ok (ok _) = 1
one_if_ok (err _) = 0

unfoldable pub use_one : Limits → UsageCall → Usage → Usage
unfolding reserve_query reserve_upstream_call record_result
use_one l (query refused hmac) u =
    let (r, d) = reserve_query refused hmac (pos l.queries) (pos l.addresses) u.day in
    record {
      granted_queries = u.granted_queries + one_if_ok r;
      granted_calls = u.granted_calls;
      day = d;
    }
use_one l (upstream refused) u =
    let (r, d) = reserve_upstream_call refused (pos l.upstream_calls) u.day in
    record {
      granted_queries = u.granted_queries;
      granted_calls = u.granted_calls + one_if_ok r;
      day = d;
    }
use_one l (result refused status cached) u = record u {
  day = (record_result refused status cached u.day).1;
}

unfoldable pub use_many : Limits → List UsageCall → Usage → Usage
unfolding use_one
use_many l [] u = u
use_many l (c ∷ cs) u = use_many l cs (use_one l c u)

-- No address stands twice.
unfoldable pub distinct : List ℕ → Bool
unfolding has_address
distinct [] = true
distinct (a ∷ rest) = not (has_address a rest) && distinct rest

-- The counters count what was granted and what is stored, and no budget is exceeded.
pub record WithinBudget (l : Limits) (u : Usage) : Type 0 where
  pub counted_queries : (created u.day.counters).query_count ≡ u.granted_queries
  pub counted_calls : (created u.day.counters).upstream_call_count ≡ u.granted_calls
  pub counted_addresses : (created u.day.counters).distinct_address_count ≡ length u.day.addresses
  pub no_repeat : distinct u.day.addresses ≡ true
  pub queries_within : u.granted_queries ≤ l.queries
  pub calls_within : u.granted_calls ≤ l.upstream_calls
  pub addresses_within : length u.day.addresses ≤ l.addresses

abbrev pub unused : Usage
unused = record {
  granted_queries = 0;
  granted_calls = 0;
  day = record { counters = none; addresses = [] };
}
