-- ===== src/Approvals/Served.antt =====
-- web3/internal/service/approval.go over the budgets of web3/internal/repository/usage.go.
use grpc_go_project.Prelude.{
  ℕ, ◌+◌, ◌≤◌, ◌≡◌, refl, sym, subst, if-cases, Bool, true, false, not, Option, none, some, List,
  [], ◌∷◌, arith,
}
use grpc_go_project.Prelude.Int.{pos}
use grpc_go_project.Prelude.Result.{Result, ok, err}
use grpc_go_project.Usage.{UsageError, reserve_query, failed}
use grpc_go_project.Usage.Account.{
  Limits, query, upstream, result, Usage, one_if_ok, use_one, use_many, WithinBudget, unused,
}
use grpc_go_project.Usage.Budget.{use_one-WithinBudget, unused-WithinBudget}
use grpc_go_project.Approvals.Check.{CheckResponse}
use grpc_go_project.Approvals.Serve.{
  ServeError, invalid_address, not_enabled, CheckRequest, Flight, leads, follows, gives_up,
  upstream_calls, answer, fly, after_cache, after_reserve, approval_status_name, check_approvals,
  count_answer, serve_all,
}

-- The budgets are kept, and no more responses were sent than queries were granted.
abbrev pub Served : Limits → ℕ × Usage → Type 0
Served l (n, u) = WithinBudget l u × (n ≤ u.granted_queries)

-- One answer on top of n, where one more query was granted.
abbrev Answers : Limits → ℕ → Result ServeError CheckResponse × Usage → Type 0
Answers l n x = Served l (count_answer n x)

calls_keep :
    (l : Limits) (calls : List Bool) (u : Usage)
    → WithinBudget l u
    → WithinBudget l (use_many l (upstream_calls calls) u)
      × ((use_many l (upstream_calls calls) u).granted_queries ≡ u.granted_queries)
unfolding upstream_calls use_many use_one
calls_keep l [] u w = (w, refl)
calls_keep l (refused ∷ rest) u w =
    calls_keep l rest (use_one l (upstream refused) u)
      (use_one-WithinBudget l (upstream refused) u w)

answer-Answers :
    (l : Limits) (n : ℕ) (refused : Bool) (r : Option CheckResponse) (u : Usage)
    → WithinBudget l u
    → n + 1 ≤ u.granted_queries
    → Answers l n (answer l refused r u)
unfolding use_one
answer-Answers l n refused none u w h =
    (use_one-WithinBudget l (result refused failed false) u w, omega arith)
answer-Answers l n refused (some r) u w h =
    (use_one-WithinBudget l (result refused (approval_status_name r.status) false) u w, h)

fly-Answers :
    (l : Limits) (n : ℕ) (refused : Bool) (f : Flight) (u : Usage)
    → WithinBudget l u
    → n + 1 ≤ u.granted_queries
    → Answers l n (fly l refused f u)
fly-Answers l n refused (leads calls r) u w h =
    let (w', same) = calls_keep l calls u w in
    answer-Answers l n refused r (use_many l (upstream_calls calls) u) w'
      (subst (λ g. n + 1 ≤ g) (sym same) h)
fly-Answers l n refused (follows r) u w h = answer-Answers l n refused r u w h
fly-Answers l n refused gives_up u w h = (w, omega arith)

after_cache-Answers :
    (l : Limits) (n : ℕ) (req : CheckRequest) (c : Option CheckResponse) (u : Usage)
    → WithinBudget l u
    → n + 1 ≤ u.granted_queries
    → Answers l n (after_cache l req c u)
unfolding use_one
after_cache-Answers l n req (some r) u w h =
    (use_one-WithinBudget l (result req.record_refused (approval_status_name r.status) true) u w, h)
after_cache-Answers l n req none u w h = fly-Answers l n req.record_refused req.flight u w h

after_reserve-Answers :
    (l : Limits) (n : ℕ) (req : CheckRequest) (r : Result UsageError (Unit {0})) (u : Usage)
    → WithinBudget l u
    → n + one_if_ok r ≤ u.granted_queries
    → Answers l n (after_reserve l req r u)
after_reserve-Answers l n req (err e) u w h = (w, omega arith)
after_reserve-Answers l n req (ok _) u w h = after_cache-Answers l n req req.cached u w h

check_approvals-Answers :
    (l : Limits) (n : ℕ) (req : CheckRequest) (u : Usage)
    → Served l (n, u)
    → Answers l n (check_approvals l req u)
unfolding check_approvals use_one
check_approvals-Answers l n req u (w, h) =
    if-cases (Answers l n) (not req.address_valid) (err invalid_address, u) _ (λ _. (w, h))
      λ _.
        if-cases (Answers l n) (not req.enabled) (err not_enabled, u) _ (λ _. (w, h))
          λ _.
            after_reserve-Answers l n req
              (reserve_query req.refused req.address_hmac (pos l.queries) (pos l.addresses) u.day).0
              (use_one l (query req.refused req.address_hmac) u)
              (use_one-WithinBudget l (query req.refused req.address_hmac) u w) (omega arith)

-- Over every sequence of requests on a day, by any number of instances, whatever is cached, waits for
-- another request or is refused by the database: the service keeps the day's budgets, and it sends no
-- more responses than the limit on queries, cached ones included.
pub responses_within :
    (l : Limits) (reqs : List CheckRequest)
    → WithinBudget l (serve_all l reqs (0, unused)).1
      × ((serve_all l reqs (0, unused)).0 ≤ l.queries)
unfolding serve_all
responses_within l reqs =
    let s = from_any reqs (0, unused) (unused-WithinBudget l, omega arith) in
    (s.0, let a = s.1 in let b = s.0.queries_within in omega arith)
  where
    from_any : (rs : List CheckRequest) (s : ℕ × Usage) → Served l s → Served l (serve_all l rs s)
    from_any [] s h = h
    from_any (r ∷ rs) (n, u) h =
        from_any rs (count_answer n (check_approvals l r u)) (check_approvals-Answers l n r u h)
