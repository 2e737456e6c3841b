-- ===== src/RateLimit/Middleware.antt =====
-- gateway/internal/middleware/rate_limit.go: what the gateway does with the limiter's answer. The
-- derivation of the key from the request (SHA-256 of identity and route) is an input.
use grpc_go_project.Prelude.{
  ℕ, ◌+◌, ◌-◌, ◌*◌, ◌/◌, ◌≤◌, ◌<◌, ◌≡◌, refl, ◌↔◌, Bool, true, false, Option, none, some, ltb, leb,
  ◌%◌, ◌^◌, ap, ◌∙◌, if-cases, arith, if◌then◌else◌,
}
use grpc_go_project.Prelude.Int.{ℤ, pos, negsuc, to_int64}
use grpc_go_project.Prelude.Result.{Result, ok, err}
use grpc_go_project.RateLimit.{LimitError, LimitResult}

-- `runtimeconfig.RateLimitRule`, as far as the handler reads it.
pub record RateLimitRule : Type 0 where
  pub enabled : Bool
  pub fail_closed : Bool

-- How the handler ends: by `c.Next`, or by `Fail` with an error.
pub data Verdict : Type 0 where
  next config_unavailable limiter_unavailable too_many_requests : Verdict

-- The verdict and the headers that the handler sets.
pub record Reply : Type 0 where
  pub verdict : Verdict
  pub limit_header : Option ℕ
  pub remaining_header : Option ℕ
  pub retry_after_header : Option ℕ
  pub status_unavailable : Bool

abbrev bare : Verdict → Reply
bare v = record {
  verdict = v;
  limit_header = none;
  remaining_header = none;
  retry_after_header = none;
  status_unavailable = false;
}

-- Seconds are at least one.
abbrev at_least_one : ℕ → ℕ
at_least_one seconds = if ltb seconds 1 then 1 else seconds

-- A sum of nanoseconds, an int64, in whole seconds; a negative one is below a second.
abbrev whole_seconds : ℤ → ℕ
whole_seconds (pos n) = at_least_one (n / 1000000000)
whole_seconds (negsuc n) = 1

-- `retryAfterSecods`, of a duration in nanoseconds that is not negative; the sum wraps around on 64 bits.
unfoldable pub retry_after_seconds : ℕ → ℕ
retry_after_seconds duration =
    if leb duration 0 then 1 else whole_seconds (to_int64 ((duration + 1000000000 - 1) % 2 ^ 64))

unfoldable pub handle_result : LimitResult → Reply
unfolding retry_after_seconds
handle_result r =
    let t = record (bare next) {
      limit_header = some r.limit;
      remaining_header = some r.remaining;
    } in
    if r.allowed then t else record t {
      verdict = too_many_requests;
      retry_after_header = some (retry_after_seconds r.retry_after);
    }

-- `Handle`, with the rule of the runtime snapshot and the answer of the limiter.
unfoldable pub handle : Option RateLimitRule → Result LimitError LimitResult → Reply
unfolding handle_result
handle none checked = bare config_unavailable
handle (some rule) checked =
    if rule.enabled
    then elim checked [
      | ok r ↦ handle_result r
      | err _ ↦
          if rule.fail_closed
          then bare limiter_unavailable
          else record (bare next) { status_unavailable = true }
    ]
    else bare next

-- Why a request may pass the limiter.
pub data MayPass (rule : RateLimitRule) : Result LimitError LimitResult → Type 0 where
  off : {checked : Result LimitError LimitResult} → rule.enabled ≡ false → MayPass rule checked
  within : {r : LimitResult} → r.allowed ≡ true → MayPass rule (ok r)
  open_failure : {e : LimitError} → rule.fail_closed ≡ false → MayPass rule (err e)

-- With a runtime snapshot, a request passes exactly if limiting is off, the limiter allows it, or the
-- limiter failed and the rule does not fail closed.
pub handle_passes :
    (rule : RateLimitRule) (checked : Result LimitError LimitResult)
    → ((handle (some rule) checked).verdict ≡ next) ↔ MayPass rule checked
unfolding handle
handle_passes rule (ok r) = (λ h. passes_ok h, λ m. may_ok m)
  where
    passes_ok : (handle (some rule) (ok r)).verdict ≡ next → MayPass rule (ok r)
    passes_ok h = grind (arith, off, within)

    may_ok : MayPass rule (ok r) → (handle (some rule) (ok r)).verdict ≡ next
    may_ok (off h) = ground arith
    may_ok (within h) = ground arith
handle_passes rule (err e) = (λ h. passes_err h, λ m. may_err m)
  where
    passes_err : (handle (some rule) (err e)).verdict ≡ next → MayPass rule (err e)
    passes_err h = grind (arith, off, open_failure)

    may_err : MayPass rule (err e) → (handle (some rule) (err e)).verdict ≡ next
    may_err (off h) = ground arith
    may_err (open_failure h) = ground arith

in_range :
    (n : ℕ) → n < 2 ^ 63 → whole_seconds (to_int64 (n % 2 ^ 64)) ≡ at_least_one (n / 1000000000)
in_range n h =
    ap (λ m. whole_seconds (to_int64 m)) (let e : n % 2 ^ 64 ≡ n = omega arith in e)
    ∙ if-cases (λ z. whole_seconds z ≡ at_least_one (n / 1000000000)) (ltb n (2 ^ 63)) (pos n) _
        (λ _. refl) (λ no. absurd (ground arith))

-- For a duration that leaves room for a second below 2 ^ 63 nanoseconds: the Retry-After header is at
-- least one second, never earlier than the limiter's retry-after, and less than a second later than a
-- retry-after that is not zero.
pub retry_after_seconds_bounds :
    (duration : ℕ)
    → duration + 1000000000 ≤ 2 ^ 63
    → (1 ≤ retry_after_seconds duration)
      × (duration ≤ retry_after_seconds duration * 1000000000)
      × (0 < duration → retry_after_seconds duration * 1000000000 < duration + 1000000000)
unfolding retry_after_seconds
retry_after_seconds_bounds duration room =
    let e = in_range (duration + 1000000000 - 1) (omega arith) in ground arith
