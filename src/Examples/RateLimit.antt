-- ===== src/Examples/RateLimit.antt =====
-- The limiter over a concrete sorted set.
use grpc_go_project.Prelude.{
  ℕ, ◌+◌, ◌*◌, ◌≤◌, ◌<◌, ◌≡◌, refl, Bool, true, false, some, List, [], ◌∷◌, ltb, ◌==◌, length,
  arith, if◌then◌else◌, ◌||◌, ◌↔◌,
}
use grpc_go_project.Prelude.Int.{ℤ, pos, leb_ℤ}
use grpc_go_project.Prelude.Result.{err}
use grpc_go_project.RateLimit.{
  above, insert, head, SortedSets, Key, live, sliding_window_script, redis_failed,
}
use grpc_go_project.RateLimit.Window.{Request, run, contract, count_in_window}
use grpc_go_project.RateLimit.Contract.{unused, let_through, run-contract, window_never_exceeds}
use grpc_go_project.RateLimit.Retry.{retry-succeeds}
use grpc_go_project.RateLimit.Middleware.{
  RateLimitRule, Verdict, MayPass, handle, handle_passes, retry_after_seconds,
  retry_after_seconds_bounds,
}

-- Scores with their members, in ascending order of the scores.
abbrev Pairs : Type 0
Pairs = List (ℕ × ℕ)

remove : Pairs → ℤ → Pairs
remove [] cutoff = []
remove ((t, m) ∷ z) cutoff =
    if leb_ℤ (pos t) cutoff then remove z cutoff else (t, m) ∷ remove z cutoff

add : Pairs → ℕ → ℕ → Pairs
add [] s id = (s, id) ∷ []
add ((t, m) ∷ z) s id = if ltb s t then (s, id) ∷ (t, m) ∷ z else (t, m) ∷ add z s id

member : Pairs → ℕ → Bool
member [] id = false
member ((t, m) ∷ z) id = m == id || member z id

times : Pairs → List ℕ
times [] = []
times ((t, m) ∷ z) = t ∷ times z

times-remove : (z : Pairs) (cutoff : ℤ) → times (remove z cutoff) ≡ above cutoff (times z)
unfolding times remove
times-remove [] cutoff = refl
times-remove ((t, m) ∷ z) cutoff = ground (arith, times-remove z cutoff)

member-remove :
    (z : Pairs) (cutoff : ℤ) (id : ℕ) → member z id ≡ false → member (remove z cutoff) id ≡ false
unfolding member remove
member-remove [] cutoff id h = refl
member-remove ((t, m) ∷ z) cutoff id h = ground (arith, member-remove z cutoff id)

times-add : (z : Pairs) (s id : ℕ) → times (add z s id) ≡ insert s (times z)
unfolding times add
times-add [] s id = refl
times-add ((t, m) ∷ z) s id = ground (arith, times-add z s id)

member-add :
    (z : Pairs) (s m id : ℕ)
    → (m == id) ≡ false
    → member z id ≡ false
    → member (add z s m) id ≡ false
unfolding member add
member-add [] s m id d h = rw d
member-add ((t, k) ∷ z) s m id d h = ground (arith, member-add z s m id d)

abbrev memory : SortedSets
unfolding times remove add member
memory = record {
  Z = Pairs;
  empty = [];
  zremrangebyscore = remove;
  zcard = λ z. length (times z);
  zrange_first = λ z. head (times z);
  zadd = add;
  scores = times;
  has = member;
  scores_empty = refl;
  has_empty = λ m. refl;
  scores_removed = times-remove;
  has_removed = member-remove;
  zcard_scores = λ z. refl;
  first_scores = λ z. refl;
  scores_added = λ z s m h. times-add z s m;
  has_added = λ z s m k d h. member-add z s m k d h;
}

abbrev requests : List Request
requests =
    record { time = 100; server = 102; id = 1 }
    ∷ record { time = 150; server = 152; id = 2 }
    ∷ record { time = 160; server = 162; id = 3 }
    ∷ record { time = 205; server = 207; id = 4 }
    ∷ []

decisions : run memory (unused memory) 2 100 requests ≡ true ∷ true ∷ false ∷ true ∷ []
unfolding run sliding_window_script memory
decisions = refl

run-contract_example : run memory (unused memory) 2 100 requests ≡ contract 2 100 [] requests
run-contract_example = run-contract memory 2 100 requests (omega arith) (ground arith)

window_never_exceeds_example :
    count_in_window 210 100 (let_through (run memory (unused memory) 2 100 requests) requests [])
    ≤ 2
window_never_exceeds_example =
    window_never_exceeds memory 2 100 210 requests (omega arith) (ground arith) (omega arith)

-- One request in the window, and a limit of one.
abbrev busy : Key memory
unfolding times remove add member
busy = record { entries = (100, 1) ∷ []; expires_at = some 200 }

busy_refuses : (sliding_window_script memory busy 150 152 100 1 2).0 ≡ (0, 1, 50)
unfolding sliding_window_script memory
busy_refuses = refl

retry-succeeds_example :
    (sliding_window_script memory
      (sliding_window_script memory busy 150 152 100 1 2).1
      (150 + (sliding_window_script memory busy 150 152 100 1 2).0.2)
      202
      100
      1
      3).0.0
    ≡ 1
unfolding sliding_window_script memory live
retry-succeeds_example =
    retry-succeeds memory busy 150 152 202 100 1 2 3 (omega arith) (omega arith) refl

abbrev closed_rule : RateLimitRule
closed_rule = record { enabled = true; fail_closed = true }

handle_passes_example :
    ((handle (some closed_rule) (err redis_failed)).verdict ≡ Verdict.next)
    ↔ MayPass closed_rule (err redis_failed)
handle_passes_example = handle_passes closed_rule (err redis_failed)

retry_after_seconds_bounds_example :
    (1 ≤ retry_after_seconds 1500000000)
    × (1500000000 ≤ retry_after_seconds 1500000000 * 1000000000)
    × (0 < 1500000000 → retry_after_seconds 1500000000 * 1000000000 < 1500000000 + 1000000000)
retry_after_seconds_bounds_example = retry_after_seconds_bounds 1500000000 (omega arith)
