-- ===== src/Examples/Runtime.antt =====
-- The loop over the runtime configuration, with a parser and a builder on numbers.
use grpc_go_project.Prelude.{ℕ, ◌≡◌, ◌≤◌, Option, none, some, [], ◌∷◌, leb, if◌then◌else◌, arith}
use grpc_go_project.Runtime.{watch_failed, watched, RuntimeManager, run}
use grpc_go_project.Runtime.Follow.{Followed, newest, valid_snapshots, run-Followed}

abbrev read_limit : ℕ → Option ℕ
read_limit n = if leb n 100 then some n else none

abbrev start : RuntimeManager ℕ
start = record { wait_index = 3; retry_delay = 1000; current = 7 }

read_limit_small : (bytes p s : ℕ) → read_limit bytes ≡ some p → some p ≡ some s → s ≤ 100
read_limit_small bytes p s e f = ground arith

run-Followed_example :
    Followed
      (λ n. n ≤ 100)
      3
      (run read_limit (λ p. some p) (watch_failed ∷ watched 500 4 ∷ watched 60 5 ∷ []) start)
    × ((run read_limit
          (λ p. some p)
          (watch_failed ∷ watched 500 4 ∷ watched 60 5 ∷ [])
          start).current
        ≡ newest 7 (
            valid_snapshots read_limit
              (λ p. some p)
              3
              (watch_failed ∷ watched 500 4 ∷ watched 60 5 ∷ [])))
run-Followed_example =
    run-Followed read_limit (λ p. some p) (λ n. n ≤ 100) read_limit_small 3
      (watch_failed ∷ watched 500 4 ∷ watched 60 5 ∷ []) start
      (record { waits = (omega arith, omega arith); forward = omega arith; good = omega arith })
