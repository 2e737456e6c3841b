-- ===== src/RateLimit/Contract.antt =====
-- gateway/internal/ratelimit/redis.go against its contract: a request is let through exactly if
-- fewer than `limit` requests were let through in the window before it.
use grpc_go_project.Prelude.{
  ℕ, ◌+◌, ◌≤◌, ◌≡◌, refl, ap, Bool, false, none, List, [], ◌∷◌, ltb, leb, ◌==◌, All, Bool-cases,
  arith, inl, inr, if◌then◌else◌,
}
use grpc_go_project.RateLimit.{SortedSets, Key, live, sliding_window_script}
use grpc_go_project.RateLimit.Window.{
  Request, window_start, count_in_window, contract, length-above-le, purge, rejects, allows, run,
  Tracks, step-Tracks, has_live,
}

-- The times do not decrease behind a request at `time` and `server`, and neither does the lag of the
-- callers' clocks behind the server's grow: the delay from a caller's reading to the run of the script,
-- and the difference of the clocks.
abbrev pub After : ℕ → ℕ → List Request → Type 0
After time server [] = Unit
After time server (q ∷ qs) =
    (time ≤ q.time) × (q.server + time ≤ server + q.time) × After q.time q.server qs

abbrev pub Ascending : List Request → Type 0
Ascending [] = Unit
Ascending (q ∷ qs) = After q.time q.server qs

-- No two requests have one id.
abbrev pub Distinct : List Request → Type 0
Distinct [] = Unit
Distinct (q ∷ qs) = All (λ r. (q.id == r.id) ≡ false) qs × Distinct qs

module _ (redis : SortedSets) where
  open redis use {Z, empty, zremrangebyscore, zcard, zadd, scores, has}

  has-script :
      (k : Key redis) (now server window limit id m : ℕ)
      → has k.entries m ≡ false
      → (id == m) ≡ false
      → has (sliding_window_script redis k now server window limit id).1.entries m ≡ false
  has-script k now server window limit id m f d =
      let purged =
        redis.has_removed (live redis k server) (window_start now window) m
          (has_live redis k server m f) in
      elim (Bool-cases (leb limit (zcard (purge redis k now server window)))) [
        | inl full ↦ rw (rejects redis k now server window limit id full) purged
        | inr room ↦
            rw (allows redis k now server window limit id room)
              (redis.has_added (purge redis k now server window) now id m d purged)
      ]

  stays_fresh :
      (k : Key redis) (window limit : ℕ) (q : Request) (qs : List Request)
      → All (λ r. has k.entries r.id ≡ false) qs
      → All (λ r. (q.id == r.id) ≡ false) qs
      → All
          (λ r.
            has (sliding_window_script redis k q.time q.server window limit q.id).1.entries r.id
            ≡ false)
          qs
  stays_fresh k window limit q [] f d = tt
  stays_fresh k window limit q (r ∷ qs) (fr, f) (dr, d) = (
    has-script k q.time q.server window limit q.id r.id fr dr,
    stays_fresh k window limit q qs f d,
  )

  run-contract_from :
      (k : Key redis) (last server limit window : ℕ) (passed : List ℕ) (qs : List Request)
      → Tracks redis k last server window passed
      → After last server qs
      → Distinct qs
      → All (λ q. has k.entries q.id ≡ false) qs
      → run redis k limit window qs ≡ contract limit window passed qs
  unfolding run
  run-contract_from k last server limit window passed [] t a d f = refl
  run-contract_from k last server limit window passed (q ∷ qs) t (late, lag, a) (dq, d) (fq, f) =
      let (same, t') = step-Tracks redis k last server window limit passed q t late lag fq in
      let k' = (sliding_window_script redis k q.time q.server window limit q.id).1 in
      let free = ltb (count_in_window q.time window passed) limit in
      rw same (
        ap (λ rest. free ∷ rest)
          (run-contract_from k' q.time q.server limit window
            (if free then q.time ∷ passed else passed) qs t' a d
            (stays_fresh k window limit q qs f dq)))

  -- A key that was never used.
  abbrev pub unused : Key redis
  unused = record { entries = empty; expires_at = none }

  unused-Tracks : (time server window : ℕ) → Tracks redis unused time server window []
  unused-Tracks time server window = record {
    counts = λ c h. rw redis.scores_empty;
    before = tt;
    expiry = tt;
  }

  All-fresh : (qs : List Request) → All (λ q. has unused.entries q.id ≡ false) qs
  All-fresh [] = tt
  All-fresh (q ∷ qs) = (redis.has_empty q.id, All-fresh qs)

  -- On a key that was never used, for requests with different ids, at times that do not decrease and
  -- with a lag of their callers' clocks behind the server's that does not grow: the script lets a request
  -- through exactly if fewer than `limit` were let through in the window that ends with it.
  pub run-contract :
      (limit window : ℕ) (qs : List Request)
      → Ascending qs
      → Distinct qs
      → run redis unused limit window qs ≡ contract limit window [] qs
  unfolding run
  run-contract limit window [] a d = refl
  run-contract limit window (q ∷ qs) a d =
      run-contract_from unused q.time q.server limit window [] (q ∷ qs)
        (unused-Tracks q.time q.server window) (omega arith, omega arith, a) d (All-fresh (q ∷ qs))

-- The times of the requests that the decisions let through, the latest first.
abbrev pub let_through : List Bool → List Request → List ℕ → List ℕ
let_through [] qs passed = passed
let_through (b ∷ bs) [] passed = passed
let_through (b ∷ bs) (q ∷ qs) passed = let_through bs qs (if b then q.time ∷ passed else passed)

contract_bounded :
    (limit window last server now : ℕ) (passed : List ℕ) (qs : List Request)
    → count_in_window last window passed ≤ limit
    → After last server qs
    → All (λ q. q.time ≤ now) qs
    → last ≤ now
    → count_in_window now window (let_through (contract limit window passed qs) qs passed) ≤ limit
contract_bounded limit window last server now passed [] h a b late = omega (
  arith,
  length-above-le (window_start last window) (window_start now window) passed (ground arith),
)
contract_bounded limit window last server now passed (q ∷ qs) h (first, lag, a) (bq, b) late =
    elim (Bool-cases (ltb (count_in_window q.time window passed) limit)) [
      | inl free ↦ rw free (
          contract_bounded limit window q.time q.server now (q.time ∷ passed) qs (ground arith) a b
            bq)
      | inr busy ↦ rw busy (
          contract_bounded limit window q.time q.server now passed qs
            (omega (
              arith,
              length-above-le (window_start last window) (window_start q.time window) passed
                  (ground arith),
            ))
            a b bq)
    ]

module _ (redis : SortedSets) where
  -- On a key that was never used, for requests with different ids, at times that do not decrease and
  -- with a lag of their callers' clocks behind the server's that does not grow: at most `limit` of the
  -- requests let through lie in a window that ends at any time from the last request on.
  pub window_never_exceeds :
      (limit window now : ℕ) (qs : List Request)
      → Ascending qs
      → Distinct qs
      → All (λ q. q.time ≤ now) qs
      → count_in_window now window (let_through (run redis (unused redis) limit window qs) qs [])
        ≤ limit
  window_never_exceeds limit window now qs a d b =
      rw (run-contract redis limit window qs a d) (bounded qs a b)
    where
      bounded :
          (rs : List Request)
          → Ascending rs
          → All (λ q. q.time ≤ now) rs
          → count_in_window now window (let_through (contract limit window [] rs) rs []) ≤ limit
      bounded [] h k = omega arith
      bounded (q ∷ rs) h k =
          contract_bounded limit window q.time q.server now [] (q ∷ rs) (omega arith)
            (omega arith, omega arith, h) k k.0
