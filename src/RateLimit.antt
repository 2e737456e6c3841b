-- ===== src/RateLimit.antt =====
-- gateway/internal/ratelimit/redis.go: the sliding-window limiter, its Lua script over one sorted set
-- and the Go code around it. Redis is a parameter: `SortedSets` has the commands that the script
-- calls, with what their documentation says of the set's scores.
pub mod Window
pub mod Contract
pub mod Retry
pub mod Middleware
use grpc_go_project.Prelude.{
  ℕ, zero, suc, ◌+◌, ◌*◌, ◌/◌, ◌≡◌, Bool, true, false, Option, none, some, List, [], ◌∷◌, ltb, leb,
  ◌==◌, length, not, ◌||◌, if◌then◌else◌,
}
use grpc_go_project.Prelude.Int.{ℤ, pos, negsuc, pos_part, ◌-ℤ◌, leb_ℤ, ltb_ℤ}
use grpc_go_project.Prelude.Result.{Result, ok, err}
use grpc_go_project.Prelude.Text.{Text, is_empty}

-- The scores above `cutoff`.
abbrev pub above : ℤ → List ℕ → List ℕ
above cutoff [] = []
above cutoff (t ∷ ts) = if leb_ℤ (pos t) cutoff then above cutoff ts else t ∷ above cutoff ts

-- A score put into a list that ascends.
abbrev pub insert : ℕ → List ℕ → List ℕ
insert s [] = s ∷ []
insert s (t ∷ ts) = if ltb s t then s ∷ t ∷ ts else t ∷ insert s ts

abbrev pub head : List ℕ → Option ℕ
head [] = none
head (t ∷ _) = some t

-- The sorted-set commands of Redis: members are request ids, and `scores` lists the scores in
-- ascending order.
pub record SortedSets : Type 1 where
  pub Z : Type 0
  pub empty : Z
  pub zremrangebyscore : Z → ℤ → Z
  pub zcard : Z → ℕ
  pub zrange_first : Z → Option ℕ
  pub zadd : Z → ℕ → ℕ → Z
  pub scores : Z → List ℕ
  pub has : Z → ℕ → Bool
  pub scores_empty : scores empty ≡ []
  pub has_empty : (m : ℕ) → has empty m ≡ false
  pub scores_removed :
      (z : Z) (cutoff : ℤ) → scores (zremrangebyscore z cutoff) ≡ above cutoff (scores z)
  pub has_removed :
      (z : Z) (cutoff : ℤ) (m : ℕ) → has z m ≡ false → has (zremrangebyscore z cutoff) m ≡ false
  pub zcard_scores : (z : Z) → zcard z ≡ length (scores z)
  pub first_scores : (z : Z) → zrange_first z ≡ head (scores z)
  pub scores_added : (z : Z) (s m : ℕ) → has z m ≡ false → scores (zadd z s m) ≡ insert s (scores z)
  pub has_added :
      (z : Z) (s m k : ℕ) → (m == k) ≡ false → has z k ≡ false → has (zadd z s m) k ≡ false

pub data LimitError : Type 0 where
  empty_key bad_limit bad_window redis_failed : LimitError

pub record LimitResult : Type 0 where
  pub allowed : Bool
  pub limit : ℕ
  pub remaining : ℕ
  pub retry_after : ℕ

module _ (redis : SortedSets) where
  open redis use {Z, empty, zremrangebyscore, zcard, zrange_first, zadd}

  -- The key: its set, and the time at which it expires.
  pub record Key : Type 0 where
    pub entries : Z
    pub expires_at : Option ℕ

  -- What the script finds under the key at a time of the server, which counts down the expiry.
  unfoldable pub live : Key → ℕ → Z
  live k server = elim k.expires_at [
    | none ↦ k.entries
    | some t ↦ if leb t server then empty else k.entries
  ]

  -- `oldest[2] ~= nil`, and `retryAfter` at least 0.
  unfoldable pub retry_after : Option ℕ → ℕ → ℕ → ℕ
  retry_after none now window = window
  retry_after (some oldest) now window = pos_part (pos window -ℤ (pos now -ℤ pos oldest))

  -- `slidingWindowScript`: the three values that it returns, and the key behind it. `now` is the time
  -- that the caller read, `server` that of the server when the script runs.
  unfoldable pub sliding_window_script : Key → ℕ → ℕ → ℕ → ℕ → ℕ → (ℕ × ℕ × ℕ) × Key
  unfolding live retry_after
  sliding_window_script k now server window limit request_id =
      let purged = zremrangebyscore (live k server) (pos now -ℤ pos window) in
      let current = zcard purged in
      if leb limit current
      then (
        (0, current, retry_after (zrange_first purged) now window),
        record {
          entries = purged;
          expires_at = elim k.expires_at [
            | none ↦ none
            | some t ↦ if leb t server then none else some t
          ];
        },
      )
      else (
        (1, current + 1, 0),
        record { entries = zadd purged now request_id; expires_at = some (server + window) },
      )

  -- The result that `Allow` makes of the three values; `retry_after` in nanoseconds.
  unfoldable pub decode_reply : ℕ → ℕ × ℕ × ℕ → LimitResult
  decode_reply limit (allowed_value, current, retry_milliseconds) = record {
    allowed = allowed_value == 1;
    limit = limit;
    remaining = pos_part (pos limit -ℤ pos current);
    retry_after = retry_milliseconds * 1000000;
  }

  -- `Allow`, with the reply of Redis or its failure. `window` is in nanoseconds.
  unfoldable pub allow : Bool → Text → ℤ → ℤ → ℕ → ℕ → ℕ → Key → Result LimitError LimitResult × Key
  unfolding sliding_window_script decode_reply
  allow reachable key limit window now server request_id k =
      if is_empty key
      then (err empty_key, k)
      else if leb_ℤ limit (pos 0)
      then (err bad_limit, k)
      else if leb_ℤ window (pos 0)
      then (err bad_window, k)
      else if not reachable
      then (err redis_failed, k)
      else (let (reply, k') =
            sliding_window_script k now server (pos_part window / 1000000) (pos_part limit)
              request_id in
          (ok (decode_reply (pos_part limit) reply), k'))
