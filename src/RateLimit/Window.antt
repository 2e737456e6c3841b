-- ===== src/RateLimit/Window.antt =====
-- gateway/internal/ratelimit/redis.go: one run of the script against the times of the requests that
-- it let through before.
use grpc_go_project.Prelude.{
  ℕ, ◌+◌, ◌≤◌, ◌≡◌, refl, Bool, true, false, Option, none, some, List, [], ◌∷◌, ltb, leb, ◌==◌,
  length, All, OnSome, Bool-cases, arith, inl, inr, if◌then◌else◌,
}
use grpc_go_project.Prelude.Int.{ℤ, pos, ◌-ℤ◌, ◌≤ℤ◌}
use grpc_go_project.RateLimit.{
  above, insert, SortedSets, Key, live, retry_after, sliding_window_script,
}

-- A request: the time that its caller read, that of the server when the script runs, and its id.
pub record Request : Type 0 where
  pub time : ℕ
  pub server : ℕ
  pub id : ℕ

-- The start of the window that ends at `now`.
abbrev pub window_start : ℕ → ℕ → ℤ
window_start now window = pos now -ℤ pos window

-- How many of the times lie in the window that ends at `now`.
abbrev pub count_in_window : ℕ → ℕ → List ℕ → ℕ
count_in_window now window times = length (above (window_start now window) times)

-- The contract: the decisions for requests, given the times of those let through before.
abbrev pub contract : ℕ → ℕ → List ℕ → List Request → List Bool
contract limit window passed [] = []
contract limit window passed (q ∷ qs) =
    let free = ltb (count_in_window q.time window passed) limit in
    free ∷ contract limit window (if free then q.time ∷ passed else passed) qs

above-above : (c d : ℤ) (ts : List ℕ) → c ≤ℤ d → above d (above c ts) ≡ above d ts
above-above c d [] h = refl
above-above c d (t ∷ ts) h = ground (arith, above-above c d ts)

length-above-insert :
    (c : ℤ) (s : ℕ) (ts : List ℕ) → length (above c (insert s ts)) ≡ length (above c (s ∷ ts))
length-above-insert c s [] = refl
length-above-insert c s (t ∷ ts) = ground (arith, length-above-insert c s ts)

pub length-above-le : (c d : ℤ) (ts : List ℕ) → c ≤ℤ d → length (above d ts) ≤ length (above c ts)
length-above-le c d [] h = omega arith
length-above-le c d (t ∷ ts) h = ground (arith, length-above-le c d ts)

above_stale :
    (c : ℤ) (now window t : ℕ) (ts : List ℕ)
    → All (λ s. s + window ≤ t) ts
    → t ≤ now
    → window_start now window ≤ℤ c
    → above c ts ≡ []
above_stale c now window t [] h late d = refl
above_stale c now window t (s ∷ ts) (hs, h) late d =
    ground (arith, above_stale c now window t ts h late d)

-- An expiry t counted on the server, behind a request at `time` and `server`: no sooner than each entry
-- leaves the window.
abbrev pub Outlasts : ℕ → ℕ → ℕ → ℕ → List ℕ → Type 0
Outlasts window time server t ts = All (λ s. s + window + server ≤ t + time) ts

shift :
    (window time server time' server' t : ℕ) (ts : List ℕ)
    → server' + time ≤ server + time'
    → Outlasts window time server t ts
    → Outlasts window time' server' t ts
shift window time server time' server' t [] h a = tt
shift window time server time' server' t (s ∷ ts) h (first, rest) =
    (omega arith, shift window time server time' server' t ts h rest)

stale :
    (window time server time' server' t : ℕ) (ts : List ℕ)
    → server' + time ≤ server + time'
    → t ≤ server'
    → Outlasts window time server t ts
    → All (λ s. s + window ≤ time') ts
stale window time server time' server' t [] h over a = tt
stale window time server time' server' t (s ∷ ts) h over (first, rest) =
    (omega arith, stale window time server time' server' t ts h over rest)

-- An expiry that is set anew outlasts what came before.
renewed :
    (window last time server : ℕ) (ts : List ℕ)
    → last ≤ time
    → All (λ s. s ≤ last) ts
    → Outlasts window time server (server + window) ts
renewed window last time server [] h a = tt
renewed window last time server (s ∷ ts) h (first, rest) =
    (omega arith, renewed window last time server ts h rest)

later :
    (last time : ℕ) (ts : List ℕ) → last ≤ time → All (λ s. s ≤ last) ts → All (λ s. s ≤ time) ts
later last time [] h a = tt
later last time (s ∷ ts) h (first, rest) = (omega arith, later last time ts h rest)

module _ (redis : SortedSets) where
  open redis use {Z, empty, zremrangebyscore, zcard, zadd, scores, has}

  -- The decisions of the script for a list of requests on one key.
  unfoldable pub run : Key redis → ℕ → ℕ → List Request → List Bool
  run k limit window [] = []
  run k limit window (q ∷ qs) =
      let (reply, k') = sliding_window_script redis k q.time q.server window limit q.id in
      (reply.0 == 1) ∷ run k' limit window qs

  -- What the key says of the requests let through up to `last`.
  pub record Tracks (k : Key redis) (last server window : ℕ) (passed : List ℕ) : Type 0 where
    pub counts :
        (c : ℤ)
        → window_start last window ≤ℤ c
        → length (above c (scores k.entries)) ≡ length (above c passed)
    pub before : All (λ s. s ≤ last) passed
    pub expiry : OnSome (λ t. Outlasts window last server t passed) k.expires_at

  pub live_counts_at :
      (k : Key redis) (expires_at : Option ℕ) (last server now server' window : ℕ) (passed : List ℕ)
      (c : ℤ)
      → ((c : ℤ)
          → window_start last window ≤ℤ c
          → length (above c (scores k.entries)) ≡ length (above c passed))
      → OnSome (λ t. Outlasts window last server t passed) expires_at
      → last ≤ now
      → server' + last ≤ server + now
      → window_start now window ≤ℤ c
      → length (
          above c
            (scores (live redis (record { entries = k.entries; expires_at = expires_at }) server')))
        ≡ length (above c passed)
  unfolding live
  live_counts_at k none last server now server' window passed c counts e late lag h =
      counts c (ground arith)
  live_counts_at k (some t) last server now server' window passed c counts e late lag h =
      elim (Bool-cases (leb t server')) [
        | inl over ↦ rw (
          over,
          redis.scores_empty,
          above_stale c now window now passed
              (stale window last server now server' t passed lag (ground arith) e) (omega arith) h,
        )
        | inr on ↦ rw on (counts c (ground arith))
      ]

  pub purged_counts :
      (k : Key redis) (last server now server' window : ℕ) (passed : List ℕ) (c : ℤ)
      → Tracks k last server window passed
      → last ≤ now
      → server' + last ≤ server + now
      → window_start now window ≤ℤ c
      → length
          (above c (scores (zremrangebyscore (live redis k server') (window_start now window))))
        ≡ length (above c passed)
  purged_counts k last server now server' window passed c t late lag h =
      rw
        (
          redis.scores_removed,
          above-above (window_start now window) c (scores (live redis k server')) h,
        )
        (live_counts_at k k.expires_at last server now server' window passed c t.counts t.expiry
          late lag h)

  pub zcard_purged :
      (k : Key redis) (last server now server' window : ℕ) (passed : List ℕ)
      → Tracks k last server window passed
      → last ≤ now
      → server' + last ≤ server + now
      → zcard (zremrangebyscore (live redis k server') (window_start now window))
        ≡ count_in_window now window passed
  zcard_purged k last server now server' window passed t late lag =
      rw (redis.zcard_scores, redis.scores_removed)
        (live_counts_at k k.expires_at last server now server' window passed
          (window_start now window) t.counts t.expiry late lag (omega arith))

  pub has_live :
      (k : Key redis) (server m : ℕ) → has k.entries m ≡ false → has (live redis k server) m ≡ false
  unfolding live
  has_live k server m h = ground (arith, redis.has_empty m)

  abbrev pub purge : Key redis → ℕ → ℕ → ℕ → Z
  purge k now server window = zremrangebyscore (live redis k server) (window_start now window)

  pub rejects :
      (k : Key redis) (now server window limit id : ℕ)
      → leb limit (zcard (purge k now server window)) ≡ true
      → sliding_window_script redis k now server window limit id ≡ (
        (
          0,
          zcard (purge k now server window),
          retry_after redis (redis.zrange_first (purge k now server window)) now window,
        ),
        record {
          entries = purge k now server window;
          expires_at = elim k.expires_at [
            | none ↦ none
            | some t ↦ if leb t server then none else some t
          ];
        },
      )
  unfolding sliding_window_script
  rejects k now server window limit id h = rw (h, sliding_window_script)

  pub allows :
      (k : Key redis) (now server window limit id : ℕ)
      → leb limit (zcard (purge k now server window)) ≡ false
      → sliding_window_script redis k now server window limit id ≡ (
        (1, zcard (purge k now server window) + 1, 0),
        record {
          entries = zadd (purge k now server window) now id;
          expires_at = some (server + window);
        },
      )
  unfolding sliding_window_script
  allows k now server window limit id h = rw (h, sliding_window_script)

  still_expires :
      (expires_at : Option ℕ) (last server now server' window : ℕ) (passed : List ℕ)
      → OnSome (λ t. Outlasts window last server t passed) expires_at
      → server' + last ≤ server + now
      → OnSome
          (λ t. Outlasts window now server' t passed)
          (elim expires_at as (λ _. Option ℕ) [
            | none ↦ none
            | some t ↦ if leb t server' then none else some t
          ])
  still_expires none last server now server' window passed e lag = tt
  still_expires (some t) last server now server' window passed e lag =
      elim (Bool-cases (leb t server')) [
        | inl over ↦ rw over tt
        | inr on ↦ rw on (shift window last server now server' t passed lag e)
      ]

  pub step-Tracks :
      (k : Key redis) (last server window limit : ℕ) (passed : List ℕ) (q : Request)
      → Tracks k last server window passed
      → last ≤ q.time
      → q.server + last ≤ server + q.time
      → has k.entries q.id ≡ false
      → let free = ltb (count_in_window q.time window passed) limit in
        let (reply, k') = sliding_window_script redis k q.time q.server window limit q.id in
        ((reply.0 == 1) ≡ free)
        × Tracks k' q.time q.server window (if free then q.time ∷ passed else passed)
  step-Tracks k last server window limit passed q t late lag fresh =
      elim (Bool-cases (leb limit (zcard (purge k q.time q.server window)))) [
        | inl full ↦
            let busy : ltb (count_in_window q.time window passed) limit ≡ false =
              ground (arith, zcard_purged k last server q.time q.server window passed t late lag) in
            rw (rejects k q.time q.server window limit q.id full, busy)
              (
                refl,
                record {
                  counts = λ c h.
                      purged_counts k last server q.time q.server window passed c t late lag h;
                  before = later last q.time passed late t.before;
                  expiry =
                      still_expires k.expires_at last server q.time q.server window passed t.expiry
                        lag;
                },
              )
        | inr room ↦
            let free : ltb (count_in_window q.time window passed) limit ≡ true =
              ground (arith, zcard_purged k last server q.time q.server window passed t late lag) in
            rw (allows k q.time q.server window limit q.id room, free)
              (
                refl,
                record {
                  counts = λ c h.
                      rw
                        (
                          redis.scores_added (purge k q.time q.server window) q.time q.id
                              (redis.has_removed _ _ q.id (has_live k q.server q.id fresh)),
                          length-above-insert c q.time (scores (purge k q.time q.server window)),
                        )
                        (ground (
                          arith,
                          purged_counts k last server q.time q.server window passed c t late lag h,
                        ));
                  before = (omega arith, later last q.time passed late t.before);
                  expiry = (omega arith, renewed window last q.time q.server passed late t.before);
                },
              )
      ]
