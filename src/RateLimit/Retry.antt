-- ===== src/RateLimit/Retry.antt =====
-- gateway/internal/ratelimit/redis.go: what the retry-after of a refused request promises.
use grpc_go_project.Prelude.{
  ℕ, ◌+◌, ◌≤◌, ◌<◌, ◌≡◌, refl, sym, subst, false, Option, none, some, List, [], ◌∷◌, leb, length,
  Bool-cases, arith, inl, inr, if◌then◌else◌, ◌⊎◌,
}
use grpc_go_project.Prelude.Int.{ℤ, pos, pos_part, ◌-ℤ◌, leb_ℤ}
use grpc_go_project.RateLimit.{
  above, head, SortedSets, Key, live, retry_after, sliding_window_script,
}
use grpc_go_project.RateLimit.Window.{window_start, purge, rejects, allows}

length-above : (c : ℤ) (ts : List ℕ) → length (above c ts) ≤ length ts
length-above c [] = omega arith
length-above c (t ∷ ts) = ground (arith, length-above c ts)

-- The oldest entry that was kept lies in the window.
above-head : (c : ℤ) (ts rest : List ℕ) (o : ℕ) → above c ts ≡ o ∷ rest → leb_ℤ (pos o) c ≡ false
above-head c [] rest o e = cc
above-head c (t ∷ ts) rest o e = ground (arith, above-head c ts rest o)

-- When the retry-after has passed, the oldest entry has left the window.
retry_drops :
    (now window o : ℕ) (rest : List ℕ)
    → leb_ℤ (pos o) (window_start now window) ≡ false
    → length
        (above (window_start (now + pos_part (pos window -ℤ (pos now -ℤ pos o))) window) (o ∷ rest))
      ≤ length rest
retry_drops now window o rest h = ground (
  arith,
  length-above (window_start (now + pos_part (pos window -ℤ (pos now -ℤ pos o))) window) rest,
)

module _ (redis : SortedSets) where
  open redis use {Z, zremrangebyscore, zcard, scores, zrange_first}

  live-scores :
      (z : Z) (t : Option ℕ) (server : ℕ)
      → (scores (live redis (record { entries = z; expires_at = t }) server) ≡ [])
        ⊎ (scores (live redis (record { entries = z; expires_at = t }) server) ≡ scores z)
  unfolding live
  live-scores z none server = inr refl
  live-scores z (some t) server = elim (Bool-cases (leb t server)) [
    | inl over ↦ rw over (inl redis.scores_empty)
    | inr on ↦ rw on (inr refl)
  ]

  left_counts :
      (l found ts : List ℕ) (now window limit : ℕ)
      → 0 < limit
      → limit ≤ length l
      → length l ≤ limit
      → l ≡ above (window_start now window) ts
      → (found ≡ []) ⊎ (found ≡ l)
      → length (above (window_start (now + retry_after redis (head l) now window) window) found)
        < limit
  unfolding retry_after
  left_counts [] found ts now window limit positive full fits kept f = absurd (omega arith)
  left_counts (o ∷ rest) found ts now window limit positive full fits kept (inl gone) =
      rw gone positive
  left_counts (o ∷ rest) found ts now window limit positive full fits kept (inr still) = rw still (
      omega (
        arith,
        retry_drops now window o rest (above-head (window_start now window) ts rest o (sym kept)),
      ))

  -- The entries that are left when the retry-after has passed.
  left_over :
      (z : Z) (t : Option ℕ) (now server window limit : ℕ) (ts : List ℕ)
      → 0 < limit
      → limit ≤ length (scores z)
      → length (scores z) ≤ limit
      → scores z ≡ above (window_start now window) ts
      → leb limit (
          zcard (
            purge redis
              (record { entries = z; expires_at = t })
              (now + retry_after redis (zrange_first z) now window)
              server
              window))
        ≡ false
  left_over z t now server window limit ts positive full fits kept =
      let later = now + retry_after redis (zrange_first z) now window in
      let few : zcard (purge redis (record { entries = z; expires_at = t }) later server window)
          < limit =
        rw (redis.zcard_scores, redis.scores_removed)
          (subst
            (λ first.
              length (
                above (window_start (now + retry_after redis first now window) window)
                  (scores (live redis (record { entries = z; expires_at = t }) server)))
              < limit)
            (sym (redis.first_scores z))
            (left_counts (scores z)
              (scores (live redis (record { entries = z; expires_at = t }) server)) ts now window
              limit positive full fits kept (live-scores z t server))) in
      ground arith

  -- A request is refused on a key with at most `limit` entries in the window, for a positive limit.
  -- If no other request comes in between, one at the time when the retry-after of the refusal has
  -- passed is let through, whatever the server's clock says then.
  pub retry-succeeds :
      (k : Key redis) (now server server' window limit id id' : ℕ)
      → 0 < limit
      → length (scores (purge redis k now server window)) ≤ limit
      → (sliding_window_script redis k now server window limit id).0.0 ≡ 0
      → (sliding_window_script redis
          (sliding_window_script redis k now server window limit id).1
          (now + (sliding_window_script redis k now server window limit id).0.2)
          server'
          window
          limit
          id').0.0
        ≡ 1
  retry-succeeds k now server server' window limit id id' positive fits refused =
      elim (Bool-cases (leb limit (zcard (purge redis k now server window)))) [
        | inl full ↦
            let expires = elim k.expires_at as (λ _. Option ℕ) [
              | none ↦ none
              | some t ↦ if leb t server then none else some t
            ] in
            rw (rejects redis k now server window limit id full) (
              rw
                (allows redis
                  (record { entries = purge redis k now server window; expires_at = expires })
                  (now
                    + retry_after redis (zrange_first (purge redis k now server window)) now window)
                  server' window limit id'
                  (left_over (purge redis k now server window) expires now server' window limit
                    (scores (live redis k server)) positive
                    (ground (arith, redis.zcard_scores (purge redis k now server window))) fits
                    (redis.scores_removed (live redis k server) (window_start now window))))
                refl)
        | inr room ↦
            let passed : ◌≡◌ {A = ℕ} 1 0 =
              subst (λ (r : (ℕ × ℕ × ℕ) × Key redis). r.0.0 ≡ 0)
                (allows redis k now server window limit id room) refused in
            absurd (omega arith)
      ]
