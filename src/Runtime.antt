-- ===== src/Runtime.antt =====
-- gateway/internal/runtimeconfig/manager.go and store.go: the loop that follows the configuration and
-- keeps the last valid snapshot. The parser and the builder of a snapshot are arguments. `Follow` has
-- what the loop keeps.
use grpc_go_project.Prelude.{ℕ, ◌*◌, Option, none, some, List, [], ◌∷◌, leb, ltb, if◌then◌else◌}
pub mod Follow

-- What one WatchKV returns.
pub data WatchReply (D : Type 0) : Type 0 where
  watch_failed : WatchReply D
  watched : D → ℕ → WatchReply D

-- The variables of `Run`, delays in milliseconds, and the snapshot in the store.
pub record RuntimeManager (S : Type 0) : Type 0 where
  pub wait_index : ℕ
  pub retry_delay : ℕ
  pub current : S

abbrev pub second : ℕ
second = 1000

abbrev pub capped : ℕ → ℕ
capped delay = if ltb (30 * second) delay then 30 * second else delay

-- `BuildSnapshot` and `Store.Store`.
abbrev pub publish_built : {S : Type 0} → Option S → RuntimeManager S → RuntimeManager S
publish_built none m = m
publish_built (some snapshot) m = record m { current = snapshot; retry_delay = second }

abbrev pub publish_parsed :
    {P S : Type 0} → (P → Option S) → Option P → RuntimeManager S → RuntimeManager S
publish_parsed build none m = m
publish_parsed build (some parsed) m = publish_built (build parsed) m

-- One round of `Run` that is not cancelled.
unfoldable pub follow :
    {D P S : Type 0}
    → (D → Option P)
    → (P → Option S)
    → WatchReply D
    → RuntimeManager S
    → RuntimeManager S
follow parse build watch_failed m = record m { retry_delay = capped (m.retry_delay * 2) }
follow parse build (watched bytes modify_index) m =
    if leb modify_index m.wait_index
    then m
    else publish_parsed build (parse bytes) (record m { wait_index = modify_index })

-- `Run` over the replies up to its cancellation.
unfoldable pub run :
    {D P S : Type 0}
    → (D → Option P)
    → (P → Option S)
    → List (WatchReply D)
    → RuntimeManager S
    → RuntimeManager S
unfolding follow
run parse build [] m = m
run parse build (r ∷ rs) m = run parse build rs (follow parse build r m)
