-- ===== src/Runtime/Follow.antt =====
-- What the loop of gateway/internal/runtimeconfig/manager.go keeps over every sequence of replies.
use grpc_go_project.Prelude.{
  ℕ, ◌*◌, ◌≡◌, refl, ap, ◌∙◌, ◌++◌, Bool, true, false, if◌then◌else◌, Option, none, some, List, [],
  ◌∷◌, leb, ◌≤◌, arith, if-cases,
}
use grpc_go_project.Runtime.{
  WatchReply, watch_failed, watched, RuntimeManager, second, publish_built, publish_parsed, follow,
  run,
}

-- Between one second and thirty, no index goes back, and the snapshot has the property.
pub record Followed {S : Type 0} (Good : S → Type 0) (start : ℕ) (m : RuntimeManager S)
    : Type 0 where
  pub waits : (second ≤ m.retry_delay) × (m.retry_delay ≤ 30 * second)
  pub forward : start ≤ m.wait_index
  pub good : Good m.current

-- The snapshots of the replies whose index is beyond those before it and whose bytes are valid, in order.
abbrev pub valid_built : {S : Type 0} → Option S → List S
valid_built none = []
valid_built (some s) = s ∷ []

abbrev pub valid_parsed : {P S : Type 0} → (P → Option S) → Option P → List S
valid_parsed build none = []
valid_parsed build (some p) = valid_built (build p)

unfoldable pub valid_snapshots :
    {D P S : Type 0} → (D → Option P) → (P → Option S) → ℕ → List (WatchReply D) → List S
valid_snapshots parse build index [] = []
valid_snapshots parse build index (watch_failed ∷ rs) = valid_snapshots parse build index rs
valid_snapshots parse build index (watched bytes modify_index ∷ rs) =
    let old = valid_snapshots parse build index rs in
    let new = valid_snapshots parse build modify_index rs in
    if leb modify_index index then old else valid_parsed build (parse bytes) ++ new

-- The last of a list, or the first argument.
abbrev pub newest : {S : Type 0} → S → List S → S
newest s [] = s
newest s (t ∷ ts) = newest t ts

newest-append :
    {S : Type 0} (s : S) (xs ys : List S) → newest (newest s xs) ys ≡ newest s (xs ++ ys)
newest-append s [] ys = refl
newest-append s (x ∷ xs) ys = newest-append x xs ys

module _ {D P S : Type 0} (parse : D → Option P) (build : P → Option S) (Good : S → Type 0)
    (builds : (bytes : D) (p : P) (s : S) → parse bytes ≡ some p → build p ≡ some s → Good s) where
  publish_built-Followed :
      (start : ℕ) (bytes : D) (p : P) (o : Option S) (m : RuntimeManager S)
      → parse bytes ≡ some p
      → build p ≡ o
      → Followed Good start m
      → Followed Good start (publish_built o m)
  publish_built-Followed start bytes p none m e f h = h
  publish_built-Followed start bytes p (some s) m e f h = record {
    waits = (omega arith, omega arith);
    forward = h.forward;
    good = builds bytes p s e f;
  }

  publish_parsed-Followed :
      (start : ℕ) (bytes : D) (o : Option P) (m : RuntimeManager S)
      → parse bytes ≡ o
      → Followed Good start m
      → Followed Good start (publish_parsed build o m)
  publish_parsed-Followed start bytes none m e h = h
  publish_parsed-Followed start bytes (some p) m e h =
      publish_built-Followed start bytes p (build p) m e refl h

  follow-Followed :
      (start : ℕ) (r : WatchReply D) (m : RuntimeManager S)
      → Followed Good start m
      → Followed Good start (follow parse build r m)
  unfolding follow
  follow-Followed start watch_failed m h =
      let low = h.waits.0 in
      let high = h.waits.1 in
      record { waits = (ground arith, ground arith); forward = h.forward; good = h.good }
  follow-Followed start (watched bytes modify_index) m h =
      if-cases (Followed Good start) (leb modify_index m.wait_index) m
        (publish_parsed build (parse bytes) (record m { wait_index = modify_index })) (λ _. h)
        λ newer.
          publish_parsed-Followed start bytes (parse bytes) (record m { wait_index = modify_index })
            refl
            (record {
              waits = h.waits;
              forward = (let a = h.forward in ground arith);
              good = h.good;
            })

  -- What a reply that is new does to the state.
  abbrev taken : D → ℕ → RuntimeManager S → RuntimeManager S
  taken bytes modify_index m =
      publish_parsed build (parse bytes) (record m { wait_index = modify_index })

  parsed_state :
      (o : Option P) (m : RuntimeManager S)
      → ((publish_parsed build o m).wait_index ≡ m.wait_index)
        × ((publish_parsed build o m).current ≡ newest m.current (valid_parsed build o))
  parsed_state none m = (refl, refl)
  parsed_state (some p) m = built (build p)
    where
      built :
          (o : Option S)
          → ((publish_built o m).wait_index ≡ m.wait_index)
            × ((publish_built o m).current ≡ newest m.current (valid_built o))
      built none = (refl, refl)
      built (some s) = (refl, refl)

  run-current :
      (rs : List (WatchReply D)) (m : RuntimeManager S)
      → (run parse build rs m).current
        ≡ newest m.current (valid_snapshots parse build m.wait_index rs)
  unfolding run follow valid_snapshots
  run-current [] m = refl
  run-current (watch_failed ∷ rs) m = run-current rs (follow parse build watch_failed m)
  run-current (watched bytes modify_index ∷ rs) m =
      if-cases2 (leb modify_index m.wait_index) (run-current rs m) (
        let (index, current) =
          parsed_state (parse bytes) (record m { wait_index = modify_index }) in
        run-current rs (taken bytes modify_index m)
        ∙ ap
            (λ c. newest c (valid_snapshots parse build (taken bytes modify_index m).wait_index rs))
            current
        ∙ ap
            (λ i.
              newest (newest m.current (valid_parsed build (parse bytes)))
                (valid_snapshots parse build i rs))
            index
        ∙ newest-append m.current (valid_parsed build (parse bytes))
            (valid_snapshots parse build modify_index rs))
    where
      if-cases2 :
          (b : Bool)
          → (run parse build rs m).current
            ≡ newest m.current (valid_snapshots parse build m.wait_index rs)
          → (run parse build rs (taken bytes modify_index m)).current
            ≡ newest m.current
                (valid_parsed build (parse bytes) ++ valid_snapshots parse build modify_index rs)
          → (run parse build rs (if b then m else taken bytes modify_index m)).current
            ≡ newest m.current (
                if b
                then valid_snapshots parse build m.wait_index rs
                else valid_parsed build (parse bytes)
                  ++ valid_snapshots parse build modify_index rs)
      if-cases2 true h k = h
      if-cases2 false h k = k

  run-Followed_from :
      (start : ℕ) (rs : List (WatchReply D)) (m : RuntimeManager S)
      → Followed Good start m
      → Followed Good start (run parse build rs m)
  unfolding run
  run-Followed_from start [] m h = h
  run-Followed_from start (r ∷ rs) m h =
      run-Followed_from start rs (follow parse build r m) (follow-Followed start r m h)

  -- Over every sequence of replies, for every parser and builder: the snapshot in the store at the end
  -- is the last one that a reply with a new index, parsed and built without error, has given, or the one
  -- at the start if there is none. And when every snapshot that they make of some bytes has a property
  -- and the state of the loop at the start does so too, with its delay between one second and thirty: so
  -- does the state at the end, however many replies were invalid or failed, and the index that it waits
  -- for has not gone back.
  pub run-Followed :
      (start : ℕ) (rs : List (WatchReply D)) (m : RuntimeManager S)
      → Followed Good start m
      → Followed Good start (run parse build rs m)
        × ((run parse build rs m).current
            ≡ newest m.current (valid_snapshots parse build m.wait_index rs))
  run-Followed start rs m h = (run-Followed_from start rs m h, run-current rs m)
