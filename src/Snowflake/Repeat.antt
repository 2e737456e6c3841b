-- ===== src/Snowflake/Repeat.antt =====
-- user/internal/idgen/snowflake.go: the error for an exhausted
-- time field resets the sequence number and keeps the old time, so the next call in that
-- millisecond issues an identifier again.
use grpc_go_project.Prelude.{
  ℕ, suc, ◌+◌, ◌-◌, ◌^◌, ◌≤◌, ◌<◌, ◌≡◌, refl, ap, ◌∙◌, some, List, [], ◌∷◌, arith,
}
use grpc_go_project.Prelude.Int.{ℤ, pos, ◌<ℤ◌}
use grpc_go_project.Prelude.Result.{ok, err}
use grpc_go_project.Snowflake.{Snowflake, IdError, next_id, collect_ids, capacity_exhausted, emit}
use grpc_go_project.Snowflake.NextId.{InRange, pack, emit_lem}

module _ (s : Snowflake) (m c : ℕ) (clock : List ℤ) (r : InRange s) (late : s.epoch_millis ≤ m)
    (early : m < s.epoch_millis + 2 ^ 41) where
  first_call :
      s.last_millis <ℤ pos m
      → next_id s (pos m ∷ clock)
        ≡ some (record {
          result = ok (pack (m - s.epoch_millis) s.node_id 0);
          after = record s { last_millis = pos m; sequence = 0 };
          unread = clock;
        })
  unfolding next_id
  first_call h = ground (
    arith,
    emit_lem (record s { sequence = 0 }) m clock
        (record { node_fits = r.node_fits; sequence_fits = omega arith }) late early,
  )

  second_call :
      s.last_millis ≡ pos m
      → s.sequence ≡ 0
      → next_id s (pos m ∷ clock)
        ≡ some (record {
          result = ok (pack (m - s.epoch_millis) s.node_id 1);
          after = record s { sequence = 1 };
          unread = clock;
        })
  unfolding next_id
  second_call h q =
      rw (h, q)
        (ground (
          arith,
          emit_lem (record s { sequence = 1 }) m clock
              (record { node_fits = r.node_fits; sequence_fits = omega arith }) late early,
        ))

  exhausted_call :
      s.last_millis ≡ pos m
      → s.epoch_millis + 2 ^ 41 ≤ c
      → next_id s (pos c ∷ clock)
        ≡ some (record {
          result = err capacity_exhausted;
          after = record s { sequence = 0 };
          unread = clock;
        })
  unfolding next_id emit
  exhausted_call h late_c = rw h (ground arith)

collect-ok :
    (k : ℕ) (s : Snowflake) (clock : List ℤ) {id : ℕ} {after : Snowflake} {unread : List ℤ}
    → next_id s clock ≡ some (record { result = ok id; after = after; unread = unread })
    → collect_ids (suc k) s clock ≡ id ∷ collect_ids k after unread
unfolding collect_ids
collect-ok k s clock e = rw (e, collect_ids)

collect-err :
    (k : ℕ) (s : Snowflake) (clock : List ℤ) {e : IdError} {after : Snowflake} {unread : List ℤ}
    → next_id s clock ≡ some (record { result = err e; after = after; unread = unread })
    → collect_ids (suc k) s clock ≡ collect_ids k after unread
unfolding collect_ids
collect-err k s clock e = rw (e, collect_ids)

-- Four calls read the clock at m, m, c and m, where m is within capacity and behind the generator's
-- last time, and c is past the capacity. The third fails, and the fourth returns the identifier of
-- the second again, although the clock has moved back from c to m.
pub capacity_error_repeats_id :
    (s : Snowflake) (m c : ℕ)
    → InRange s
    → s.epoch_millis ≤ m
    → m < s.epoch_millis + 2 ^ 41
    → s.last_millis <ℤ pos m
    → s.epoch_millis + 2 ^ 41 ≤ c
    → collect_ids 4 s (pos m ∷ pos m ∷ pos c ∷ pos m ∷ [])
      ≡ pack (m - s.epoch_millis) s.node_id 0
        ∷ pack (m - s.epoch_millis) s.node_id 1
        ∷ pack (m - s.epoch_millis) s.node_id 1
        ∷ []
unfolding collect_ids
capacity_error_repeats_id s m c r late early before past =
    let s1 = record s { last_millis = pos m; sequence = 0 } in
    let s2 = record s { last_millis = pos m; sequence = 1 } in
    let r1 : InRange s1 = record { node_fits = r.node_fits; sequence_fits = omega arith } in
    let r2 : InRange s2 = record { node_fits = r.node_fits; sequence_fits = omega arith } in
    collect-ok 3 s (pos m ∷ pos m ∷ pos c ∷ pos m ∷ [])
      (first_call s m c (pos m ∷ pos c ∷ pos m ∷ []) r late early before)
    ∙ ap (λ ids. pack (m - s.epoch_millis) s.node_id 0 ∷ ids)
        (collect-ok 2 s1 (pos m ∷ pos c ∷ pos m ∷ [])
            (second_call s1 m c (pos c ∷ pos m ∷ []) r1 late early refl refl)
          ∙ ap (λ ids. pack (m - s.epoch_millis) s.node_id 1 ∷ ids)
              (collect-err 1 s2 (pos c ∷ pos m ∷ [])
                  (exhausted_call s2 m c (pos m ∷ []) r2 late early refl past)
                ∙ collect-ok 0 s1 (pos m ∷ []) (second_call s1 m c [] r1 late early refl refl)))
