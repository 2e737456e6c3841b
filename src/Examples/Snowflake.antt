-- ===== src/Examples/Snowflake.antt =====
-- The identifier generator (user/internal/idgen/snowflake.go) on concrete clocks.
use grpc_go_project.Prelude.{
  ℕ, ◌+◌, ◌/◌, ◌%◌, ◌^◌, ◌<◌, ◌≡◌, ◌≢◌, refl, none, some, List, [], ◌∷◌, arith,
}
use grpc_go_project.Prelude.Int.{ℤ, pos, negsuc}
use grpc_go_project.Prelude.Result.{ok}
use grpc_go_project.Snowflake.{Snowflake, Outcome, next_id, collect_ids, default_epoch_millis}
use grpc_go_project.Snowflake.NextId.{pack}
use grpc_go_project.Snowflake.Unique.{
  Increasing, bound, collect_ids-Increasing, next_id_fields, nodes_disjoint, next_id_returns,
}
use grpc_go_project.Snowflake.Repeat.{capacity_error_repeats_id}

abbrev generator : ℕ → Snowflake
generator node = record {
  node_id = node;
  epoch_millis = default_epoch_millis;
  last_millis = negsuc 0;
  sequence = 0;
}

abbrev at : ℕ → ℤ
at ms = pos (default_epoch_millis + ms)

abbrev steady : List ℤ
steady = at 5 ∷ at 5 ∷ at 4 ∷ at 9 ∷ []

steady_ids : collect_ids 4 (generator 3) steady ≡ pack 5 3 0 ∷ pack 5 3 1 ∷ pack 9 3 0 ∷ []
unfolding collect_ids next_id
steady_ids = refl

-- The last sequence number of a millisecond makes the generator wait for the next one.
abbrev full : Snowflake
full = record {
  node_id = 3;
  epoch_millis = default_epoch_millis;
  last_millis = at 5;
  sequence = 4095;
}

full_waits :
    next_id full (at 5 ∷ at 5 ∷ at 6 ∷ [])
    ≡ some (record {
      result = ok (pack 6 3 0);
      after = record full { last_millis = at 6; sequence = 0 };
      unread = [];
    })
unfolding next_id
full_waits = refl

full_blocks : next_id full (at 5 ∷ at 5 ∷ []) ≡ none
unfolding next_id
full_blocks = refl

collect_ids-Increasing_example :
    Increasing (bound (generator 3)) (collect_ids 4 (generator 3) steady)
collect_ids-Increasing_example =
    collect_ids-Increasing 4 (generator 3) steady
      (record { node_fits = omega arith; sequence_fits = omega arith }) (omega arith)

abbrev served : ℕ → Outcome
served node = record {
  result = ok (pack 5 node 0);
  after = record {
    node_id = node;
    epoch_millis = default_epoch_millis;
    last_millis = at 5;
    sequence = 0;
  };
  unread = [];
}

served_lem :
    (next_id (generator 3) (at 5 ∷ []) ≡ some (served 3))
    × (next_id (generator 4) (at 5 ∷ []) ≡ some (served 4))
unfolding next_id
served_lem = (refl, refl)

next_id_fields_example :
    (pack 5 3 0 < 2 ^ 63)
    × (pack 5 3 0 / 2 ^ 22 ≡ 5)
    × (pack 5 3 0 / 2 ^ 12 % 2 ^ 10 ≡ 3)
    × (pack 5 3 0 % 2 ^ 12 ≡ 0)
next_id_fields_example =
    next_id_fields (generator 3) (at 5 ∷ []) (served 3) (pack 5 3 0)
      (record { node_fits = omega arith; sequence_fits = omega arith }) (omega arith) served_lem.0
      refl

nodes_disjoint_example : pack 5 3 0 ≢ pack 5 4 0
nodes_disjoint_example =
    nodes_disjoint (generator 3) (generator 4) (at 5 ∷ []) (at 5 ∷ []) (served 3) (served 4)
      (pack 5 3 0) (pack 5 4 0) (record { node_fits = omega arith; sequence_fits = omega arith })
      (record { node_fits = omega arith; sequence_fits = omega arith }) (omega arith) (omega arith)
      (omega arith) served_lem.0 served_lem.1 refl refl

next_id_returns_example : next_id full (at 5 ∷ at 5 ∷ at 6 ∷ []) ≢ none
next_id_returns_example = next_id_returns full (at 5) (at 5 ∷ at 6 ∷ []) (omega arith)

capacity_error_repeats_id_example :
    collect_ids 4 (generator 3) (at 7 ∷ at 7 ∷ at (2 ^ 41) ∷ at 7 ∷ [])
    ≡ pack 7 3 0 ∷ pack 7 3 1 ∷ pack 7 3 1 ∷ []
capacity_error_repeats_id_example =
    capacity_error_repeats_id (generator 3) (default_epoch_millis + 7)
      (default_epoch_millis + 2 ^ 41)
      (record { node_fits = omega arith; sequence_fits = omega arith }) (omega arith) (omega arith)
      (omega arith) (omega arith)
