-- ===== src/Snowflake.antt =====
-- user/internal/idgen/snowflake.go: the generator of 63-bit identifiers from a millisecond clock, a
-- node number and a sequence number. Every `s.now()` takes the next reading of an explicit list;
-- `none` says that the readings ended while the goroutine still waits in `waitUntilNextMilli`.
pub mod NextId
pub mod Unique
pub mod Repeat
use Prim.Native.Nat.{bit_and, bit_or}
use grpc_go_project.Prelude.{
  ℕ, zero, suc, ◌+◌, ◌-◌, ◌*◌, ◌%◌, ◌^◌, Option, none, some, List, [], ◌∷◌, ltb, ◌==◌,
  if◌then◌else◌,
}
use grpc_go_project.Prelude.Int.{ℤ, pos, negsuc, ◌-ℤ◌, ltb_ℤ, leb_ℤ, eqb_ℤ, to_u64}
use grpc_go_project.Prelude.Result.{Result, ok, err}

abbrev pub node_bits : ℕ
node_bits = 10

abbrev pub sequence_bits : ℕ
sequence_bits = 12

abbrev pub max_node_id : ℕ
max_node_id = 2 ^ node_bits - 1

abbrev pub sequence_mask : ℕ
sequence_mask = 2 ^ sequence_bits - 1

abbrev pub node_shift : ℕ
node_shift = sequence_bits

abbrev pub time_shift : ℕ
time_shift = node_bits + sequence_bits

-- 2026-01-01T00:00:00Z
abbrev pub default_epoch_millis : ℕ
default_epoch_millis = 1767225600000

pub data IdError : Type 0 where
  node_out_of_range before_epoch clock_backwards capacity_exhausted : IdError

pub record Snowflake : Type 0 where
  pub node_id : ℕ
  pub epoch_millis : ℕ
  pub last_millis : ℤ
  pub sequence : ℕ

-- What a call of `NextID` leaves: its result, the generator and the readings not yet taken.
pub record Outcome : Type 0 where
  pub result : Result IdError ℕ
  pub after : Snowflake
  pub unread : List ℤ

unfoldable pub new_snowflake : ℤ → Result IdError Snowflake
new_snowflake (negsuc _) = err node_out_of_range
new_snowflake (pos node_id) =
    if ltb max_node_id node_id
    then err node_out_of_range
    else ok (record {
      node_id = node_id;
      epoch_millis = default_epoch_millis;
      last_millis = negsuc 0;
      sequence = 0;
    })

-- An int64 shifted left, as the uint64 of its bits.
abbrev pub shl64 : ℕ → ℕ → ℕ
shl64 x k = x * 2 ^ k % 2 ^ 64

-- The part of `NextID` behind the sequence number: `now_millis` may come from the wait.
unfoldable pub emit : Snowflake → ℤ → List ℤ → Outcome
emit s now_millis unread =
    let timestamp = now_millis -ℤ pos s.epoch_millis in
    if leb_ℤ (pos (2 ^ 41)) timestamp
    then record { result = err capacity_exhausted; after = s; unread = unread }
    else record {
      result = ok (
          bit_or (bit_or (shl64 (to_u64 timestamp) time_shift) (shl64 s.node_id node_shift))
            s.sequence);
      after = record s { last_millis = now_millis };
      unread = unread;
    }

-- `waitUntilNextMilli`: the first reading behind `last_millis`, and the readings behind it.
unfoldable pub wait_until_next_milli : ℤ → List ℤ → Option (ℤ × List ℤ)
wait_until_next_milli last_millis [] = none
wait_until_next_milli last_millis (now_millis ∷ clock) =
    let again = wait_until_next_milli last_millis clock in
    if ltb_ℤ last_millis now_millis then some (now_millis, clock) else again

unfoldable pub emit_later : Snowflake → Option (ℤ × List ℤ) → Option Outcome
unfolding emit
emit_later s none = none
emit_later s (some (now_millis, clock)) = some (emit s now_millis clock)

unfoldable pub next_id : Snowflake → List ℤ → Option Outcome
unfolding emit emit_later wait_until_next_milli
next_id s [] = none
next_id s (now_millis ∷ clock) =
    if ltb_ℤ now_millis (pos s.epoch_millis)
    then some (record { result = err before_epoch; after = s; unread = clock })
    else if ltb_ℤ now_millis s.last_millis
    then some (record { result = err clock_backwards; after = s; unread = clock })
    else if eqb_ℤ now_millis s.last_millis
    then (let s' = record s { sequence = bit_and (s.sequence + 1) sequence_mask } in
        if s'.sequence == 0
        then emit_later s' (wait_until_next_milli s.last_millis clock)
        else some (emit s' now_millis clock))
    else some (emit (record s { sequence = 0 }) now_millis clock)

-- The identifiers that up to `k` calls of `NextID` return, one call behind the other, on one clock.
unfoldable pub collect_ids : ℕ → Snowflake → List ℤ → List ℕ
collect_ids zero s clock = []
collect_ids (suc k) s clock = elim (next_id s clock) [
  | none ↦ []
  | some o ↦ elim o.result [
    | ok id ↦ id ∷ collect_ids k o.after o.unread
    | err _ ↦ collect_ids k o.after o.unread
  ]
]
