-- ===== src/Snowflake/Unique.antt =====
-- user/internal/idgen/snowflake.go: identifiers over many calls of `NextID`.
use Prim.Native.Nat.{bit_and}
use grpc_go_project.Prelude.{
  ℕ, zero, suc, ◌+◌, ◌-◌, ◌/◌, ◌%◌, ◌^◌, ◌≤◌, ◌<◌, ◌≡◌, ◌≢◌, refl, sym, subst, All, Option, none,
  some, List, [], ◌∷◌, ltb, arith, Bool-cases, inl, inr, ◌⊎◌, OnSome, if◌then◌else◌,
}
use grpc_go_project.Prelude.Int.{ℤ, pos, negsuc, pos_part, ◌<ℤ◌, ltb_ℤ}
use grpc_go_project.Prelude.Result.{Result, ok, err}
use grpc_go_project.Snowflake.{
  Snowflake, Outcome, IdError, max_node_id, sequence_mask, next_id, collect_ids, new_snowflake,
  emit_later, wait_until_next_milli,
}
use grpc_go_project.Snowflake.NextId.{InRange, InCapacity, Issued, Effect, pack, next_id-Effect}

-- The node number of a created generator is the one asked for; a refused one is outside 0..1023.
abbrev pub Created : ℤ → Result IdError Snowflake → Type 0
Created n (ok s) = InRange s × (pos s.node_id ≡ n)
Created n (err _) = (n <ℤ pos 0) ⊎ (pos max_node_id <ℤ n)

-- A generator for the node numbers 0 to 1023, and only for them, in range and with the number that was
-- asked for.
new_snowflake-Created : (n : ℤ) → Created n (new_snowflake n)
unfolding new_snowflake
new_snowflake-Created (negsuc m) = inl (omega arith)
new_snowflake-Created (pos m) = elim (Bool-cases (ltb max_node_id m)) [
  | inl outside ↦ rw outside (inr (ground arith))
  | inr inside ↦ rw inside (record { node_fits = ground arith; sequence_fits = omega arith }, refl)
]

-- Every identifier that the generator has issued lies below.
abbrev pub bound : Snowflake → ℕ
bound s =
    if ltb_ℤ s.last_millis (pos s.epoch_millis)
    then 0
    else suc (pack (pos_part s.last_millis - s.epoch_millis) s.node_id s.sequence)

-- Strictly increasing, from `lo` on.
abbrev pub Increasing : ℕ → List ℕ → Type 0
Increasing lo [] = Unit
Increasing lo (x ∷ xs) = (lo ≤ x) × Increasing (suc x) xs

Issued-bound :
    (s s' : Snowflake) (id : ℕ)
    → InRange s
    → Issued s id s'
    → (bound s ≤ id) × (bound s' ≡ suc id) × InRange s'
Issued-bound s s' id r i = (ground arith, ground arith, ground arith)

module _ (k : ℕ)
    (later : (s : Snowflake) (clock : List ℤ)
      → InRange s
      → All (InCapacity s) clock
      → Increasing (bound s) (collect_ids k s clock)) where
  collected :
      (s : Snowflake) (result : Result IdError ℕ) (after : Snowflake) (unread : List ℤ)
      → InRange s
      → Effect s (record { result = result; after = after; unread = unread })
      → All (InCapacity s) unread
      → Increasing (bound s) (elim result as (λ _. List ℕ) [
        | ok id ↦ id ∷ collect_ids k after unread
        | err _ ↦ collect_ids k after unread
      ])
  collected s (ok id) after unread r i c =
      let (above, next, r') = Issued-bound s after id r i in
      (
        above,
        subst (λ b. Increasing b (collect_ids k after unread)) next
            (later after unread r' (
              subst (λ e. All (λ now_millis. now_millis <ℤ pos (e + 2 ^ 41)) unread)
                (sym i.same_epoch) c)),
      )
  collected s (err e) after unread r i c =
      subst (λ s'. Increasing (bound s) (collect_ids k s' unread)) (sym i) (later s unread r c)

  collected_calls :
      (s : Snowflake) (called : Option Outcome)
      → InRange s
      → OnSome (λ o. Effect s o × All (InCapacity s) o.unread) called
      → Increasing (bound s) (elim called as (λ _. List ℕ) [
        | none ↦ []
        | some o ↦ elim o.result [
          | ok id ↦ id ∷ collect_ids k o.after o.unread
          | err _ ↦ collect_ids k o.after o.unread
        ]
      ])
  collected_calls s none r h = tt
  collected_calls s (some o) r h = collected s o.result o.after o.unread r h.0 h.1

-- From a generator in range, on readings within capacity, the identifiers of any number of calls
-- increase strictly, and all lie above those issued before.
pub collect_ids-Increasing :
    (k : ℕ) (s : Snowflake) (clock : List ℤ)
    → InRange s
    → All (InCapacity s) clock
    → Increasing (bound s) (collect_ids k s clock)
unfolding collect_ids
collect_ids-Increasing zero s clock r c = tt
collect_ids-Increasing (suc k) s clock r c =
    collected_calls k (collect_ids-Increasing k) s (next_id s clock) r (next_id-Effect s clock r c)

Effect-ok :
    (s : Snowflake) (o : Outcome) (id : ℕ) → Effect s o → o.result ≡ ok id → Issued s id o.after
Effect-ok s o id effect e =
    subst (λ r. Effect s (record { result = r; after = o.after; unread = o.unread })) e effect

Issued-layout :
    (s s' : Snowflake) (id : ℕ)
    → InRange s
    → Issued s id s'
    → (id < 2 ^ 63)
      × (id / 2 ^ 22 ≡ pos_part s'.last_millis - s.epoch_millis)
      × (id / 2 ^ 12 % 2 ^ 10 ≡ s.node_id)
      × (id % 2 ^ 12 ≡ s'.sequence)
Issued-layout s s' id r i = (ground arith, ground arith, ground arith, ground arith)

-- For a generator in range and a clock within capacity, the identifier that a call returns is not
-- negative as an int64, and its fields are the time that the call left in the generator, counted
-- from the epoch, the node number and the sequence number left in the generator.
pub next_id_fields :
    (s : Snowflake) (clock : List ℤ) (o : Outcome) (id : ℕ)
    → InRange s
    → All (InCapacity s) clock
    → next_id s clock ≡ some o
    → o.result ≡ ok id
    → (id < 2 ^ 63)
      × (id / 2 ^ 22 ≡ pos_part o.after.last_millis - s.epoch_millis)
      × (id / 2 ^ 12 % 2 ^ 10 ≡ s.node_id)
      × (id % 2 ^ 12 ≡ o.after.sequence)
next_id_fields s clock o id r c called e =
    let fine : OnSome (λ p. Effect s p × All (InCapacity s) p.unread) (some o) =
      subst (OnSome (λ p. Effect s p × All (InCapacity s) p.unread)) called
        (next_id-Effect s clock r c) in
    Issued-layout s o.after id r (Effect-ok s o id fine.0 e)

-- Two generators in range with different node numbers, each on a clock within its capacity, never
-- return the same identifier.
pub nodes_disjoint :
    (s t : Snowflake) (clock clock' : List ℤ) (o o' : Outcome) (a b : ℕ)
    → InRange s
    → InRange t
    → s.node_id ≢ t.node_id
    → All (InCapacity s) clock
    → All (InCapacity t) clock'
    → next_id s clock ≡ some o
    → next_id t clock' ≡ some o'
    → o.result ≡ ok a
    → o'.result ≡ ok b
    → a ≢ b
nodes_disjoint s t clock clock' o o' a b rs rt apart cs ct p q ea eb same =
    let left = (next_id_fields s clock o a rs cs p ea).2 in
    let right = (next_id_fields t clock' o' b rt ct q eb).2 in apart (omega arith)

-- Some reading is behind `last_millis`.
abbrev pub Advances : ℤ → List ℤ → Type 0
Advances last_millis [] = ⊥
Advances last_millis (r ∷ clock) = (last_millis <ℤ r) ⊎ Advances last_millis clock

wait_ends :
    (last_millis : ℤ) (clock : List ℤ)
    → Advances last_millis clock
    → wait_until_next_milli last_millis clock ≢ none
unfolding wait_until_next_milli
wait_ends last_millis [] h = absurd h
wait_ends last_millis (r ∷ clock) h = elim (Bool-cases (ltb_ℤ last_millis r)) [
  | inl later ↦ rw later (λ e. cc)
  | inr not_yet ↦
      rw not_yet
        (elim h [ inl later ↦ absurd (ground arith) | inr h' ↦ wait_ends last_millis clock h' ])
]

emit_later-ne-none : (s : Snowflake) (w : Option (ℤ × List ℤ)) → w ≢ none → emit_later s w ≢ none
unfolding emit_later
emit_later-ne-none s none h e = h refl
emit_later-ne-none s (some x) h e = cc

-- A call returns, with an identifier or an error, as soon as a later reading of its clock has passed
-- the last time of the generator.
pub next_id_returns :
    (s : Snowflake) (now_millis : ℤ) (clock : List ℤ)
    → Advances s.last_millis clock
    → next_id s (now_millis ∷ clock) ≢ none
unfolding next_id
next_id_returns s now_millis clock h = ground (
  arith,
  emit_later-ne-none (record s { sequence = bit_and (s.sequence + 1) sequence_mask })
      (wait_until_next_milli s.last_millis clock) (wait_ends s.last_millis clock h),
)
