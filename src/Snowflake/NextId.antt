-- ===== src/Snowflake/NextId.antt =====
-- user/internal/idgen/snowflake.go: what one call of `NextID` does to a generator in range.
use Prim.Native.Nat.{bit_and, bit_or}
use grpc_go_project.Prelude.{
  ℕ, ◌+◌, ◌-◌, ◌*◌, ◌%◌, ◌^◌, ◌≤◌, ◌<◌, ◌≡◌, refl, subst, All, false, Option, none, some, List, [],
  ◌∷◌, ◌==◌, arith, Bool-cases, inl, inr, ◌⊎◌, OnSome, if◌then◌else◌,
}
use grpc_go_project.Prelude.Int.{ℤ, pos, negsuc, pos_part, ◌≤ℤ◌, ◌<ℤ◌, ltb_ℤ, eqb_ℤ}
use grpc_go_project.Prelude.Bits.{bit_or_fields, bit_and_fields}
use grpc_go_project.Prelude.Result.{ok, err}
use grpc_go_project.Snowflake.{
  Snowflake, Outcome, max_node_id, sequence_mask, emit, emit_later, next_id, wait_until_next_milli,
  shl64,
}

-- The layout of an identifier: 41 bits of time, 10 of node, 12 of sequence.
abbrev pub pack : ℕ → ℕ → ℕ → ℕ
pack timestamp node_id sequence = timestamp * 2 ^ 22 + node_id * 2 ^ 12 + sequence

-- The fields of a generator fit the layout.
pub record InRange (s : Snowflake) : Type 0 where
  pub node_fits : s.node_id ≤ max_node_id
  pub sequence_fits : s.sequence ≤ sequence_mask

fields_fit :
    (t n q : ℕ)
    → t < 2 ^ 41
    → n ≤ max_node_id
    → q ≤ sequence_mask
    → bit_or (bit_or (shl64 (t % 2 ^ 64) 22) (shl64 n 12)) q ≡ pack t n q
fields_fit t n q ht hn hq =
    let time : shl64 (t % 2 ^ 64) 22 ≡ t * 2 ^ 22 = omega arith in
    let node : shl64 n 12 ≡ n * 2 ^ 12 = omega arith in
    let joined : t * 2 ^ 22 + n * 2 ^ 12 ≡ (t * 2 ^ 10 + n) * 2 ^ 12 = omega arith in
    rw (time, node, bit_or_fields 22 t (n * 2 ^ 12) (omega arith), joined)
      (bit_or_fields 12 (t * 2 ^ 10 + n) q (omega arith))

pub emit_lem :
    (s : Snowflake) (m : ℕ) (unread : List ℤ)
    → InRange s
    → s.epoch_millis ≤ m
    → m < s.epoch_millis + 2 ^ 41
    → emit s (pos m) unread ≡ record {
      result = ok (pack (m - s.epoch_millis) s.node_id s.sequence);
      after = record s { last_millis = pos m };
      unread = unread;
    }
unfolding emit
emit_lem s m unread r late early = ground (
  arith,
  fields_fit (m - s.epoch_millis) s.node_id s.sequence (omega arith) r.node_fits r.sequence_fits,
)

masked : (q : ℕ) → q < sequence_mask → bit_and (q + 1) sequence_mask ≡ q + 1
masked q h =
    let alone : 0 * 2 ^ 12 + (q + 1) ≡ q + 1 = omega arith in
    subst (λ x. bit_and x sequence_mask ≡ q + 1) alone
      (bit_and_fields 12 0 (q + 1) sequence_mask refl (omega arith))

-- The next sequence number is in range, and it is 0 only behind the last one.
next_sequence :
    (q : ℕ)
    → q ≤ sequence_mask
    → (bit_and (q + 1) sequence_mask ≡ 0)
      ⊎ ((q < bit_and (q + 1) sequence_mask) × (bit_and (q + 1) sequence_mask ≤ sequence_mask))
next_sequence q h = elim (Bool-cases (q == sequence_mask)) [
  | inl e ↦ let last : q ≡ sequence_mask = ground arith in inl (rw last)
  | inr e ↦ inr (rw (masked q (ground arith)) (ground arith))
]

-- A reading that does not exhaust the 41 bits of time.
abbrev pub InCapacity : Snowflake → ℤ → Type 0
InCapacity s now_millis = now_millis <ℤ pos (s.epoch_millis + 2 ^ 41)

-- What a call that returns `id` has done to the generator.
pub record Issued (s : Snowflake) (id : ℕ) (s' : Snowflake) : Type 0 where
  pub same_node : s'.node_id ≡ s.node_id
  pub same_epoch : s'.epoch_millis ≡ s.epoch_millis
  pub late : pos s.epoch_millis ≤ℤ s'.last_millis
  pub early : InCapacity s s'.last_millis
  pub sequence_fits : s'.sequence ≤ sequence_mask
  pub layout : id ≡ pack (pos_part s'.last_millis - s.epoch_millis) s.node_id s'.sequence
  pub newer :
      (s.last_millis <ℤ s'.last_millis)
      ⊎ ((s.last_millis ≡ s'.last_millis) × (s.sequence < s'.sequence))

-- What a call leaves: an identifier and a newer state, or an error and the state as it was.
abbrev pub Effect : Snowflake → Outcome → Type 0
Effect s o = elim o.result [ ok id ↦ Issued s id o.after | err _ ↦ o.after ≡ s ]

emit-Effect :
    (s : Snowflake) (q : ℕ) (now_millis : ℤ) (unread : List ℤ)
    → InRange s
    → q ≤ sequence_mask
    → pos s.epoch_millis ≤ℤ now_millis
    → InCapacity s now_millis
    → (s.last_millis <ℤ now_millis) ⊎ ((s.last_millis ≡ now_millis) × (s.sequence < q))
    → Effect s (emit (record s { sequence = q }) now_millis unread)
      × ((emit (record s { sequence = q }) now_millis unread).unread ≡ unread)
emit-Effect s q (negsuc m) unread r fits late early newer = absurd (omega arith)
emit-Effect s q (pos m) unread r fits late early newer =
    rw
      (emit_lem (record s { sequence = q }) m unread
        (record { node_fits = r.node_fits; sequence_fits = fits }) (omega arith) (omega arith))
      (
        record {
          same_node = refl;
          same_epoch = refl;
          late = late;
          early = early;
          sequence_fits = fits;
          layout = refl;
          newer = newer;
        },
        refl,
      )

emit_later-Effect :
    (s : Snowflake) (q : ℕ) (waited : Option (ℤ × List ℤ))
    → InRange s
    → q ≤ sequence_mask
    → pos s.epoch_millis ≤ℤ s.last_millis
    → OnSome
        (λ (w : ℤ × List ℤ). (s.last_millis <ℤ w.0) × InCapacity s w.0 × All (InCapacity s) w.1)
        waited
    → OnSome
        (λ o. Effect s o × All (InCapacity s) o.unread)
        (emit_later (record s { sequence = q }) waited)
unfolding emit_later
emit_later-Effect s q none r fits late h = tt
emit_later-Effect s q (some (now_millis, clock)) r fits late h =
    let (effect, same) = emit-Effect s q now_millis clock r fits (omega arith) h.1 (inl h.0) in
    (effect, rw same h.2)

emit_fine :
    (s : Snowflake) (q : ℕ) (now_millis : ℤ) (clock : List ℤ)
    → InRange s
    → q ≤ sequence_mask
    → pos s.epoch_millis ≤ℤ now_millis
    → InCapacity s now_millis
    → (s.last_millis <ℤ now_millis) ⊎ ((s.last_millis ≡ now_millis) × (s.sequence < q))
    → All (InCapacity s) clock
    → Effect s (emit (record s { sequence = q }) now_millis clock)
      × All (InCapacity s) (emit (record s { sequence = q }) now_millis clock).unread
emit_fine s q now_millis clock r fits late early newer c =
    let (effect, same) = emit-Effect s q now_millis clock r fits late early newer in
    (effect, rw same c)

waits :
    (s : Snowflake) (last_millis : ℤ) (clock : List ℤ)
    → All (InCapacity s) clock
    → OnSome
        (λ (w : ℤ × List ℤ). (last_millis <ℤ w.0) × InCapacity s w.0 × All (InCapacity s) w.1)
        (wait_until_next_milli last_millis clock)
unfolding wait_until_next_milli
waits s last_millis [] c = tt
waits s last_millis (r ∷ clock) (cr, c) = elim (Bool-cases (ltb_ℤ last_millis r)) [
  | inl later ↦ rw later (ground arith, cr, c)
  | inr not_yet ↦ rw not_yet (waits s last_millis clock c)
]

-- The branch of `NextID` for a reading equal to `last_millis`.
same_milli :
    (s : Snowflake) (now_millis : ℤ) (clock : List ℤ)
    → InRange s
    → pos s.epoch_millis ≤ℤ now_millis
    → InCapacity s now_millis
    → s.last_millis ≡ now_millis
    → All (InCapacity s) clock
    → OnSome
        (λ o. Effect s o × All (InCapacity s) o.unread)
        (let s' = record s { sequence = bit_and (s.sequence + 1) sequence_mask } in
          if s'.sequence == 0
          then emit_later s' (wait_until_next_milli s.last_millis clock)
          else some (emit s' now_millis clock))
same_milli s now_millis clock r late early same c =
    elim (next_sequence s.sequence r.sequence_fits) [
      | inl full ↦ rw full (
          emit_later-Effect s 0 (wait_until_next_milli s.last_millis clock) r (omega arith)
            (rw same late) (waits s s.last_millis clock c))
      | inr room ↦ rw (nonzero _ room.0) (
          emit_fine s (bit_and (s.sequence + 1) sequence_mask) now_millis clock r room.1 late early
            (inr (same, room.0)) c)
    ]
  where
    nonzero : (q : ℕ) → s.sequence < q → (q == 0) ≡ false
    nonzero q h = ground arith

-- A call on readings within capacity issues an identifier, or refuses and changes nothing.
pub next_id-Effect :
    (s : Snowflake) (clock : List ℤ)
    → InRange s
    → All (InCapacity s) clock
    → OnSome (λ o. Effect s o × All (InCapacity s) o.unread) (next_id s clock)
unfolding next_id
next_id-Effect s [] r c = tt
next_id-Effect s (now_millis ∷ clock) r (cn, c) =
    elim (Bool-cases (ltb_ℤ now_millis (pos s.epoch_millis))) [
      | inl early ↦ rw early (refl, c)
      | inr late ↦ rw late (elim (Bool-cases (ltb_ℤ now_millis s.last_millis)) [
        | inl back ↦ rw back (refl, c)
        | inr onward ↦ rw onward (elim (Bool-cases (eqb_ℤ now_millis s.last_millis)) [
          | inl same ↦ rw same (same_milli s now_millis clock r (ground arith) cn (ground arith) c)
          | inr later ↦ rw later (
              emit_fine s 0 now_millis clock r (omega arith) (ground arith) cn (inl (ground arith))
                c)
        ])
      ])
    ]
