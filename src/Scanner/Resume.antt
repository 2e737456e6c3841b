-- ===== src/Scanner/Resume.antt =====
-- web3/internal/service/scanner.go, what one call of `ScanChainOnce` does from a stored cursor.
use grpc_go_project.Prelude.{
  ℕ, zero, suc, ◌+◌, ◌-◌, ◌^◌, ◌≡◌, refl, sym, ap, subst, ◌∙◌, ◌⊎◌, inl, inr, Bool, true, false,
  not, Option, none, some, List, [], ◌∷◌, ltb, ◌≤◌, ◌<◌, arith, if-cases, if◌then◌else◌, OnSome,
}
use grpc_go_project.Prelude.Int.{ℤ, pos, negsuc, to_int64}
use grpc_go_project.Prelude.Result.{Result, ok, err}
use grpc_go_project.Scanner.World.{ScanError, chain_disabled, Node, World, bind_at}
use grpc_go_project.Scanner.Store.{get_cursor, statement}
use grpc_go_project.Scanner.Chain.{
  ScanSettings, safe_head, Next, at_block, initialized, resume, next_block, ScanReport, scan_blocks,
  from_next, with_head, scan_chain_once,
}
use grpc_go_project.Scanner.Cursor.{Progress, cursor_after, scan_blocks-Progress}

-- The next block after a cursor: the one after it, and the cursor stays.
abbrev Continues : ℕ → Result ScanError Next × World → Type 0
Continues c (ok (at_block n), v) = (n ≡ c + 1) × (v.cursor ≡ some (pos c))
Continues c (ok initialized, v) = ⊥
Continues c (err e, v) = v.cursor ≡ some (pos c)

resume_at :
    (node : Node) (s : ScanSettings) (head c : ℕ) (stored : Option ℤ) (v : World)
    → stored ≡ some (pos c)
    → v.cursor ≡ stored
    → Continues c (resume node s head stored v)
resume_at node s head c none v e h = absurd (cc)
resume_at node s head c (some (pos n)) v e h = (cc, h ∙ e)
resume_at node s head c (some (negsuc n)) v e h = absurd (cc)

next_block-Continues :
    (node : Node) (s : ScanSettings) (head c : ℕ) (w : World)
    → w.cursor ≡ some (pos c)
    → Continues c (next_block node s head w)
unfolding next_block get_cursor
next_block-Continues node s head c w h = statement_cases w.faults
  where
    statement_cases :
        (faults : List Bool)
        → Continues c (
            bind_at
              (statement (λ v. (ok v.cursor, v)) (record w { faults = faults }))
              (resume node s head))
    statement_cases [] = resume_at node s head c w.cursor (record w { faults = [] }) h refl
    statement_cases (true ∷ rest) = h
    statement_cases (false ∷ rest) =
        resume_at node s head c w.cursor (record w { faults = rest }) h refl

-- The last block that is safe to scan has the confirmations required, counting itself.
pub safe_head-OnSome :
    (required latest : ℕ)
    → OnSome (λ head. (head ≤ latest) × (required + head ≤ latest + 1)) (safe_head required latest)
unfolding safe_head
safe_head-OnSome required latest =
    if-cases (OnSome (λ head. (head ≤ latest) × (required + head ≤ latest + 1))) (ltb 1 required)
      (if ltb latest (required - 1) then none else some (latest - (required - 1))) (some latest)
      (λ more.
        if-cases (OnSome (λ head. (head ≤ latest) × (required + head ≤ latest + 1)))
          (ltb latest (required - 1)) none (some (latest - (required - 1))) (λ short. tt)
          (λ deep. (omega arith, ground arith)))
      (λ one. (omega arith, ground arith))

-- What a scan from the cursor c did.
pub record Resumed (s : ScanSettings) (latest c : ℕ) (r : ScanReport × World) : Type 0 where
  pub moved : r.1.cursor ≡ some (pos (c + r.0.processed))
  pub within : r.0.processed ≤ s.batch_size
  pub deep :
      (r.0.processed ≡ 0)
      ⊎ ((c + r.0.processed ≤ latest) × (s.required_confirmations + c + r.0.processed ≤ latest + 1))

still :
    (s : ScanSettings) (latest c : ℕ) (e : Option ScanError) (w : World)
    → w.cursor ≡ some (pos c)
    → Resumed s latest c (record { processed = 0; error = e }, w)
still s latest c e w h = record {
  moved = h ∙ ap (λ n. some (pos n)) (omega arith);
  within = omega arith;
  deep = inl refl;
}

to_int64_small : (n : ℕ) → n < 2 ^ 63 → to_int64 n ≡ pos n
to_int64_small n h =
    if-cases (λ z. z ≡ pos n) (ltb n (2 ^ 63)) (pos n) (negsuc (2 ^ 64 - 1 - n)) (λ yes. refl)
      (λ no. absurd (ground arith))

cursor_after_small :
    (c k head : ℕ)
    → head < 2 ^ 63
    → (k ≡ 0) ⊎ (c + 1 + k ≤ head + 1)
    → cursor_after (some (pos c)) (c + 1) k ≡ some (pos (c + k))
cursor_after_small c zero head small h = ap (λ n. some (pos n)) (omega arith)
cursor_after_small c (suc k) head small (inl h) = absurd (omega arith)
cursor_after_small c (suc k) head small (inr h) =
    ap (λ z. some z) (to_int64_small (c + 1 + k) (omega arith) ∙ ap (λ n. pos n) (omega arith))

Progress-resumes :
    (s : ScanSettings) (latest head c : ℕ) (start : Option ℤ) (r : ScanReport × World)
    → latest < 2 ^ 63
    → (head ≤ latest) × (s.required_confirmations + head ≤ latest + 1)
    → start ≡ some (pos c)
    → Progress start s.batch_size head (c + 1) r
    → Resumed s latest c r
Progress-resumes s latest head c start r small bound e p = record {
  moved =
      p.moved
      ∙ ap (λ z. cursor_after z (c + 1) r.0.processed) e
      ∙ cursor_after_small c r.0.processed head (let a = bound.0 in omega arith) p.safe;
  within = p.within;
  deep = elim p.safe [
    | inl a ↦ inl a
    | inr b ↦ let l = bound.0 in let d = bound.1 in inr (omega arith, omega arith)
  ];
}

from_next-Resumed :
    (node : Node) (s : ScanSettings) (latest head c : ℕ) (x : Result ScanError Next) (v : World)
    → latest < 2 ^ 63
    → (head ≤ latest) × (s.required_confirmations + head ≤ latest + 1)
    → Continues c (x, v)
    → Resumed s latest c (from_next node s latest head (x, v))
from_next-Resumed node s latest head c (err e) v small bound h = still s latest c (some e) v h
from_next-Resumed node s latest head c (ok initialized) v small bound h = absurd h
from_next-Resumed node s latest head c (ok (at_block n)) v small bound h =
    Progress-resumes s latest head c v.cursor (scan_blocks s.batch_size node s latest head n v)
      small bound h.1
      (subst
        (λ m.
          Progress v.cursor s.batch_size head m (scan_blocks s.batch_size node s latest head n v))
        h.0
        (scan_blocks-Progress node s latest head (let a = bound.0 in omega arith) s.batch_size n v))

with_head-Resumed :
    (node : Node) (s : ScanSettings) (latest c : ℕ) (head : Option ℕ) (w : World)
    → latest < 2 ^ 63
    → OnSome (λ h. (h ≤ latest) × (s.required_confirmations + h ≤ latest + 1)) head
    → w.cursor ≡ some (pos c)
    → Resumed s latest c (with_head node s latest head w)
with_head-Resumed node s latest c none w small bound e = still s latest c none w e
with_head-Resumed node s latest c (some head) w small bound e =
    from_next-Resumed node s latest head c (next_block node s head w).0 (next_block node s head w).1
      small bound (next_block-Continues node s head c w e)

-- A scan of an enabled chain from the cursor c, while the node is at a height below 2^63: the cursor
-- moves by exactly the number of blocks that the scan reports, with an error or without, they are no
-- more than a batch, and each of them is mined and has the confirmations that the chain requires.
pub scan_chain_once-Resumed :
    (node : Node) (s : ScanSettings) (latest c : ℕ) (w : World)
    → s.enabled ≡ true
    → node.block_number ≡ ok latest
    → latest < 2 ^ 63
    → w.cursor ≡ some (pos c)
    → Resumed s latest c (scan_chain_once node s w)
unfolding scan_chain_once
scan_chain_once-Resumed node s latest c w on at small e =
    if-cases (Resumed s latest c) (not s.enabled)
      (record { processed = 0; error = some chain_disabled }, w)
      (elim node.block_number [
        | err x ↦ (record { processed = 0; error = some x }, w)
        | ok l ↦ with_head node s l (safe_head s.required_confirmations l) w
      ])
      (λ off. still s latest c (some chain_disabled) w e)
      λ _.
        subst
          (λ answer. Resumed s latest c (elim answer [
            | err x ↦ (record { processed = 0; error = some x }, w)
            | ok l ↦ with_head node s l (safe_head s.required_confirmations l) w
          ]))
          (sym at)
          (with_head-Resumed node s latest c (safe_head s.required_confirmations latest) w small
            (safe_head-OnSome s.required_confirmations latest) e)
