-- ===== src/Scanner/Cursor.antt =====
-- web3/internal/service/scanner.go, where the cursor of a chain stands after its blocks were scanned.
use grpc_go_project.Prelude.{
  ℕ, zero, suc, ◌+◌, ◌-◌, ◌≡◌, refl, ap, subst, ◌∙◌, ◌⊎◌, inl, inr, Bool, true, false, Option, none,
  some, List, [], ◌∷◌, leb, leb→le, ◌%◌, ◌^◌, ◌<◌, ◌≤◌, if-cases, arith,
}
use grpc_go_project.Prelude.Int.{ℤ, to_int64}
use grpc_go_project.Prelude.Result.{Result, ok, err}
use grpc_go_project.Scanner.World.{ScanError, Node, World, Scan, bind_at, ◌>>◌}
use grpc_go_project.Scanner.Store.{save_cursor, statement}
use grpc_go_project.Scanner.Chain.{
  ScanSettings, scan_block, block_by_number, scan_number, ScanReport, counted, scan_blocks,
}
use grpc_go_project.Scanner.Steps.{scan_block-Extending}

-- After one block: the cursor is at the block if it was scanned without error, and where it was if not.
abbrev pub After : Option ℤ → ℕ → Result ScanError (Unit {0}) × World → Type 0
After start number (ok _, v) = v.cursor ≡ some (to_int64 number)
After start number (err _, v) = v.cursor ≡ start

bind_at-After :
    {A : Type 0} (start : Option ℤ) (number : ℕ) (r : Result ScanError A) (v : World)
    (f : A → Scan (Unit {0}))
    → v.cursor ≡ start
    → ((a : A) → After start number (f a v))
    → After start number (bind_at (r, v) f)
bind_at-After start number (ok a) v f e h = h a
bind_at-After start number (err x) v f e h = e

save_cursor-After :
    (start : Option ℤ) (number : ℕ) (v : World)
    → v.cursor ≡ start
    → After start number (save_cursor (to_int64 number) v)
unfolding save_cursor
save_cursor-After start number v e = statement_cases v.faults
  where
    statement_cases :
        (faults : List Bool)
        → After start number (
            statement
              (λ w. (ok tt, record w { cursor = some (to_int64 number) }))
              (record v { faults = faults }))
    statement_cases [] = refl
    statement_cases (true ∷ rest) = e
    statement_cases (false ∷ rest) = refl

-- Scanning one block moves the cursor to it, or fails and leaves the cursor alone.
pub scan_number-After :
    (node : Node) (s : ScanSettings) (latest number : ℕ) (w : World)
    → After w.cursor number (scan_number node s latest number w)
unfolding scan_number
scan_number-After node s latest number w =
    bind_at-After w.cursor number (block_by_number node number) w
      (λ block. scan_block node s latest block >> save_cursor (to_int64 number)) refl
      λ block.
        bind_at-After w.cursor number (scan_block node s latest block w).0
          (scan_block node s latest block w).1 (λ _. save_cursor (to_int64 number))
          (((scan_block-Extending node s latest block).at w).same_cursor)
          λ _.
            save_cursor-After w.cursor number (scan_block node s latest block w).1
              (((scan_block-Extending node s latest block).at w).same_cursor)

-- Where the cursor is when the blocks from `number` on were scanned, as many as processed.
abbrev pub cursor_after : Option ℤ → ℕ → ℕ → Option ℤ
cursor_after start number zero = start
cursor_after start number (suc k) = some (to_int64 (number + k))

pub record Progress (start : Option ℤ) (room head number : ℕ) (r : ScanReport × World)
    : Type 0 where
  pub within : r.0.processed ≤ room
  pub safe : (r.0.processed ≡ 0) ⊎ (number + r.0.processed ≤ head + 1)
  pub moved : r.1.cursor ≡ cursor_after start number r.0.processed
  pub complete : r.0.error ≡ none → (r.0.processed ≡ room) ⊎ (head < number + r.0.processed)

stopped :
    (room head number : ℕ) (e : ScanError) (w : World) (start : Option ℤ)
    → w.cursor ≡ start
    → Progress start room head number (record { processed = 0; error = some e }, w)
stopped room head number e w start h = record {
  within = omega arith;
  safe = inl refl;
  moved = h;
  complete = λ c. absurd (cc);
}

cursor_after-suc :
    (start : Option ℤ) (number k : ℕ)
    → cursor_after (some (to_int64 number)) (number + 1) k ≡ cursor_after start number (suc k)
cursor_after-suc start number zero = ap (λ n. some (to_int64 n)) (omega arith)
cursor_after-suc start number (suc k) = ap (λ n. some (to_int64 n)) (omega arith)

one_more :
    (start : Option ℤ) (room head number : ℕ) (r : ScanReport × World)
    → number ≤ head
    → Progress (some (to_int64 number)) room head (number + 1) r
    → Progress start (suc room) head number (record r.0 { processed = suc r.0.processed }, r.1)
one_more start room head number r le p = record {
  within = let a = p.within in omega arith;
  safe = let a = p.safe in ground arith;
  moved = p.moved ∙ cursor_after-suc start number r.0.processed;
  complete = λ e. elim (p.complete e) [ inl a ↦ inl (omega arith) | inr b ↦ inr (omega arith) ];
}

counted-Progress :
    (start : Option ℤ) (room head number : ℕ) (x : Result ScanError (Unit {0})) (v : World)
    (rest : World → ScanReport × World)
    → number ≤ head
    → After start number (x, v)
    → ((w : World) → Progress w.cursor room head (number + 1) (rest w))
    → Progress start (suc room) head number (counted (x, v) rest)
counted-Progress start room head number (err e) v rest le a h =
    stopped (suc room) head number e v start a
counted-Progress start room head number (ok _) v rest le a h =
    one_more start room head number (rest v) le
      (subst (λ c. Progress c room head (number + 1) (rest v)) a (h v))

-- The loop over the blocks of a batch, for a head below 2^64 - 1: it processes at most as many blocks
-- as there is room for and none above the head, the cursor is at the last block processed, and when
-- the loop ends without error then the batch is full or every block up to the head was processed.
pub scan_blocks-Progress :
    (node : Node) (s : ScanSettings) (latest head : ℕ)
    → head < 2 ^ 64 - 1
    → (room number : ℕ) (w : World)
    → Progress w.cursor room head number (scan_blocks room node s latest head number w)
unfolding scan_blocks
scan_blocks-Progress node s latest head small zero number w = record {
  within = omega arith;
  safe = inl refl;
  moved = refl;
  complete = λ e. inl refl;
}
scan_blocks-Progress node s latest head small (suc room) number w =
    if-cases (Progress w.cursor (suc room) head number) (leb number head)
      (counted (scan_number node s latest number w)
        (λ v. scan_blocks room node s latest head ((number + 1) % 2 ^ 64) v))
      (record { processed = 0; error = none }, w)
      (λ below.
        counted-Progress w.cursor room head number (scan_number node s latest number w).0
          (scan_number node s latest number w).1
          (λ v. scan_blocks room node s latest head ((number + 1) % 2 ^ 64) v)
          (leb→le number head below) (scan_number-After node s latest number w)
          λ v.
            subst
              (λ n.
                Progress v.cursor room head n
                  (scan_blocks room node s latest head ((number + 1) % 2 ^ 64) v))
              (let le = leb→le number head below in omega arith)
              (scan_blocks-Progress node s latest head small room ((number + 1) % 2 ^ 64) v))
      (λ above. record {
        within = omega arith;
        safe = inl refl;
        moved = refl;
        complete = λ e. inr (ground arith);
      })
