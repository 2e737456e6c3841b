-- ===== src/Scanner/Chain.antt =====
-- web3/internal/service/scanner.go, from the cursor of a chain to the blocks that are scanned.
use grpc_go_project.Prelude.{
  ℕ, zero, suc, ◌+◌, ◌-◌, ◌%◌, ◌^◌, Bool, not, Option, none, some, ltb, leb, if◌then◌else◌,
}
use grpc_go_project.Prelude.Int.{ℤ, pos, negsuc, to_int64}
use grpc_go_project.Prelude.Result.{Result, ok, err}
use grpc_go_project.Scanner.World.{
  Block, ScanError, chain_disabled, block_not_found, invalid_cursor, Node, World, Scan, pure, raise,
  lift, ◌>>=◌, ◌>>◌, for_each,
}
use grpc_go_project.Scanner.Store.{get_cursor, save_cursor}
use grpc_go_project.Scanner.Native.{scan_transaction}
use grpc_go_project.Scanner.Transfer.{scan_erc20_transfers}

-- The settings of a scan: of the chain, and of `ScannerConfig`.
pub record ScanSettings : Type 0 where
  pub chain_id : ℕ
  pub enabled : Bool
  pub required_confirmations : ℕ
  pub batch_size : ℕ
  pub start_block : ℕ
  pub transfer_topic : ℕ

-- `scanBlock`
unfoldable pub scan_block : Node → ScanSettings → ℕ → Block → Scan (Unit {0})
scan_block node s latest block = do
  for_each (scan_transaction node s.chain_id latest block) block.transactions
  scan_erc20_transfers node s.transfer_topic s.chain_id latest block

-- `blockByNumber`
unfoldable pub block_by_number : Node → ℕ → Result ScanError Block
block_by_number node number = elim (node.block_by_number number) [
  | err e ↦ err e
  | ok none ↦ err block_not_found
  | ok (some block) ↦ ok block
]

-- The last block with enough confirmations, a block being its own first one; none if there is none.
unfoldable pub safe_head : ℕ → ℕ → Option ℕ
safe_head required latest =
    if ltb 1 required
    then (if ltb latest (required - 1) then none else some (latest - (required - 1)))
    else some latest

-- Where the scan goes on: at a block, or at the next call since the cursor was only initialised.
pub data Next : Type 0 where
  at_block : ℕ → Next
  initialized : Next

abbrev pub first_scan : Node → ScanSettings → ℕ → Scan Next
first_scan node s head =
    if ltb 0 s.start_block
    then pure (at_block s.start_block)
    else (do _ ← lift (block_by_number node head); save_cursor (to_int64 head); pure initialized)

abbrev pub resume : Node → ScanSettings → ℕ → Option ℤ → Scan Next
resume node s head none = first_scan node s head
resume node s head (some (pos n)) = pure (at_block (n + 1))
resume node s head (some (negsuc _)) = raise invalid_cursor

-- `nextBlock`
unfoldable pub next_block : Node → ScanSettings → ℕ → Scan Next
unfolding block_by_number
next_block node s head = do cursor ← get_cursor; resume node s head cursor

-- One round of the loop of `ScanChainOnce`.
unfoldable pub scan_number : Node → ScanSettings → ℕ → ℕ → Scan (Unit {0})
unfolding block_by_number scan_block
scan_number node s latest number = do
  block ← lift (block_by_number node number)
  scan_block node s latest block
  save_cursor (to_int64 number)

-- What a scan returns: the blocks processed, and the error that stopped it.
pub record ScanReport : Type 0 where
  pub processed : ℕ
  pub error : Option ScanError

abbrev pub counted :
    Result ScanError (Unit {0}) × World → (World → ScanReport × World) → ScanReport × World
counted (err e, w) rest = (record { processed = 0; error = some e }, w)
counted (ok _, w) rest = let (r, w') = rest w in (record r { processed = suc r.processed }, w')

-- The loop, from `number` on; its first argument is the room left in the batch.
unfoldable pub scan_blocks : ℕ → Node → ScanSettings → ℕ → ℕ → ℕ → World → ScanReport × World
scan_blocks zero node s latest head number w = (record { processed = 0; error = none }, w)
scan_blocks (suc room) node s latest head number w =
    let round =
      counted (scan_number node s latest number w)
        (λ w'. scan_blocks room node s latest head ((number + 1) % 2 ^ 64) w') in
    if leb number head then round else (record { processed = 0; error = none }, w)

abbrev pub from_next :
    Node → ScanSettings → ℕ → ℕ → Result ScanError Next × World → ScanReport × World
from_next node s latest head (err e, w) = (record { processed = 0; error = some e }, w)
from_next node s latest head (ok initialized, w) = (record { processed = 0; error = none }, w)
from_next node s latest head (ok (at_block number), w) =
    scan_blocks s.batch_size node s latest head number w

abbrev pub with_head : Node → ScanSettings → ℕ → Option ℕ → World → ScanReport × World
with_head node s latest none w = (record { processed = 0; error = none }, w)
with_head node s latest (some head) w = from_next node s latest head (next_block node s head w)

-- `ScanChainOnce`
unfoldable pub scan_chain_once : Node → ScanSettings → World → ScanReport × World
unfolding safe_head next_block scan_blocks
scan_chain_once node s w =
    if not s.enabled
    then (record { processed = 0; error = some chain_disabled }, w)
    else elim node.block_number [
      | err e ↦ (record { processed = 0; error = some e }, w)
      | ok latest ↦ with_head node s latest (safe_head s.required_confirmations latest) w
    ]
