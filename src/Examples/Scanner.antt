-- ===== src/Examples/Scanner.antt =====
-- The theorems on the chain scanner, at a chain with one native transfer between two bound wallets.
use grpc_go_project.Prelude.{ℕ, ◌≡◌, refl, true, false, some, [], ◌∷◌, All, arith}
use grpc_go_project.Prelude.Int.{pos, negsuc}
use grpc_go_project.Prelude.Result.{ok}
use grpc_go_project.Scanner.World.{
  Wallet, WalletTransaction, confirmed, outgoing, Transaction, Log, Block, Node, World,
}
use grpc_go_project.Scanner.Chain.{ScanSettings, scan_block, scan_blocks, scan_chain_once}
use grpc_go_project.Scanner.Extends.{Extending, row_at}
use grpc_go_project.Scanner.Written.{Written}
use grpc_go_project.Scanner.Store.{upsert, upsert_row}
use grpc_go_project.Scanner.Native.{native_snapshot}
use grpc_go_project.Scanner.Transfer.{token_snapshot, from_bytes}
use grpc_go_project.Scanner.Steps.{scan_block-Extending}
use grpc_go_project.Scanner.Parties.{OnOk}
use grpc_go_project.Scanner.Covers.{Covered, scan_block-Covered}
use grpc_go_project.Scanner.Cursor.{Progress, scan_blocks-Progress}
use grpc_go_project.Scanner.Resume.{Resumed, scan_chain_once-Resumed}

abbrev sender : Wallet
sender = record { id = 1; chain_id = 56; address = 700; active = true }

abbrev receiver : Wallet
receiver = record { id = 2; chain_id = 56; address = 800; active = true }

abbrev payment : Transaction
payment = record { sender = some 700; to = some 800; hash = 9000; value = 12 }

abbrev block_of : ℕ → Block
block_of n = record { number = n; hash = n; time = n; transactions = payment ∷ [] }

abbrev node : Node
node = record {
  block_number = ok 20;
  block_by_number = λ n. ok (some (block_of n));
  logs_from = λ n topics. ok [];
  logs_to = λ n topics. ok [];
  receipt_failed = λ hash. ok (some false);
}

abbrev settings : ScanSettings
settings = record {
  chain_id = 56;
  enabled = true;
  required_confirmations = 12;
  batch_size = 2;
  start_block = 0;
  transfer_topic = 77;
}

abbrev start : World
start = record {
  cursor = some (pos 6);
  wallets = sender ∷ receiver ∷ [];
  stored = [];
  events = [];
  faults = [];
}

scan_block-Covered_example :
    OnOk
      (λ _ w'. All (Covered node 77 56 (block_of 7) start.wallets w') (payment ∷ []))
      (scan_block node settings 20 (block_of 7) start)
scan_block-Covered_example = scan_block-Covered node settings 20 (block_of 7) start

scan_block-Extending_example :
    Extending (Written node 77 56 (block_of 7)) (scan_block node settings 20 (block_of 7))
scan_block-Extending_example = scan_block-Extending node settings 20 (block_of 7)

scan_blocks-Progress_example :
    Progress (some (pos 6)) 2 9 7 (scan_blocks 2 node settings 20 9 7 start)
scan_blocks-Progress_example = scan_blocks-Progress node settings 20 9 (omega arith) 2 7 start

scan_chain_once-Resumed_example : Resumed settings 20 6 (scan_chain_once node settings start)
scan_chain_once-Resumed_example =
    scan_chain_once-Resumed node settings 20 6 start refl refl (omega arith) refl

-- A log of the payment's transaction with the index 0.
abbrev first_log : Log
first_log = record { topics = []; bytes = 5 ∷ []; tx_hash = 9000; index = 0; contract = 600 }

abbrev native_row : WalletTransaction
unfolding native_snapshot
native_row = native_snapshot 56 20 (block_of 7) payment 700 confirmed sender outgoing

abbrev token_row : WalletTransaction
unfolding token_snapshot from_bytes
token_row = token_snapshot 56 20 (block_of 7) first_log 700 800 confirmed sender outgoing

-- The row of the log takes the place of the native one.
index_0_overwrites :
    row_at
      (upsert token_row (record start { stored = native_row ∷ [] })).1.stored
      1
      56
      9000
      (negsuc 0)
    ≡ some (record token_row { event_index = negsuc 0 })
unfolding row_at upsert upsert_row native_row token_row
index_0_overwrites = refl
