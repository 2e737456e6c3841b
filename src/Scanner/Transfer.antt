-- ===== src/Scanner/Transfer.antt =====
-- web3/internal/service/scanner.go, the ERC-20 transfers of a block.
use grpc_go_project.Prelude.{
  ℕ, ◌+◌, ◌*◌, ◌%◌, ◌^◌, Bool, true, false, ◌&&◌, Option, none, some, List, [], ◌∷◌, ◌++◌, ◌==◌,
  length, map, if◌then◌else◌,
}
use grpc_go_project.Prelude.Int.{to_int32, to_int64}
use grpc_go_project.Prelude.Result.{Result, ok, err}
use grpc_go_project.Scanner.World.{
  TransactionStatus, TransactionDirection, Wallet, WalletTransaction, Log, Block, ChainEventReceipt,
  event_pending, ScanError, Node, World, Scan, pure, lift, ◌>>=◌, ◌>>◌, for_each,
}
use grpc_go_project.Scanner.Store.{
  upsert, list_active_by_chain, create_event_if_absent, mark_event_processed, mark_event_failed,
}
use grpc_go_project.Scanner.Native.{
  transaction_direction, mined_transaction_status, add_wallet, confirmations_of,
}

-- `topicAddress`: the last 20 bytes of a topic.
abbrev pub topic_address : ℕ → ℕ
topic_address topic = topic % 2 ^ 160

-- `new(big.Int).SetBytes(…)`
unfoldable pub from_bytes : ℕ → List ℕ → ℕ
from_bytes acc [] = acc
from_bytes acc (b ∷ bs) = from_bytes (acc * 256 + b) bs

unfoldable pub has_log : Log → List Log → Bool
has_log l [] = false
has_log l (m ∷ ms) = if m.tx_hash == l.tx_hash && m.index == l.index then true else has_log l ms

-- The inner loop of `transferLogs`: `result` holds exactly the logs whose keys were seen.
unfoldable pub merge_logs : List Log → List Log → List Log
unfolding has_log
merge_logs result [] = result
merge_logs result (l ∷ ls) = merge_logs (if has_log l result then result else result ++ l ∷ []) ls

-- `transferLogs`
unfoldable pub transfer_logs : Node → ℕ → List ℕ → Scan (List Log)
unfolding merge_logs
transfer_logs node number topics = do
  sent ← lift (node.logs_from number topics)
  received ← lift (node.logs_to number topics)
  pure (merge_logs (merge_logs [] sent) received)

-- `walletByAddress[…]`: the last wallet of an address.
unfoldable pub by_address : ℕ → List Wallet → Option Wallet
by_address address [] = none
by_address address (v ∷ vs) = elim (by_address address vs) [
  | some w ↦ some w
  | none ↦ if v.address == address then some v else none
]

abbrev pub add_found : Option Wallet → List Wallet → List Wallet
add_found none vs = vs
add_found (some v) vs = add_wallet v vs

unfoldable pub participants : List Wallet → ℕ → ℕ → List Wallet
unfolding by_address add_wallet
participants wallets from to =
    add_found (by_address to wallets) (add_found (by_address from wallets) [])

-- The topics of a standard Transfer event, if the log is one.
abbrev pub transfer_parties : ℕ → Log → Option (ℕ × ℕ)
transfer_parties topic l = elim l.topics [
  | t ∷ f ∷ r ∷ [] ↦
      if t == topic && length l.bytes == 32 then some (topic_address f, topic_address r) else none
  | _ ↦ none
]

unfoldable pub token_snapshot :
    ℕ
    → ℕ
    → Block
    → Log
    → ℕ
    → ℕ
    → TransactionStatus
    → Wallet
    → TransactionDirection
    → WalletTransaction
unfolding from_bytes
token_snapshot chain_id latest block l from to status v direction = record {
  wallet_id = v.id;
  chain_id = chain_id;
  transaction_hash = l.tx_hash;
  event_index = to_int32 l.index;
  direction = direction;
  from_address = from;
  to_address = some to;
  value_raw = from_bytes 0 l.bytes;
  token_contract = some l.contract;
  block_number = to_int64 block.number;
  block_hash = block.hash;
  confirmations = confirmations_of latest block.number;
  status = status;
  block_time = block.time;
}

-- A failed write marks the event and fails, whatever becomes of the mark.
abbrev pub mark_if_failed :
    ChainEventReceipt → Result ScanError (Unit {0}) × World → Result ScanError (Unit {0}) × World
mark_if_failed e (ok a, w) = (ok a, w)
mark_if_failed e (err f, w) = (err f, (mark_event_failed e w).1)

abbrev pub or_mark_failed : ChainEventReceipt → Scan (Unit {0}) → Scan (Unit {0})
or_mark_failed e m w = mark_if_failed e (m w)

-- One round of the loop over the participants.
unfoldable pub save_token :
    ℕ → ℕ → Block → Log → ℕ → ℕ → TransactionStatus → ChainEventReceipt → Wallet → Scan (Unit {0})
unfolding token_snapshot transaction_direction
save_token chain_id latest block l from to status e v =
    elim (transaction_direction v.address from (some to)) [
      | none ↦ pure tt
      | some direction ↦
          or_mark_failed e
            (upsert (token_snapshot chain_id latest block l from to status v direction))
    ]

abbrev pub receipt_of : ℕ → Block → Log → ChainEventReceipt
receipt_of chain_id block l = record {
  chain_id = chain_id;
  transaction_hash = l.tx_hash;
  log_index = l.index;
  block_number = to_int64 block.number;
  contract_address = l.contract;
  event_status = event_pending;
  retries = 0;
}

abbrev pub persist_for : Node → ℕ → ℕ → Block → Log → ℕ → ℕ → List Wallet → Scan (Unit {0})
persist_for node chain_id latest block l from to [] = pure tt
persist_for node chain_id latest block l from to (v ∷ vs) = do
  _ ← create_event_if_absent (receipt_of chain_id block l)
  status ← lift (mined_transaction_status node l.tx_hash)
  for_each (save_token chain_id latest block l from to status (receipt_of chain_id block l))
      (v ∷ vs)
  mark_event_processed (receipt_of chain_id block l)

-- `persistTransferLog`, given the topic of Transfer events.
unfoldable pub persist_transfer_log : Node → ℕ → ℕ → ℕ → Block → List Wallet → Log → Scan (Unit {0})
unfolding participants save_token
persist_transfer_log node topic chain_id latest block wallets l = elim (transfer_parties topic l) [
  | none ↦ pure tt
  | some (from, to) ↦
      persist_for node chain_id latest block l from to (participants wallets from to)
]

abbrev pub scan_for : Node → ℕ → ℕ → ℕ → Block → List Wallet → Scan (Unit {0})
scan_for node topic chain_id latest block [] = pure tt
scan_for node topic chain_id latest block (v ∷ vs) = do
  logs ← transfer_logs node block.number (map (λ (u : Wallet). u.address) (v ∷ vs))
  for_each (persist_transfer_log node topic chain_id latest block (v ∷ vs)) logs

-- `scanERC20Transfers`
unfoldable pub scan_erc20_transfers : Node → ℕ → ℕ → ℕ → Block → Scan (Unit {0})
unfolding transfer_logs persist_transfer_log
scan_erc20_transfers node topic chain_id latest block = do
  wallets ← list_active_by_chain chain_id
  scan_for node topic chain_id latest block wallets
