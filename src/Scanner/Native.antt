-- ===== src/Scanner/Native.antt =====
-- web3/internal/service/scanner.go, the native transfers of a block, with transactionDirection of
-- web3/internal/service/transaction.go.
use grpc_go_project.Prelude.{
  ℕ, ◌+◌, ◌-◌, ◌%◌, ◌^◌, Bool, true, false, ◌&&◌, Option, none, some, List, [], ◌∷◌, ◌++◌, ◌==◌,
  if◌then◌else◌,
}
use grpc_go_project.Prelude.Int.{negsuc, to_int64}
use grpc_go_project.Prelude.Result.{Result, ok, err}
use grpc_go_project.Scanner.World.{
  TransactionStatus, confirmed, failed, TransactionDirection, incoming, outgoing, self, Wallet,
  WalletTransaction, Transaction, Block, ScanError, receipt_not_found, Node, Scan, pure, lift,
  ◌>>=◌, for_each,
}
use grpc_go_project.Scanner.Store.{find_by_chain_address, upsert}

abbrev pub is_address : Option ℕ → ℕ → Bool
is_address none a = false
is_address (some b) a = a == b

-- `transactionDirection`: none where the wallet is not a party.
unfoldable pub transaction_direction : ℕ → ℕ → Option ℕ → Option TransactionDirection
transaction_direction address from to =
    if address == from && is_address to address
    then some self
    else if address == from
    then some outgoing
    else if is_address to address
    then some incoming
    else none

-- `latest - number + 1` in uint64.
abbrev pub confirmations_of : ℕ → ℕ → ℕ
confirmations_of latest number = (latest + 2 ^ 64 - number + 1) % 2 ^ 64

-- `minedTransactionStatus`
unfoldable pub mined_transaction_status : Node → ℕ → Result ScanError TransactionStatus
mined_transaction_status node hash = elim (node.receipt_failed hash) [
  | err e ↦ err e
  | ok none ↦ err receipt_not_found
  | ok (some true) ↦ ok failed
  | ok (some false) ↦ ok confirmed
]

unfoldable pub has_wallet : ℕ → List Wallet → Bool
has_wallet id [] = false
has_wallet id (v ∷ vs) = if v.id == id then true else has_wallet id vs

-- `wallets[wallet.ID] = wallet`. The order in which Go visits the map is not specified; here it is
-- the order of insertion.
unfoldable pub add_wallet : Wallet → List Wallet → List Wallet
unfolding has_wallet
add_wallet v vs = if has_wallet v.id vs then vs else vs ++ v ∷ []

abbrev pub add_active : Option Wallet → List Wallet → List Wallet
add_active none vs = vs
add_active (some v) vs = if v.active then add_wallet v vs else vs

-- The bound and active wallets of the sender and the receiver.
unfoldable pub parties : ℕ → ℕ → Option ℕ → Scan (List Wallet)
unfolding add_wallet
parties chain_id from none = do
  sender ← find_by_chain_address chain_id from
  pure (add_active sender [])
parties chain_id from (some to) = do
  sender ← find_by_chain_address chain_id from
  receiver ← find_by_chain_address chain_id to
  pure (add_active receiver (add_active sender []))

unfoldable pub native_snapshot :
    ℕ
    → ℕ
    → Block
    → Transaction
    → ℕ
    → TransactionStatus
    → Wallet
    → TransactionDirection
    → WalletTransaction
native_snapshot chain_id latest block t from status v direction = record {
  wallet_id = v.id;
  chain_id = chain_id;
  transaction_hash = t.hash;
  event_index = negsuc 0;
  direction = direction;
  from_address = from;
  to_address = t.to;
  value_raw = t.value;
  token_contract = none;
  block_number = to_int64 block.number;
  block_hash = block.hash;
  confirmations = confirmations_of latest block.number;
  status = status;
  block_time = block.time;
}

-- One round of the loop over the wallets.
unfoldable pub save_native :
    ℕ → ℕ → Block → Transaction → ℕ → TransactionStatus → Wallet → Scan (Unit {0})
unfolding native_snapshot transaction_direction
save_native chain_id latest block t from status v =
    elim (transaction_direction v.address from t.to) [
      | none ↦ pure tt
      | some direction ↦ upsert (native_snapshot chain_id latest block t from status v direction)
    ]

abbrev pub save_all : Node → ℕ → ℕ → Block → Transaction → ℕ → List Wallet → Scan (Unit {0})
save_all node chain_id latest block t from [] = pure tt
save_all node chain_id latest block t from (v ∷ vs) = do
  status ← lift (mined_transaction_status node t.hash)
  for_each (save_native chain_id latest block t from status) (v ∷ vs)

-- `scanTransaction` of a transaction with a sender.
unfoldable pub scan_sent : Node → ℕ → ℕ → Block → Transaction → ℕ → Scan (Unit {0})
unfolding parties save_native
scan_sent node chain_id latest block t from = do
  vs ← parties chain_id from t.to
  save_all node chain_id latest block t from vs

-- `scanTransaction`: a transaction without a sender is passed over.
unfoldable pub scan_transaction : Node → ℕ → ℕ → Block → Transaction → Scan (Unit {0})
unfolding scan_sent
scan_transaction node chain_id latest block t = elim t.sender [
  | none ↦ pure tt
  | some from ↦ scan_sent node chain_id latest block t from
]
