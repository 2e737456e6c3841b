-- ===== src/Scanner/Steps.antt =====
-- The scan of a block leaves the cursor and the wallets alone, and each stored row but those that it
-- writes anew.
use grpc_go_project.Prelude.{ℕ, ◌≡◌, refl, inr, Option, none, some, List, [], ◌∷◌, map}
use grpc_go_project.Prelude.Result.{Result, ok, err}
use grpc_go_project.Scanner.World.{
  TransactionStatus, TransactionDirection, Wallet, WalletTransaction, Log, Block, ChainEventReceipt,
  ScanError, Node, World, Scan, pure, lift, ◌>>=◌, ◌>>◌, for_each,
}
use grpc_go_project.Scanner.Store.{
  with_default_index, upsert, list_active_by_chain, create_event_if_absent, mark_event_processed,
}
use grpc_go_project.Scanner.Native.{
  transaction_direction, scan_transaction, mined_transaction_status,
}
use grpc_go_project.Scanner.Transfer.{
  token_snapshot, merge_logs, transfer_logs, save_token, or_mark_failed, mark_if_failed,
  participants, receipt_of, persist_for, transfer_parties, persist_transfer_log, scan_for,
  scan_erc20_transfers,
}
use grpc_go_project.Scanner.Chain.{ScanSettings, scan_block}
use grpc_go_project.Scanner.Written.{Given, Written, transfer_logs-Given}
use grpc_go_project.Scanner.Extends.{
  Extends, Extends-trans, Extending, Extending-pure, Extending-lift, Extending-bind, Extending-then,
  Extending-for_each, Extending-bind_on, Returns-self, IsIn, for_each_in-Extending,
  list_active_by_chain-Extending, upsert-Extending, create_event_if_absent-Extending,
  mark_event_processed-Extending, mark_event_failed-Extending,
}
use grpc_go_project.Scanner.NativeSteps.{scan_transaction-Extending}

mark-Extends :
    {W : WalletTransaction → Type 0} (e : ChainEventReceipt) (w : World)
    (r : Result ScanError (Unit {0})) (v : World)
    → Extends W w v
    → Extends W w (mark_if_failed e (r, v)).1
mark-Extends e w (ok a) v h = h
mark-Extends e w (err f) v h = Extends-trans h ((mark_event_failed-Extending e).at v)

or_mark_failed-Extending :
    {W : WalletTransaction → Type 0} (e : ChainEventReceipt) (m : Scan (Unit {0}))
    → Extending W m
    → Extending W (or_mark_failed e m)
or_mark_failed-Extending e m h = record { at = λ w. mark-Extends e w (m w).0 (m w).1 (h.at w) }

save_token_direction-Extending :
    {W : WalletTransaction → Type 0} (d : Option TransactionDirection) (e : ChainEventReceipt)
    (row : TransactionDirection → WalletTransaction)
    → ((x : TransactionDirection) → d ≡ some x → W (with_default_index (row x)))
    → Extending W (elim d as (λ _. Scan (Unit {0})) [
      | none ↦ pure tt
      | some direction ↦ or_mark_failed e (upsert (row direction))
    ])
save_token_direction-Extending none e row h = Extending-pure tt
save_token_direction-Extending (some d) e row h =
    or_mark_failed-Extending e (upsert (row d)) (upsert-Extending (row d) (h d refl))

token_snapshot-Written :
    (node : Node) (topic chain_id latest : ℕ) (block : Block) (l : Log) (from to : ℕ)
    (status : TransactionStatus) (v : Wallet) (d : TransactionDirection)
    → Given node block.number l
    → transfer_parties topic l ≡ some (from, to)
    → mined_transaction_status node l.tx_hash ≡ ok status
    → transaction_direction v.address from (some to) ≡ some d
    → Written node topic chain_id block
        (with_default_index (token_snapshot chain_id latest block l from to status v d))
unfolding token_snapshot
token_snapshot-Written node topic chain_id latest block l from to status v d g found mined e =
    (refl, refl, refl, mined, (v.address, e), inr (l, g, refl, (to, found, refl), refl, refl, refl))

save_token-Extending :
    (node : Node) (topic chain_id latest : ℕ) (block : Block) (l : Log) (from to : ℕ)
    (status : TransactionStatus) (e : ChainEventReceipt) (v : Wallet)
    → Given node block.number l
    → transfer_parties topic l ≡ some (from, to)
    → mined_transaction_status node l.tx_hash ≡ ok status
    → Extending
        (Written node topic chain_id block)
        (save_token chain_id latest block l from to status e v)
unfolding save_token
save_token-Extending node topic chain_id latest block l from to status e v g found mined =
    save_token_direction-Extending (transaction_direction v.address from (some to)) e
      (token_snapshot chain_id latest block l from to status v)
      (λ d way.
        token_snapshot-Written node topic chain_id latest block l from to status v d g found mined
          way)

persist_for-Extending :
    (node : Node) (topic chain_id latest : ℕ) (block : Block) (l : Log) (from to : ℕ)
    (vs : List Wallet)
    → Given node block.number l
    → transfer_parties topic l ≡ some (from, to)
    → Extending
        (Written node topic chain_id block)
        (persist_for node chain_id latest block l from to vs)
persist_for-Extending node topic chain_id latest block l from to [] g found = Extending-pure tt
persist_for-Extending node topic chain_id latest block l from to (v ∷ vs) g found =
    let e = receipt_of chain_id block l in
    let save = λ (status : TransactionStatus).
      for_each (save_token chain_id latest block l from to status e) (v ∷ vs) in
    Extending-bind (create_event_if_absent e)
      (λ _. lift (mined_transaction_status node l.tx_hash) >>= λ status.
        save status >> mark_event_processed e)
      (create_event_if_absent-Extending e)
      λ _.
        Extending-bind_on (λ status. mined_transaction_status node l.tx_hash ≡ ok status)
          (lift (mined_transaction_status node l.tx_hash))
          (λ status. save status >> mark_event_processed e)
          (Extending-lift (mined_transaction_status node l.tx_hash))
          (λ w. Returns-self (mined_transaction_status node l.tx_hash))
          λ status mined.
            Extending-then (save status) (mark_event_processed e)
              (Extending-for_each (save_token chain_id latest block l from to status e) (v ∷ vs)
                (λ u.
                  save_token-Extending node topic chain_id latest block l from to status e u g found
                    mined))
              (mark_event_processed-Extending e)

persist_parties-Extending :
    (node : Node) (topic chain_id latest : ℕ) (block : Block) (wallets : List Wallet) (l : Log)
    (p : Option (ℕ × ℕ))
    → Given node block.number l
    → transfer_parties topic l ≡ p
    → Extending (Written node topic chain_id block) (elim p as (λ _. Scan (Unit {0})) [
      | none ↦ pure tt
      | some (from, to) ↦
          persist_for node chain_id latest block l from to (participants wallets from to)
    ])
persist_parties-Extending node topic chain_id latest block wallets l none g found =
    Extending-pure tt
persist_parties-Extending node topic chain_id latest block wallets l (some (from, to)) g found =
    persist_for-Extending node topic chain_id latest block l from to (participants wallets from to)
      g found

persist_transfer_log-Extending :
    (node : Node) (topic chain_id latest : ℕ) (block : Block) (wallets : List Wallet) (l : Log)
    → Given node block.number l
    → Extending
        (Written node topic chain_id block)
        (persist_transfer_log node topic chain_id latest block wallets l)
unfolding persist_transfer_log
persist_transfer_log-Extending node topic chain_id latest block wallets l g =
    persist_parties-Extending node topic chain_id latest block wallets l (transfer_parties topic l)
      g refl

transfer_logs-Extending :
    {W : WalletTransaction → Type 0} (node : Node) (number : ℕ) (topics : List ℕ)
    → Extending W (transfer_logs node number topics)
unfolding transfer_logs
transfer_logs-Extending node number topics =
    Extending-bind (lift (node.logs_from number topics))
      (λ sent. lift (node.logs_to number topics) >>= λ received.
        pure (merge_logs (merge_logs [] sent) received))
      (Extending-lift (node.logs_from number topics))
      λ sent.
        Extending-bind (lift (node.logs_to number topics))
          (λ received. pure (merge_logs (merge_logs [] sent) received))
          (Extending-lift (node.logs_to number topics))
          (λ received. Extending-pure (merge_logs (merge_logs [] sent) received))

scan_for-Extending :
    (node : Node) (topic chain_id latest : ℕ) (block : Block) (vs : List Wallet)
    → Extending (Written node topic chain_id block) (scan_for node topic chain_id latest block vs)
scan_for-Extending node topic chain_id latest block [] = Extending-pure tt
scan_for-Extending node topic chain_id latest block (v ∷ vs) =
    let topics = map (λ (u : Wallet). u.address) (v ∷ vs) in
    Extending-bind_on (λ logs. (l : Log) → IsIn l logs → Given node block.number l)
      (transfer_logs node block.number topics)
      (for_each (persist_transfer_log node topic chain_id latest block (v ∷ vs)))
      (transfer_logs-Extending node block.number topics)
      (transfer_logs-Given node block.number topics)
      (λ logs given.
        for_each_in-Extending (persist_transfer_log node topic chain_id latest block (v ∷ vs)) logs
          (λ l i.
            persist_transfer_log-Extending node topic chain_id latest block (v ∷ vs) l (given l i)))

pub scan_erc20_transfers-Extending :
    (node : Node) (topic chain_id latest : ℕ) (block : Block)
    → Extending
        (Written node topic chain_id block)
        (scan_erc20_transfers node topic chain_id latest block)
unfolding scan_erc20_transfers
scan_erc20_transfers-Extending node topic chain_id latest block =
    Extending-bind (list_active_by_chain chain_id) (scan_for node topic chain_id latest block)
      (list_active_by_chain-Extending chain_id)
      (scan_for-Extending node topic chain_id latest block)

-- Whether the scan of a block ends well or with an error, and whatever statements of the database
-- fail in it, it leaves the cursor and the wallets as they were, and under each key the stored row, if
-- there is one, either stays as it was or is one that the scan wrote: a row of this chain and block, with
-- the status of its transaction on the node and the direction of one of its parties, which shows a
-- native transfer of a transaction of the block or the Transfer event of a log that the node gave for it.
pub scan_block-Extending :
    (node : Node) (s : ScanSettings) (latest : ℕ) (block : Block)
    → Extending (Written node s.transfer_topic s.chain_id block) (scan_block node s latest block)
unfolding scan_block
scan_block-Extending node s latest block =
    Extending-then (for_each (scan_transaction node s.chain_id latest block) block.transactions)
      (scan_erc20_transfers node s.transfer_topic s.chain_id latest block)
      (for_each_in-Extending (scan_transaction node s.chain_id latest block) block.transactions
        (scan_transaction-Extending node s.transfer_topic s.chain_id latest block))
      (scan_erc20_transfers-Extending node s.transfer_topic s.chain_id latest block)
