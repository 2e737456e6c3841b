-- ===== src/Scanner/NativeSteps.antt =====
-- The scan of a transaction writes rows that show its native transfer, and leaves alone the cursor, the
-- wallets and the other rows.
use grpc_go_project.Prelude.{ℕ, ◌≡◌, refl, inl, Option, none, some, List, [], ◌∷◌}
use grpc_go_project.Prelude.Result.{ok}
use grpc_go_project.Scanner.World.{
  TransactionStatus, TransactionDirection, Wallet, WalletTransaction, Transaction, Block, Node,
  Scan, pure, lift, ◌>>=◌, for_each,
}
use grpc_go_project.Scanner.Store.{with_default_index, upsert, find_by_chain_address}
use grpc_go_project.Scanner.Native.{
  transaction_direction, native_snapshot, save_native, save_all, scan_sent, scan_transaction,
  parties, mined_transaction_status, add_active,
}
use grpc_go_project.Scanner.Written.{Written}
use grpc_go_project.Scanner.Extends.{
  Extending, Extending-pure, Extending-lift, Extending-bind, Extending-for_each, Extending-bind_on,
  Returns-self, IsIn, find_by_chain_address-Extending, upsert-Extending,
}

save_direction-Extending :
    {W : WalletTransaction → Type 0} (d : Option TransactionDirection)
    (row : TransactionDirection → WalletTransaction)
    → ((x : TransactionDirection) → d ≡ some x → W (with_default_index (row x)))
    → Extending W (elim d as (λ _. Scan (Unit {0})) [
      | none ↦ pure tt
      | some direction ↦ upsert (row direction)
    ])
save_direction-Extending none row h = Extending-pure tt
save_direction-Extending (some d) row h = upsert-Extending (row d) (h d refl)

pub native_snapshot-Written :
    (node : Node) (topic chain_id latest : ℕ) (block : Block) (t : Transaction) (from : ℕ)
    (status : TransactionStatus) (v : Wallet) (d : TransactionDirection)
    → IsIn t block.transactions
    → t.sender ≡ some from
    → mined_transaction_status node t.hash ≡ ok status
    → transaction_direction v.address from t.to ≡ some d
    → Written node topic chain_id block
        (with_default_index (native_snapshot chain_id latest block t from status v d))
unfolding native_snapshot
native_snapshot-Written node topic chain_id latest block t from status v d i sent mined e =
    (refl, refl, refl, mined, (v.address, e), inl (t, i, refl, sent, refl, refl, refl, refl))

pub save_native-Extending :
    (node : Node) (topic chain_id latest : ℕ) (block : Block) (t : Transaction) (from : ℕ)
    (status : TransactionStatus) (v : Wallet)
    → IsIn t block.transactions
    → t.sender ≡ some from
    → mined_transaction_status node t.hash ≡ ok status
    → Extending
        (Written node topic chain_id block)
        (save_native chain_id latest block t from status v)
unfolding save_native
save_native-Extending node topic chain_id latest block t from status v i sent mined =
    save_direction-Extending (transaction_direction v.address from t.to)
      (native_snapshot chain_id latest block t from status v)
      (λ d e.
        native_snapshot-Written node topic chain_id latest block t from status v d i sent mined e)

pub save_all-Extending :
    (node : Node) (topic chain_id latest : ℕ) (block : Block) (t : Transaction) (from : ℕ)
    (vs : List Wallet)
    → IsIn t block.transactions
    → t.sender ≡ some from
    → Extending (Written node topic chain_id block) (save_all node chain_id latest block t from vs)
save_all-Extending node topic chain_id latest block t from [] i sent = Extending-pure tt
save_all-Extending node topic chain_id latest block t from (v ∷ vs) i sent =
    Extending-bind_on (λ status. mined_transaction_status node t.hash ≡ ok status)
      (lift (mined_transaction_status node t.hash))
      (λ status. for_each (save_native chain_id latest block t from status) (v ∷ vs))
      (Extending-lift (mined_transaction_status node t.hash))
      (λ w. Returns-self (mined_transaction_status node t.hash))
      (λ status mined.
        Extending-for_each (save_native chain_id latest block t from status) (v ∷ vs) (λ u.
          save_native-Extending node topic chain_id latest block t from status u i sent mined))

pub parties-Extending :
    {W : WalletTransaction → Type 0} (chain_id from : ℕ) (to : Option ℕ)
    → Extending W (parties chain_id from to)
unfolding parties
parties-Extending chain_id from none =
    Extending-bind (find_by_chain_address chain_id from) (λ sender. pure (add_active sender []))
      (find_by_chain_address-Extending chain_id from)
      (λ sender. Extending-pure (add_active sender []))
parties-Extending chain_id from (some to) =
    Extending-bind (find_by_chain_address chain_id from)
      (λ sender. find_by_chain_address chain_id to >>= λ receiver.
        pure (add_active receiver (add_active sender [])))
      (find_by_chain_address-Extending chain_id from)
      λ sender.
        Extending-bind (find_by_chain_address chain_id to)
          (λ receiver. pure (add_active receiver (add_active sender [])))
          (find_by_chain_address-Extending chain_id to)
          (λ receiver. Extending-pure (add_active receiver (add_active sender [])))

pub scan_sent-Extending :
    (node : Node) (topic chain_id latest : ℕ) (block : Block) (t : Transaction) (from : ℕ)
    → IsIn t block.transactions
    → t.sender ≡ some from
    → Extending (Written node topic chain_id block) (scan_sent node chain_id latest block t from)
unfolding scan_sent
scan_sent-Extending node topic chain_id latest block t from i sent =
    Extending-bind (parties chain_id from t.to) (save_all node chain_id latest block t from)
      (parties-Extending chain_id from t.to)
      (λ vs. save_all-Extending node topic chain_id latest block t from vs i sent)

scan_sender-Extending :
    (node : Node) (topic chain_id latest : ℕ) (block : Block) (t : Transaction) (sender : Option ℕ)
    → IsIn t block.transactions
    → t.sender ≡ sender
    → Extending (Written node topic chain_id block) (elim sender as (λ _. Scan (Unit {0})) [
      | none ↦ pure tt
      | some from ↦ scan_sent node chain_id latest block t from
    ])
scan_sender-Extending node topic chain_id latest block t none i sent = Extending-pure tt
scan_sender-Extending node topic chain_id latest block t (some from) i sent =
    scan_sent-Extending node topic chain_id latest block t from i sent

pub scan_transaction-Extending :
    (node : Node) (topic chain_id latest : ℕ) (block : Block) (t : Transaction)
    → IsIn t block.transactions
    → Extending (Written node topic chain_id block) (scan_transaction node chain_id latest block t)
unfolding scan_transaction
scan_transaction-Extending node topic chain_id latest block t i =
    scan_sender-Extending node topic chain_id latest block t t.sender i refl
