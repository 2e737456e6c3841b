-- ===== src/Scanner/Written.antt =====
-- web3/internal/service/scanner.go: what a row says that the scan of a block writes, with the logs
-- that it starts from.
use grpc_go_project.Prelude.{
  ℕ, ◌≡◌, refl, ◌⊎◌, inl, inr, none, some, List, [], ◌∷◌, ◌++◌, if-cases, if◌then◌else◌,
}
use grpc_go_project.Prelude.Int.{negsuc, to_int32, to_int64}
use grpc_go_project.Prelude.Result.{Result, ok, err}
use grpc_go_project.Scanner.World.{
  WalletTransaction, Transaction, Log, Block, ScanError, Node, World, pure, lift, bind_at, ◌>>=◌,
}
use grpc_go_project.Scanner.Store.{default_index}
use grpc_go_project.Scanner.Native.{transaction_direction, mined_transaction_status}
use grpc_go_project.Scanner.Transfer.{
  from_bytes, has_log, merge_logs, transfer_logs, transfer_parties,
}
use grpc_go_project.Scanner.Extends.{IsIn, Returns}

-- The row shows a native transfer of a transaction of the block.
abbrev pub NativeRow : Block → WalletTransaction → Type 0
NativeRow block r =
    (t : Transaction) × IsIn t block.transactions
    × (r.transaction_hash ≡ t.hash)
    × (t.sender ≡ some r.from_address)
    × (r.to_address ≡ t.to)
    × (r.value_raw ≡ t.value)
    × (r.token_contract ≡ none)
    × (r.event_index ≡ negsuc 0)

-- The node gave the log among those of a block.
abbrev pub Given : Node → ℕ → Log → Type 0
Given node number l =
    (topics : List ℕ) × (ls : List Log) × ((node.logs_from number topics ≡ ok ls)
      ⊎ (node.logs_to number topics ≡ ok ls))
    × IsIn l ls

-- The row shows the Transfer event of a log that the node gave.
abbrev pub TokenRow : Node → ℕ → Block → WalletTransaction → Type 0
TokenRow node topic block r =
    (l : Log) × Given node block.number l
    × (r.transaction_hash ≡ l.tx_hash)
    × ((to : ℕ) × (transfer_parties topic l ≡ some (r.from_address, to)) × (r.to_address ≡ some to))
    × (r.value_raw ≡ from_bytes 0 l.bytes)
    × (r.token_contract ≡ some l.contract)
    × (r.event_index ≡ default_index (to_int32 l.index))

-- What a row says that the scan of the block writes: the chain and the block, the status of the
-- transaction on the node, the direction of one of the two parties, and a native transfer or a Transfer
-- event.
abbrev pub Written : Node → ℕ → ℕ → Block → WalletTransaction → Type 0
Written node topic chain_id block r =
    (r.chain_id ≡ chain_id)
    × (r.block_number ≡ to_int64 block.number)
    × (r.block_hash ≡ block.hash)
    × (mined_transaction_status node r.transaction_hash ≡ ok r.status)
    × ((a : ℕ) × (transaction_direction a r.from_address r.to_address ≡ some r.direction))
    × (NativeRow block r ⊎ TokenRow node topic block r)

IsIn-append : (l x : Log) (rs : List Log) → IsIn l (rs ++ x ∷ []) → IsIn l rs ⊎ (l ≡ x)
IsIn-append l x [] (inl e) = inr e
IsIn-append l x [] (inr e) = absurd e
IsIn-append l x (r ∷ rs) (inl e) = inl (inl e)
IsIn-append l x (r ∷ rs) (inr h) = elim (IsIn-append l x rs h) [
  | inl a ↦ inl (inr a)
  | inr b ↦ inr b
]

IsIn-merge_logs : (l : Log) (rs ls : List Log) → IsIn l (merge_logs rs ls) → IsIn l rs ⊎ IsIn l ls
unfolding merge_logs
IsIn-merge_logs l rs [] h = inl h
IsIn-merge_logs l rs (x ∷ xs) h =
    elim (IsIn-merge_logs l (if has_log x rs then rs else rs ++ x ∷ []) xs h) [
      | inr b ↦ inr (inr b)
      | inl a ↦
          if-cases (λ z. IsIn l z → IsIn l rs ⊎ IsIn l (x ∷ xs)) (has_log x rs) rs (rs ++ x ∷ [])
            (λ _ b. inl b)
            (λ _ b. elim (IsIn-append l x rs b) [ inl c ↦ inl c | inr e ↦ inr (inl e) ]) a
    ]

logs-Given :
    (node : Node) (number : ℕ) (topics : List ℕ) (a b : Result ScanError (List Log)) (w : World)
    → node.logs_from number topics ≡ a
    → node.logs_to number topics ≡ b
    → Returns
        (λ logs. (l : Log) → IsIn l logs → Given node number l)
        (bind_at
          (a, w)
          (λ sent. lift b >>= λ received. pure (merge_logs (merge_logs [] sent) received))).0
logs-Given node number topics (err e) b w ea eb = tt
logs-Given node number topics (ok sent) (err e) w ea eb = tt
logs-Given node number topics (ok sent) (ok received) w ea eb = λ l h.
    elim (IsIn-merge_logs l (merge_logs [] sent) received h) [
      | inr late ↦ (topics, received, inr eb, late)
      | inl early ↦ elim (IsIn-merge_logs l [] sent early) [
        | inl none_yet ↦ absurd none_yet
        | inr there ↦ (topics, sent, inl ea, there)
      ]
    ]

-- The logs of a block are logs that the node gave.
pub transfer_logs-Given :
    (node : Node) (number : ℕ) (topics : List ℕ) (w : World)
    → Returns
        (λ logs. (l : Log) → IsIn l logs → Given node number l)
        (transfer_logs node number topics w).0
unfolding transfer_logs
transfer_logs-Given node number topics w =
    logs-Given node number topics (node.logs_from number topics) (node.logs_to number topics) w refl
      refl
