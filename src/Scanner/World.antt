-- ===== src/Scanner/World.antt =====
-- The data of web3/internal/model and the state that a scan changes, with a monad for it. A scan step
-- returns a value or an error, and in both cases the world that it leaves behind.
use grpc_go_project.Prelude.{ℕ, Bool, Option, List, [], ◌∷◌}
use grpc_go_project.Prelude.Int.{ℤ}
use grpc_go_project.Prelude.Result.{Result, ok, err}

pub data TransactionStatus : Type 0 where
  pending confirmed failed reorged : TransactionStatus

pub data TransactionDirection : Type 0 where
  incoming outgoing self : TransactionDirection

-- `model.Wallet`, as far as the scanner reads it. Ids are the numbers of their UUIDs, addresses the
-- numbers of their 20 bytes (`Hex` is injective, and the scanner compares it in lower case).
pub record Wallet : Type 0 where
  pub id : ℕ
  pub chain_id : ℕ
  pub address : ℕ
  pub active : Bool

-- `model.WalletTransaction`, without the times at which the scanner saw it.
pub record WalletTransaction : Type 0 where
  pub wallet_id : ℕ
  pub chain_id : ℕ
  pub transaction_hash : ℕ
  pub event_index : ℤ
  pub direction : TransactionDirection
  pub from_address : ℕ
  pub to_address : Option ℕ
  pub value_raw : ℕ
  pub token_contract : Option ℕ
  pub block_number : ℤ
  pub block_hash : ℕ
  pub confirmations : ℕ
  pub status : TransactionStatus
  pub block_time : ℕ

pub data ChainEventStatus : Type 0 where
  event_pending event_processed event_failed event_reorged : ChainEventStatus

-- `model.ChainEventReceipt`; its id is the name-based UUID of chain, transaction and log index, and
-- stands for them.
pub record ChainEventReceipt : Type 0 where
  pub chain_id : ℕ
  pub transaction_hash : ℕ
  pub log_index : ℕ
  pub block_number : ℤ
  pub contract_address : ℕ
  pub event_status : ChainEventStatus
  pub retries : ℕ

-- `types.Transaction`: `sender` is none where no sender can be recovered from the signature.
pub record Transaction : Type 0 where
  pub sender : Option ℕ
  pub to : Option ℕ
  pub hash : ℕ
  pub value : ℕ

-- `types.Log`
pub record Log : Type 0 where
  pub topics : List ℕ
  pub bytes : List ℕ
  pub tx_hash : ℕ
  pub index : ℕ
  pub contract : ℕ

-- `types.Block`
pub record Block : Type 0 where
  pub number : ℕ
  pub hash : ℕ
  pub time : ℕ
  pub transactions : List Transaction

pub data ScanError : Type 0 where
  chain_disabled rpc_failed block_not_found receipt_not_found database_failed invalid_cursor
        record_not_found :
      ScanError

-- What the node of a chain answers in the course of one scan.
pub record Node : Type 0 where
  pub block_number : Result ScanError ℕ
  pub block_by_number : ℕ → Result ScanError (Option Block)
  pub logs_from : ℕ → List ℕ → Result ScanError (List Log)
  pub logs_to : ℕ → List ℕ → Result ScanError (List Log)
  pub receipt_failed : ℕ → Result ScanError (Option Bool)

-- The database: the cursor of the chain, the tables, and for each statement to come whether it fails.
pub record World : Type 0 where
  pub cursor : Option ℤ
  pub wallets : List Wallet
  pub stored : List WalletTransaction
  pub events : List ChainEventReceipt
  pub faults : List Bool

abbrev pub Scan : Type 0 → Type 0
Scan A = World → Result ScanError A × World

abbrev pub pure : {A : Type 0} → A → Scan A
pure a w = (ok a, w)

abbrev pub raise : {A : Type 0} → ScanError → Scan A
raise e w = (err e, w)

abbrev pub lift : {A : Type 0} → Result ScanError A → Scan A
lift r w = (r, w)

abbrev pub bind_at :
    {A B : Type 0} → Result ScanError A × World → (A → Scan B) → Result ScanError B × World
bind_at (ok a, w) f = f a w
bind_at (err e, w) f = (err e, w)

infixl 5 ◌>>=◌ ◌>>◌
abbrev pub ◌>>=◌ : {A B : Type 0} → Scan A → (A → Scan B) → Scan B
◌>>=◌ m f w = bind_at (m w) f

abbrev pub ◌>>◌ : {B : Type 0} → Scan (Unit {0}) → Scan B → Scan B
◌>>◌ m k w = bind_at (m w) (λ _. k)

-- `for … { if err := step(x); err != nil { return err } }`.
unfoldable pub for_each : {A : Type 0} → (A → Scan (Unit {0})) → List A → Scan (Unit {0})
for_each step [] = pure tt
for_each step (x ∷ xs) = let rest = for_each step xs in step x >> rest
