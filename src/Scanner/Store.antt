-- ===== src/Scanner/Store.antt =====
-- web3/internal/repository/scanner.go, transaction.go and wallet.go: the statements of a scan. Each
-- one may fail, and then changes nothing.
use grpc_go_project.Prelude.{
  ℕ, ◌+◌, Bool, true, false, ◌&&◌, Option, none, some, List, [], ◌∷◌, ◌==◌, if◌then◌else◌,
}
use grpc_go_project.Prelude.Int.{ℤ, pos, negsuc, eqb_ℤ}
use grpc_go_project.Prelude.Result.{Result, ok, err}
use grpc_go_project.Scanner.World.{
  Wallet, WalletTransaction, event_processed, event_failed, ChainEventReceipt, ScanError,
  database_failed, record_not_found, World, Scan,
}

-- A statement that the database answers with `run`, or not at all.
abbrev pub statement : {A : Type 0} → (World → Result ScanError A × World) → Scan A
statement run w = elim w.faults [
  | [] ↦ run w
  | true ∷ rest ↦ (err database_failed, record w { faults = rest })
  | false ∷ rest ↦ run (record w { faults = rest })
]

-- `GetCursor`: none where there is no record.
unfoldable pub get_cursor : Scan (Option ℤ)
get_cursor = statement (λ w. (ok w.cursor, w))

unfoldable pub save_cursor : ℤ → Scan (Unit {0})
save_cursor n = statement (λ w. (ok tt, record w { cursor = some n }))

-- The columns of the unique index behind `Upsert`; a transaction's table is chosen by its wallet.
abbrev pub same_key : WalletTransaction → WalletTransaction → Bool
same_key a b =
    a.wallet_id == b.wallet_id
    && a.chain_id == b.chain_id
    && a.transaction_hash == b.transaction_hash
    && eqb_ℤ a.event_index b.event_index

unfoldable pub upsert_row : WalletTransaction → List WalletTransaction → List WalletTransaction
upsert_row t [] = t ∷ []
upsert_row t (u ∷ us) = if same_key u t then t ∷ us else u ∷ upsert_row t us

-- `gorm:"default:-1"` on the event index: GORM writes the default where the field has the zero value.
abbrev pub default_index : ℤ → ℤ
default_index i = if eqb_ℤ i (pos 0) then negsuc 0 else i

abbrev pub with_default_index : WalletTransaction → WalletTransaction
with_default_index t = record t { event_index = default_index t.event_index }

-- `Upsert`
unfoldable pub upsert : WalletTransaction → Scan (Unit {0})
unfolding upsert_row
upsert t =
    statement (λ w. (ok tt, record w { stored = upsert_row (with_default_index t) w.stored }))

unfoldable pub find_wallet : ℕ → ℕ → List Wallet → Option Wallet
find_wallet chain_id address [] = none
find_wallet chain_id address (v ∷ vs) =
    if v.chain_id == chain_id && v.address == address
    then some v
    else find_wallet chain_id address vs

-- `FindByChainAddress`: none where there is no record.
unfoldable pub find_by_chain_address : ℕ → ℕ → Scan (Option Wallet)
unfolding find_wallet
find_by_chain_address chain_id address =
    statement (λ w. (ok (find_wallet chain_id address w.wallets), w))

unfoldable pub active_on : ℕ → List Wallet → List Wallet
active_on chain_id [] = []
active_on chain_id (v ∷ vs) =
    if v.chain_id == chain_id && v.active then v ∷ active_on chain_id vs else active_on chain_id vs

-- `ListActiveByChain`
unfoldable pub list_active_by_chain : ℕ → Scan (List Wallet)
unfolding active_on
list_active_by_chain chain_id = statement (λ w. (ok (active_on chain_id w.wallets), w))

abbrev pub same_event : ChainEventReceipt → ChainEventReceipt → Bool
same_event a b =
    a.chain_id == b.chain_id
    && a.transaction_hash == b.transaction_hash
    && a.log_index == b.log_index

unfoldable pub has_receipt : ChainEventReceipt → List ChainEventReceipt → Bool
has_receipt e [] = false
has_receipt e (f ∷ fs) = if same_event f e then true else has_receipt e fs

-- `CreateEventIfAbsent`: whether a row was written.
unfoldable pub create_event_if_absent : ChainEventReceipt → Scan Bool
unfolding has_receipt
create_event_if_absent e = statement λ w.
    if has_receipt e w.events then (ok false, w) else (ok true, record w { events = e ∷ w.events })

unfoldable pub update_event :
    ChainEventReceipt
    → (ChainEventReceipt → ChainEventReceipt)
    → List ChainEventReceipt
    → List ChainEventReceipt
update_event e change [] = []
update_event e change (f ∷ fs) =
    if same_event f e then change f ∷ fs else f ∷ update_event e change fs

-- `MarkEventProcessed`
unfoldable pub mark_event_processed : ChainEventReceipt → Scan (Unit {0})
unfolding has_receipt update_event
mark_event_processed e = statement λ w.
    if has_receipt e w.events
    then (
      ok tt,
      record w {
        events = update_event e (λ f. record f { event_status = event_processed }) w.events;
      },
    )
    else (err record_not_found, w)

-- `MarkEventFailed`
unfoldable pub mark_event_failed : ChainEventReceipt → Scan (Unit {0})
unfolding has_receipt update_event
mark_event_failed e = statement λ w.
    if has_receipt e w.events
    then (
      ok tt,
      record w {
        events =
            update_event e (λ f. record f { event_status = event_failed; retries = f.retries + 1 })
              w.events;
      },
    )
    else (err record_not_found, w)
