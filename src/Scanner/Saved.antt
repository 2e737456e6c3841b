-- ===== src/Scanner/Saved.antt =====
-- Where the statements for a native transfer succeed, its rows are stored for the wallets of its parties.
use grpc_go_project.Prelude.{
  ℕ, ◌≡◌, refl, sym, subst, inl, inr, true, ◌||◌, Option, none, some, List, [], ◌∷◌, ◌==◌, All,
  arith, Bool-cases,
}
use grpc_go_project.Prelude.Int.{negsuc}
use grpc_go_project.Prelude.Result.{Result, ok, err}
use grpc_go_project.Scanner.World.{
  TransactionStatus, TransactionDirection, incoming, outgoing, self, Wallet, WalletTransaction,
  Transaction, Block, ScanError, Node, World, Scan, pure, for_each,
}
use grpc_go_project.Scanner.Store.{upsert, with_default_index, upsert_row}
use grpc_go_project.Scanner.Native.{
  is_address, transaction_direction, native_snapshot, has_wallet, save_native, save_all,
  mined_transaction_status,
}
use grpc_go_project.Scanner.Extends.{
  row_at-upsert_row, RowWith, RowWith-Extends, Extends, Extending-for_each, IsIn,
}
use grpc_go_project.Scanner.Written.{Written}
use grpc_go_project.Scanner.NativeSteps.{native_snapshot-Written, save_native-Extending}
use grpc_go_project.Scanner.Parties.{OnOk, bind_at-OnOk, statement-OnOk, IsParty}

pub OnOk-with :
    {A : Type 0} (P Q : A → World → Type 0) (x : Result ScanError A) (v : World)
    → OnOk P (x, v)
    → ((a : A) → P a v → Q a v)
    → OnOk Q (x, v)
OnOk-with P Q (ok a) v h k = k a h
OnOk-with P Q (err e) v h k = tt

IsParty-direction :
    (a from : ℕ) (to : Option ℕ)
    → ((a == from) || is_address to a) ≡ true
    → (d : TransactionDirection) × (transaction_direction a from to ≡ some d)
unfolding transaction_direction
IsParty-direction a from to h = elim (Bool-cases (a == from)) [
  | inl sends ↦ elim (Bool-cases (is_address to a)) [
    | inl also ↦ rw sends (rw also (self, refl))
    | inr alone ↦ rw sends (rw alone (outgoing, refl))
  ]
  | inr not_from ↦ elim (Bool-cases (is_address to a)) [
    | inl is_to ↦ rw not_from (rw is_to (incoming, refl))
    | inr neither ↦ absurd (cc)
  ]
]

-- Under the key of the native transfer of a transaction, a row that the scan of the block wrote is
-- stored for a wallet.
abbrev pub HasNative : Node → ℕ → ℕ → Block → ℕ → ℕ → World → Type 0
HasNative node topic chain_id block hash id w =
    RowWith (Written node topic chain_id block) w.stored id chain_id hash (negsuc 0)

upsert-OnOk :
    (W : WalletTransaction → Type 0) (t : WalletTransaction) (w : World)
    → W (with_default_index t)
    → OnOk
        (λ _ w'.
          RowWith W w'.stored t.wallet_id t.chain_id t.transaction_hash
            (with_default_index t).event_index)
        (upsert t w)
unfolding upsert
upsert-OnOk W t w h =
    statement-OnOk
      (λ _ w'.
        RowWith W w'.stored t.wallet_id t.chain_id t.transaction_hash
          (with_default_index t).event_index)
      (λ v. (ok tt, record v { stored = upsert_row (with_default_index t) v.stored })) w.faults w
      (λ fs.
        (with_default_index t, row_at-upsert_row (with_default_index t) w.stored, refl, refl, h))

save_native-OnOk :
    (node : Node) (topic chain_id latest : ℕ) (block : Block) (t : Transaction) (from : ℕ)
    (status : TransactionStatus) (v : Wallet) (w : World)
    → IsIn t block.transactions
    → t.sender ≡ some from
    → mined_transaction_status node t.hash ≡ ok status
    → IsParty from t.to v
    → OnOk
        (λ _. HasNative node topic chain_id block t.hash v.id)
        (save_native chain_id latest block t from status v w)
unfolding save_native native_snapshot
save_native-OnOk node topic chain_id latest block t from status v w i sent mined h =
    let (d, e) = IsParty-direction v.address from t.to h in
    subst
      (λ o.
        OnOk (λ _. HasNative node topic chain_id block t.hash v.id)
          (elim o as (λ _. Scan (Unit {0})) [
            | none ↦ pure tt
            | some direction ↦
                upsert (native_snapshot chain_id latest block t from status v direction)
          ]
            w))
      (sym e)
      (upsert-OnOk (Written node topic chain_id block)
        (native_snapshot chain_id latest block t from status v d) w
        (native_snapshot-Written node topic chain_id latest block t from status v d i sent mined e))

-- Such a row is stored for each of the wallets.
abbrev pub HasAll : Node → ℕ → ℕ → Block → ℕ → List Wallet → World → Type 0
HasAll node topic chain_id block hash vs w =
    (id : ℕ) → has_wallet id vs ≡ true → HasNative node topic chain_id block hash id w

HasAll-cons :
    (node : Node) (topic chain_id : ℕ) (block : Block) (hash : ℕ) (v : Wallet) (vs : List Wallet)
    (w w' : World)
    → Extends (Written node topic chain_id block) w w'
    → HasNative node topic chain_id block hash v.id w
    → HasAll node topic chain_id block hash vs w'
    → HasAll node topic chain_id block hash (v ∷ vs) w'
unfolding has_wallet
HasAll-cons node topic chain_id block hash v vs w w' e h k id has = elim (Bool-cases (v.id == id)) [
  | inl same ↦
      subst (λ n. HasNative node topic chain_id block hash n w')
        (let eq' : v.id ≡ id = ground arith in eq')
        (RowWith-Extends e v.id chain_id hash (negsuc 0) h)
  | inr other ↦ k id (ground arith)
]

save_each-OnOk :
    (node : Node) (topic chain_id latest : ℕ) (block : Block) (t : Transaction) (from : ℕ)
    (status : TransactionStatus) (vs : List Wallet) (w : World)
    → IsIn t block.transactions
    → t.sender ≡ some from
    → mined_transaction_status node t.hash ≡ ok status
    → All (IsParty from t.to) vs
    → OnOk
        (λ _. HasAll node topic chain_id block t.hash vs)
        (for_each (save_native chain_id latest block t from status) vs w)
unfolding for_each has_wallet
save_each-OnOk node topic chain_id latest block t from status [] w i sent mined a =
    λ id has. absurd (cc)
save_each-OnOk node topic chain_id latest block t from status (v ∷ vs) w i sent mined a =
    let step = save_native chain_id latest block t from status in
    bind_at-OnOk (λ _. HasNative node topic chain_id block t.hash v.id)
      (λ _. HasAll node topic chain_id block t.hash (v ∷ vs)) (step v w).0 (step v w).1
      (λ _. for_each step vs)
      (save_native-OnOk node topic chain_id latest block t from status v w i sent mined a.0)
      λ _ u h.
        OnOk-with (λ _. HasAll node topic chain_id block t.hash vs)
          (λ _. HasAll node topic chain_id block t.hash (v ∷ vs)) (for_each step vs u).0
          (for_each step vs u).1
          (save_each-OnOk node topic chain_id latest block t from status vs u i sent mined a.1)
          (λ _.
            HasAll-cons node topic chain_id block t.hash v vs u (for_each step vs u).1
              ((Extending-for_each step vs (λ u'.
                  save_native-Extending node topic chain_id latest block t from status u' i sent
                    mined)).at
                u)
              h)

pub save_all-OnOk :
    (node : Node) (topic chain_id latest : ℕ) (block : Block) (t : Transaction) (from : ℕ)
    (vs : List Wallet) (w : World)
    → IsIn t block.transactions
    → t.sender ≡ some from
    → All (IsParty from t.to) vs
    → OnOk
        (λ _. HasAll node topic chain_id block t.hash vs)
        (save_all node chain_id latest block t from vs w)
unfolding has_wallet
save_all-OnOk node topic chain_id latest block t from [] w i sent a = λ id has. absurd (cc)
save_all-OnOk node topic chain_id latest block t from (v ∷ vs) w i sent a =
    bind_at-OnOk (λ status u. mined_transaction_status node t.hash ≡ ok status)
      (λ _. HasAll node topic chain_id block t.hash (v ∷ vs)) (mined_transaction_status node t.hash)
      w (λ status. for_each (save_native chain_id latest block t from status) (v ∷ vs))
      (lifted (mined_transaction_status node t.hash) w)
      (λ status u mined.
        save_each-OnOk node topic chain_id latest block t from status (v ∷ vs) u i sent mined a)
  where
    lifted : {A : Type 0} (r : Result ScanError A) (u : World) → OnOk (λ a _. r ≡ ok a) (r, u)
    lifted (ok x) u = refl
    lifted (err x) u = tt
