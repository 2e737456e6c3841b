-- ===== src/Scanner/Covers.antt =====
-- A block that was scanned without error has a stored row, under the key of its native transfer, for
-- every transaction from or to a bound and active wallet.
use grpc_go_project.Prelude.{
  ℕ, ◌≡◌, refl, ap, subst, ◌∙◌, ◌⊎◌, inl, inr, true, Option, none, some, List, [], ◌∷◌, All,
}
use grpc_go_project.Prelude.Int.{negsuc}
use grpc_go_project.Prelude.Result.{Result, ok, err}
use grpc_go_project.Scanner.World.{
  Wallet, Transaction, Block, ScanError, Node, World, Scan, pure, for_each,
}
use grpc_go_project.Scanner.Store.{find_wallet}
use grpc_go_project.Scanner.Native.{save_all, scan_sent, scan_transaction, parties}
use grpc_go_project.Scanner.Chain.{ScanSettings, scan_block}
use grpc_go_project.Scanner.Transfer.{scan_erc20_transfers}
use grpc_go_project.Scanner.Extends.{RowWith-Extends, Extends, IsIn, for_each_in-Extending}
use grpc_go_project.Scanner.Written.{Written}
use grpc_go_project.Scanner.NativeSteps.{scan_transaction-Extending}
use grpc_go_project.Scanner.Steps.{scan_erc20_transfers-Extending}
use grpc_go_project.Scanner.Parties.{OnOk, bind_at-OnOk, Found, parties-Found}
use grpc_go_project.Scanner.Saved.{OnOk-with, HasNative, HasAll, save_all-OnOk}

-- For a transaction of a block: where it has a sender, such a row is stored for the wallet of each
-- address that sends or receives it, if the wallet is bound on the chain and active.
abbrev pub Covered : Node → ℕ → ℕ → Block → List Wallet → World → Transaction → Type 0
Covered node topic chain_id block wallets w t =
    (from address : ℕ) (v : Wallet)
    → t.sender ≡ some from
    → (address ≡ from) ⊎ (t.to ≡ some address)
    → find_wallet chain_id address wallets ≡ some v
    → v.active ≡ true
    → HasNative node topic chain_id block t.hash v.id w

Covered-Extends :
    (node : Node) (topic chain_id : ℕ) (block : Block) (wallets : List Wallet) (w w' : World)
    (t : Transaction)
    → Extends (Written node topic chain_id block) w w'
    → Covered node topic chain_id block wallets w t
    → Covered node topic chain_id block wallets w' t
Covered-Extends node topic chain_id block wallets w w' t e h from address v a b c d =
    RowWith-Extends e v.id chain_id t.hash (negsuc 0) (h from address v a b c d)

scan_sent-OnOk :
    (node : Node) (topic chain_id latest : ℕ) (block : Block) (t : Transaction) (from : ℕ)
    (w : World)
    → IsIn t block.transactions
    → t.sender ≡ some from
    → OnOk
        (λ _ w'. Covered node topic chain_id block w.wallets w' t)
        (scan_sent node chain_id latest block t from w)
unfolding scan_sent
scan_sent-OnOk node topic chain_id latest block t from w i e =
    bind_at-OnOk (λ vs _. Found chain_id from t.to w.wallets vs)
      (λ _ w'. Covered node topic chain_id block w.wallets w' t) (parties chain_id from t.to w).0
      (parties chain_id from t.to w).1 (save_all node chain_id latest block t from)
      (parties-Found chain_id from t.to w)
      λ vs u f.
        OnOk-with (λ _. HasAll node topic chain_id block t.hash vs)
          (λ _ w'. Covered node topic chain_id block w.wallets w' t)
          (save_all node chain_id latest block t from vs u).0
          (save_all node chain_id latest block t from vs u).1
          (save_all-OnOk node topic chain_id latest block t from vs u i e f.each)
          λ _ k other address v is_sender party found on. elim party [
            | inl sends ↦
                k v.id (f.sender v (ap (λ a. find_wallet chain_id a w.wallets) (cc) ∙ found) on)
            | inr receives ↦ k v.id (f.receiver address v receives found on)
          ]

Covered-sender :
    (node : Node) (topic chain_id latest : ℕ) (block : Block) (t : Transaction) (sender : Option ℕ)
    (w : World)
    → IsIn t block.transactions
    → t.sender ≡ sender
    → OnOk
        (λ _ w'. Covered node topic chain_id block w.wallets w' t)
        (elim sender as (λ _. Scan (Unit {0})) [
          | none ↦ pure tt
          | some from ↦ scan_sent node chain_id latest block t from
        ]
          w)
Covered-sender node topic chain_id latest block t none w i e =
    λ from address v is_sender party found on. absurd (cc)
Covered-sender node topic chain_id latest block t (some from) w i e =
    scan_sent-OnOk node topic chain_id latest block t from w i e

scan_transaction-OnOk :
    (node : Node) (topic chain_id latest : ℕ) (block : Block) (t : Transaction) (w : World)
    → IsIn t block.transactions
    → OnOk
        (λ _ w'. Covered node topic chain_id block w.wallets w' t)
        (scan_transaction node chain_id latest block t w)
unfolding scan_transaction
scan_transaction-OnOk node topic chain_id latest block t w i =
    Covered-sender node topic chain_id latest block t t.sender w i refl

scan_each-OnOk :
    (node : Node) (topic chain_id latest : ℕ) (block : Block) (wallets : List Wallet)
    (ts : List Transaction) (w : World)
    → ((t : Transaction) → IsIn t ts → IsIn t block.transactions)
    → w.wallets ≡ wallets
    → OnOk
        (λ _ w'. All (Covered node topic chain_id block wallets w') ts)
        (for_each (scan_transaction node chain_id latest block) ts w)
unfolding for_each
scan_each-OnOk node topic chain_id latest block wallets [] w sub e = tt
scan_each-OnOk node topic chain_id latest block wallets (t ∷ ts) w sub e =
    let step = scan_transaction node chain_id latest block in
    bind_at-OnOk (λ _ u. Covered node topic chain_id block wallets u t × (u.wallets ≡ wallets))
      (λ _ w'. All (Covered node topic chain_id block wallets w') (t ∷ ts)) (step t w).0
      (step t w).1 (λ _. for_each step ts)
      (OnOk-with (λ _ w'. Covered node topic chain_id block w.wallets w' t)
        (λ _ u. Covered node topic chain_id block wallets u t × (u.wallets ≡ wallets)) (step t w).0
        (step t w).1 (scan_transaction-OnOk node topic chain_id latest block t w (sub t (inl refl)))
        (λ _ c. (
          subst (λ ws. Covered node topic chain_id block ws (step t w).1 t) e c,
          ((scan_transaction-Extending node topic chain_id latest block t (sub t (inl refl))).at
                w).same_wallets
              ∙ e,
        )))
      λ _ u h.
        OnOk-with (λ _ w'. All (Covered node topic chain_id block wallets w') ts)
          (λ _ w'. All (Covered node topic chain_id block wallets w') (t ∷ ts))
          (for_each step ts u).0 (for_each step ts u).1
          (scan_each-OnOk node topic chain_id latest block wallets ts u (λ u' i. sub u' (inr i))
            h.1)
          (λ _ rest. (
            Covered-Extends node topic chain_id block wallets u (for_each step ts u).1 t
                ((for_each_in-Extending step ts (λ u' i.
                    scan_transaction-Extending node topic chain_id latest block u'
                      (sub u' (inr i)))).at
                  u)
                h.0,
            rest,
          ))

All-Covered :
    (node : Node) (topic chain_id : ℕ) (block : Block) (wallets : List Wallet) (w w' : World)
    (ts : List Transaction)
    → Extends (Written node topic chain_id block) w w'
    → All (Covered node topic chain_id block wallets w) ts
    → All (Covered node topic chain_id block wallets w') ts
All-Covered node topic chain_id block wallets w w' [] e a = tt
All-Covered node topic chain_id block wallets w w' (t ∷ ts) e a = (
  Covered-Extends node topic chain_id block wallets w w' t e a.0,
  All-Covered node topic chain_id block wallets w w' ts e a.1,
)

-- A block that is scanned without error, whatever statements of the database fail: for each transaction
-- with a sender and for each address that sends or receives it, if a wallet of the address is bound on
-- the chain and active then under the hash of the transaction and the index -1 a row of this chain and
-- block is stored for it, with the status of the transaction on the node and the direction of one of
-- the parties. It shows a native transfer, with the sender, the receiver and the value of a transaction
-- of the block with this hash; or, when the node gave a Transfer log with this hash whose index becomes
-- -1, it may show the event of that log.
pub scan_block-Covered :
    (node : Node) (s : ScanSettings) (latest : ℕ) (block : Block) (w : World)
    → OnOk
        (λ _ w'.
          All (Covered node s.transfer_topic s.chain_id block w.wallets w') block.transactions)
        (scan_block node s latest block w)
unfolding scan_block
scan_block-Covered node s latest block w =
    let each = for_each (scan_transaction node s.chain_id latest block) block.transactions in
    let tokens = scan_erc20_transfers node s.transfer_topic s.chain_id latest block in
    bind_at-OnOk
      (λ _ w'. All (Covered node s.transfer_topic s.chain_id block w.wallets w') block.transactions)
      (λ _ w'. All (Covered node s.transfer_topic s.chain_id block w.wallets w') block.transactions)
      (each w).0 (each w).1 (λ _. tokens)
      (scan_each-OnOk node s.transfer_topic s.chain_id latest block w.wallets block.transactions w
        (λ t i. i) refl)
      λ _ u h.
        OnOk-with (λ _ v. Unit {0})
          (λ _ w'.
            All (Covered node s.transfer_topic s.chain_id block w.wallets w') block.transactions)
          (tokens u).0 (tokens u).1 (trivial (tokens u).0 (tokens u).1)
          (λ _ _.
            All-Covered node s.transfer_topic s.chain_id block w.wallets u (tokens u).1
              block.transactions
              ((scan_erc20_transfers-Extending node s.transfer_topic s.chain_id latest block).at u)
              h)
  where
    trivial : (x : Result ScanError (Unit {0})) (v : World) → OnOk (λ _ v'. Unit {0}) (x, v)
    trivial (ok a) v = tt
    trivial (err e) v = tt
