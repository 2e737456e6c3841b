-- ===== src/Wallets/Reach.antt =====
-- web3/internal/repository/wallet.go over every sequence of its transactions, and what the choice of
-- a default ends with.
use grpc_go_project.Prelude.{
  ℕ, ◌≡◌, refl, sym, subst, if-cases, Bool, true, false, some, List, [], arith,
}
use grpc_go_project.Prelude.Result.{ok}
use grpc_go_project.Wallets.{
  Wallet, default_count, row_of, if_active, transaction, create_bound_wallet, reactivate,
  default_if_found, set_default, unset_default, oldest_active, promote, disable_if_found, disable,
  update_label,
}
use grpc_go_project.Wallets.Counts.{distinct_ids}
use grpc_go_project.Wallets.Defaults.{
  OneDefault, OfUser, create_bound_wallet-OneDefault, reactivate-OneDefault,
  unset_default-OneDefault, update_label-OneDefault,
}
use grpc_go_project.Wallets.Choice.{
  if_active_of, chosen, disabled, disabled-OneDefault, disabled_none, Replaced, replacement,
  set_default-OneDefault, disable-OneDefault,
}

-- One transaction on the table, whether the database takes it or not.
pub data WalletStep : List Wallet → List Wallet → Type 0 where
  creates :
      (refused : Bool) (v : Wallet) (vs : List Wallet)
      → WalletStep vs (create_bound_wallet refused v vs).1
  reactivates :
      (refused : Bool) (v : Wallet) (label verified_at : ℕ) (vs : List Wallet)
      → OfUser v.id v.user_subject vs
      → WalletStep vs (reactivate refused v label verified_at vs).1
  sets :
      (refused : Bool) (user id : ℕ) (vs : List Wallet)
      → WalletStep vs (set_default refused user id vs).1
  unsets :
      (refused : Bool) (user id : ℕ) (vs : List Wallet)
      → WalletStep vs (unset_default refused user id vs).1
  disables :
      (refused : Bool) (user id : ℕ) (vs : List Wallet)
      → WalletStep vs (disable refused user id vs).1
  labels :
      (refused : Bool) (user id label : ℕ) (vs : List Wallet)
      → WalletStep vs (update_label refused user id label vs).1

pub data WalletReach : List Wallet → Type 0 where
  no_wallets : WalletReach []
  after : (vs vs' : List Wallet) → WalletReach vs → WalletStep vs vs' → WalletReach vs'

step-OneDefault : (vs vs' : List Wallet) → WalletStep vs vs' → OneDefault vs → OneDefault vs'
step-OneDefault _ _ (creates refused v vs) o = create_bound_wallet-OneDefault refused v vs o
step-OneDefault _ _ (reactivates refused v label at vs own) o =
    reactivate-OneDefault refused v label at vs own o
step-OneDefault _ _ (sets refused user id vs) o = set_default-OneDefault refused user id vs o
step-OneDefault _ _ (unsets refused user id vs) o = unset_default-OneDefault refused user id vs o
step-OneDefault _ _ (disables refused user id vs) o = disable-OneDefault refused user id vs o
step-OneDefault _ _ (labels refused user id label vs) o =
    update_label-OneDefault refused user id label vs o

-- From an empty table, over every sequence of transactions that the database takes or refuses, in
-- which a wallet is reactivated for the user that its row names: ids stay unique and no user ever has
-- two active default wallets.
pub reach-OneDefault : (vs : List Wallet) → WalletReach vs → OneDefault vs
unfolding distinct_ids default_count
reach-OneDefault _ no_wallets = record { unique = refl; one = λ user. omega arith }
reach-OneDefault _ (after vs vs' r s) = step-OneDefault vs vs' s (reach-OneDefault vs r)

-- When no user has two defaults and an active wallet of this user is made the default, then the user
-- has exactly one active default wallet.
set_default_one :
    (user id : ℕ) (vs : List Wallet) (v : Wallet)
    → OneDefault vs
    → if_active user (row_of id vs) ≡ some v
    → default_count user (set_default false user id vs).1 ≡ 1
unfolding set_default
set_default_one user id vs v o e =
    subst
      (λ found. default_count user (transaction false (default_if_found user id found vs) vs).1 ≡ 1)
      (sym e) (chosen user id vs v o (if_active_of user (row_of id vs) v e)).1

-- When no user has two defaults and the default wallet of a user is disabled, then the user has
-- exactly one active default wallet again, or has no active wallet left.
pub disable_replaces :
    (user id : ℕ) (vs : List Wallet) (v : Wallet)
    → OneDefault vs
    → if_active user (row_of id vs) ≡ some v
    → v.is_default ≡ true
    → Replaced user (disabled id vs) (disable false user id vs).1
unfolding disable
disable_replaces user id vs v o e is_default =
    subst
      (λ found.
        Replaced user (disabled id vs) (transaction false (disable_if_found user id found vs) vs).1)
      (sym e)
      (if-cases (λ r. Replaced user (disabled id vs) (transaction false r vs).1) v.is_default
        (ok (promote (oldest_active user (disabled id vs)) (disabled id vs))) (ok (disabled id vs))
        (λ _.
          (replacement user (disabled id vs) (oldest_active user (disabled id vs))
            (disabled-OneDefault id vs o)
            (disabled_none user id vs v o (if_active_of user (row_of id vs) v e) is_default)
            refl).1)
        (λ off. absurd (cc)))
