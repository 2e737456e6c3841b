-- ===== src/Wallets.antt =====
-- web3/internal/repository/wallet.go: the wallets that users have bound, and which one is the default.
-- `Counts` counts defaults under an update, `Defaults`, `Choice` and `Reach` have what the
-- operations promise.
use grpc_go_project.Prelude.{
  ℕ, ◌+◌, Bool, true, false, not, ◌&&◌, ◌||◌, Option, none, some, List, [], ◌∷◌, ◌++◌, ◌==◌, leb,
  if◌then◌else◌,
}
use grpc_go_project.Prelude.Result.{Result, ok, err}
pub mod Counts
pub mod Defaults
pub mod Choice
pub mod Reach

-- `model.Wallet`, without the time of its last change. Ids, subjects, addresses and labels are the
-- numbers of their texts.
pub record Wallet : Type 0 where
  pub id : ℕ
  pub user_subject : ℕ
  pub chain_id : ℕ
  pub address : ℕ
  pub label : ℕ
  pub active : Bool
  pub is_default : Bool
  pub verified_at : ℕ
  pub created_at : ℕ

pub data WalletError : Type 0 where
  not_found duplicate_wallet wallets_failed : WalletError

-- An active default wallet of the user counts once.
abbrev pub counts : ℕ → Wallet → ℕ
counts user v = if v.user_subject == user && v.active && v.is_default then 1 else 0

unfoldable pub default_count : ℕ → List Wallet → ℕ
default_count user [] = 0
default_count user (v ∷ vs) = counts user v + default_count user vs

unfoldable pub row_of : ℕ → List Wallet → Option Wallet
row_of id [] = none
row_of id (v ∷ vs) = if v.id == id then some v else row_of id vs

-- The unique keys of the table: the id, and the chain with the address.
unfoldable pub conflicts : Wallet → List Wallet → Bool
conflicts v [] = false
conflicts v (u ∷ us) =
    if u.id == v.id || (u.chain_id == v.chain_id && u.address == v.address)
    then true
    else conflicts v us

-- `Where("id = ?", id).Updates(…)`
unfoldable pub update_row : ℕ → (Wallet → Wallet) → List Wallet → List Wallet
update_row id change [] = []
update_row id change (v ∷ vs) =
    let rest = update_row id change vs in (if v.id == id then change v else v) ∷ rest

-- The row of an active wallet of the user.
abbrev pub if_active : ℕ → Option Wallet → Option Wallet
if_active user none = none
if_active user (some v) = if v.user_subject == user && v.active then some v else none

-- A transaction whose statements, or whose commit, the database refuses leaves the table as it was.
abbrev pub transaction :
    Bool
    → Result WalletError (List Wallet)
    → List Wallet
    → Result WalletError (Unit {0}) × List Wallet
transaction true r vs = (err wallets_failed, vs)
transaction false (err e) vs = (err e, vs)
transaction false (ok vs') vs = (ok tt, vs')

-- `CreateBoundWallet`
unfoldable pub create_bound_wallet :
    Bool → Wallet → List Wallet → Result WalletError (Unit {0}) × List Wallet
unfolding default_count conflicts
create_bound_wallet refused v vs =
    transaction refused
      (if conflicts v vs
        then err duplicate_wallet
        else ok (record v { is_default = default_count v.user_subject vs == 0 } ∷ vs))
      vs

-- `Reactivate`
unfoldable pub reactivate :
    Bool → Wallet → ℕ → ℕ → List Wallet → Result WalletError (Unit {0}) × List Wallet
unfolding default_count update_row
reactivate refused v label verified_at vs =
    let is_default = default_count v.user_subject vs == 0 in
    transaction refused
      (ok (
        update_row v.id
          (λ u. record u {
            active = true;
            label = label;
            verified_at = verified_at;
            is_default = is_default;
          })
          vs))
      vs

-- `Where("user_subject = ? AND is_default = ?", user, true).Update("is_default", false)`
unfoldable pub clear_defaults : ℕ → List Wallet → List Wallet
clear_defaults user [] = []
clear_defaults user (v ∷ vs) =
    let rest = clear_defaults user vs in
    (if v.user_subject == user && v.is_default then record v { is_default = false } else v) ∷ rest

abbrev pub default_if_found : ℕ → ℕ → Option Wallet → List Wallet → Result WalletError (List Wallet)
default_if_found user id none vs = err not_found
default_if_found user id (some v) vs =
    ok (update_row id (λ u. record u { is_default = true }) (clear_defaults user vs))

-- `SetDefault`
unfoldable pub set_default :
    Bool → ℕ → ℕ → List Wallet → Result WalletError (Unit {0}) × List Wallet
unfolding row_of clear_defaults update_row
set_default refused user id vs =
    transaction refused (default_if_found user id (if_active user (row_of id vs)) vs) vs

abbrev pub undefault_if_found : ℕ → Option Wallet → List Wallet → Result WalletError (List Wallet)
undefault_if_found id none vs = err not_found
undefault_if_found id (some v) vs = ok (update_row id (λ u. record u { is_default = false }) vs)

-- `UnsetDefault`
unfoldable pub unset_default :
    Bool → ℕ → ℕ → List Wallet → Result WalletError (Unit {0}) × List Wallet
unfolding row_of update_row
unset_default refused user id vs =
    transaction refused (undefault_if_found id (if_active user (row_of id vs)) vs) vs

-- The earlier one of two rows, the first one where they were created at the same time.
abbrev pub earlier : Wallet → Option Wallet → Option Wallet
earlier v none = some v
earlier v (some u) = if leb v.created_at u.created_at then some v else some u

-- `Where("user_subject = ? AND status = ?", …).Order("created_at ASC").First`
unfoldable pub oldest_active : ℕ → List Wallet → Option Wallet
oldest_active user [] = none
oldest_active user (v ∷ vs) =
    let rest = oldest_active user vs in
    if v.user_subject == user && v.active then earlier v rest else rest

abbrev pub promote : Option Wallet → List Wallet → List Wallet
promote none vs = vs
promote (some v) vs = update_row v.id (λ u. record u { is_default = true }) vs

abbrev pub disable_if_found : ℕ → ℕ → Option Wallet → List Wallet → Result WalletError (List Wallet)
disable_if_found user id none vs = err not_found
disable_if_found user id (some current) vs =
    let disabled = update_row id (λ u. record u { active = false; is_default = false }) vs in
    if current.is_default then ok (promote (oldest_active user disabled) disabled) else ok disabled

-- `Disable`
unfoldable pub disable : Bool → ℕ → ℕ → List Wallet → Result WalletError (Unit {0}) × List Wallet
unfolding row_of update_row oldest_active
disable refused user id vs =
    transaction refused (disable_if_found user id (if_active user (row_of id vs)) vs) vs

abbrev pub label_if_found : ℕ → ℕ → Option Wallet → List Wallet → Result WalletError (List Wallet)
label_if_found id label none vs = err not_found
label_if_found id label (some v) vs = ok (update_row id (λ u. record u { label = label }) vs)

-- `UpdateLabel`
unfoldable pub update_label :
    Bool → ℕ → ℕ → ℕ → List Wallet → Result WalletError (Unit {0}) × List Wallet
unfolding row_of update_row
update_label refused user id label vs =
    transaction refused (label_if_found id label (if_active user (row_of id vs)) vs) vs
