-- ===== src/Binding/Manage.antt =====
-- web3/internal/service/wallet.go: CreateBindingNonce, UnbindWallet, UpdateWallet, and all calls in turn.
use grpc_go_project.Prelude.{
  ℕ, Bool, true, false, not, Option, none, some, List, [], ◌∷◌, take, ltb, ◌==◌, if◌then◌else◌,
}
use grpc_go_project.Prelude.Result.{Result, ok, err}
use grpc_go_project.Wallets.{
  Wallet, WalletError, row_of, disable, set_default, unset_default, update_label,
}
use grpc_go_project.Binding.{
  BindError, unauthorized, unsupported_chain, invalid_address, nonce_incomplete, label_too_long,
  wallet_id_missing, database_failed, repository_failed, Nonces, Draw, create_attempts, owned_row,
  BindRequest, BindWorld,
}
use grpc_go_project.Binding.Bind.{chain_enabled, BindState, Signatures, bind_wallet}

-- What a call of CreateBindingNonce meets.
pub record NonceWorld : Type 0 where
  pub now : ℕ
  pub ttl : ℕ
  pub redis_refuses : Bool
  pub draws : List Draw

abbrev pub create_nonce_for : NonceWorld → ℕ → ℕ → Option ℕ → Nonces → Result BindError ℕ × Nonces
create_nonce_for w subject chain_id none ns = (err invalid_address, ns)
create_nonce_for w subject chain_id (some address) ns =
    create_attempts w.redis_refuses subject chain_id address w.now w.ttl (take 3 w.draws) ns

-- `Create` of a subject that is not blank.
unfoldable pub create_nonce :
    Signatures → NonceWorld → ℕ → ℕ → ℕ → Nonces → Result BindError ℕ × Nonces
unfolding create_attempts
create_nonce sig w subject chain_id address ns =
    if chain_id == 0
    then (err nonce_incomplete, ns)
    else create_nonce_for w subject chain_id (sig.normalize address) ns

-- `CreateBindingNonce`
unfoldable pub create_binding_nonce :
    Signatures → List ℕ → NonceWorld → Option ℕ → ℕ → ℕ → Nonces → Result BindError ℕ × Nonces
unfolding create_nonce chain_enabled
create_binding_nonce sig chains w none chain_id address ns = (err unauthorized, ns)
create_binding_nonce sig chains w (some subject) chain_id address ns =
    if not (chain_enabled chain_id chains)
    then (err unsupported_chain, ns)
    else create_nonce sig w subject chain_id address ns

abbrev pub Managed : Type 0 → Type 0
Managed A = Result BindError A × List Wallet

abbrev pub normalize_not_found : Result WalletError (Unit {0}) × List Wallet → Managed (Unit {0})
normalize_not_found (ok a, vs) = (ok a, vs)
normalize_not_found (err e, vs) = (err (repository_failed e), vs)

-- `UnbindWallet`; a blank wallet id is none.
unfoldable pub unbind_wallet : Bool → Option ℕ → Option ℕ → List Wallet → Managed (Unit {0})
unfolding disable
unbind_wallet refused none id vs = (err unauthorized, vs)
unbind_wallet refused (some subject) none vs = (err wallet_id_missing, vs)
unbind_wallet refused (some subject) (some id) vs =
    normalize_not_found (disable refused subject id vs)

-- The label comes with its length in bytes.
pub record UpdateRequest : Type 0 where
  pub wallet_id : Option ℕ
  pub new_label : Option (ℕ × ℕ)
  pub make_default : Option Bool

pub record UpdateWorld : Type 0 where
  pub label_refused : Bool
  pub default_refused : Bool
  pub find_refused : Bool

abbrev pub after_default :
    UpdateWorld → ℕ → ℕ → Result WalletError (Unit {0}) × List Wallet → Managed Wallet
after_default w subject id (err e, vs) = (err (repository_failed e), vs)
after_default w subject id (ok _, vs) =
    (if w.find_refused then err database_failed else owned_row subject (row_of id vs), vs)

unfoldable pub apply_default : UpdateWorld → ℕ → ℕ → Option Bool → List Wallet → Managed Wallet
unfolding set_default unset_default row_of
apply_default w subject id none vs = after_default w subject id (ok tt, vs)
apply_default w subject id (some true) vs =
    after_default w subject id (set_default w.default_refused subject id vs)
apply_default w subject id (some false) vs =
    after_default w subject id (unset_default w.default_refused subject id vs)

abbrev pub after_label :
    UpdateWorld → ℕ → ℕ → Option Bool → Result WalletError (Unit {0}) × List Wallet → Managed Wallet
after_label w subject id d (err e, vs) = (err (repository_failed e), vs)
after_label w subject id d (ok _, vs) = apply_default w subject id d vs

unfoldable pub apply_label :
    UpdateWorld → ℕ → ℕ → Option Bool → Option (ℕ × ℕ) → List Wallet → Managed Wallet
unfolding update_label apply_default
apply_label w subject id d none vs = apply_default w subject id d vs
apply_label w subject id d (some (label, size)) vs =
    if ltb 128 size
    then (err label_too_long, vs)
    else after_label w subject id d (update_label w.label_refused subject id label vs)

-- `UpdateWallet`
unfoldable pub update_wallet :
    UpdateWorld → Option ℕ → Option ℕ → Option (ℕ × ℕ) → Option Bool → List Wallet → Managed Wallet
unfolding apply_label
update_wallet w none id label d vs = (err unauthorized, vs)
update_wallet w (some subject) none label d vs = (err wallet_id_missing, vs)
update_wallet w (some subject) (some id) label d vs = apply_label w subject id d label vs

-- The calls of `WalletService` that change state, each with who calls and what the call meets.
pub data WalletCall : Type 0 where
  asks_nonce : NonceWorld → Option ℕ → ℕ → ℕ → WalletCall
  binds : BindWorld → Option ℕ → BindRequest → WalletCall
  unbinds : Bool → Option ℕ → Option ℕ → WalletCall
  updates : UpdateWorld → Option ℕ → UpdateRequest → WalletCall

unfoldable pub call_one : Signatures → List ℕ → WalletCall → BindState → BindState
unfolding create_binding_nonce bind_wallet unbind_wallet update_wallet
call_one sig chains (asks_nonce w identity chain_id address) (ns, vs) =
    ((create_binding_nonce sig chains w identity chain_id address ns).1, vs)
call_one sig chains (binds w identity req) s = (bind_wallet sig chains w identity req s).1
call_one sig chains (unbinds refused identity id) (ns, vs) =
    (ns, (unbind_wallet refused identity id vs).1)
call_one sig chains (updates w identity req) (ns, vs) =
    (ns, (update_wallet w identity req.wallet_id req.new_label req.make_default vs).1)

unfoldable pub call_all : Signatures → List ℕ → List WalletCall → BindState → BindState
unfolding call_one
call_all sig chains [] s = s
call_all sig chains (c ∷ cs) s = call_all sig chains cs (call_one sig chains c s)
