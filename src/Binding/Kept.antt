-- ===== src/Binding/Kept.antt =====
-- web3/internal/service/wallet.go: the calls of the service, in any order, keep the default wallets.
use grpc_go_project.Prelude.{ℕ, if-cases, Bool, true, false, Option, none, some, List, [], ◌∷◌, ltb}
use grpc_go_project.Prelude.Result.{Result, ok, err}
use grpc_go_project.Wallets.{Wallet, WalletError, disable, set_default, unset_default, update_label}
use grpc_go_project.Wallets.Defaults.{OneDefault, unset_default-OneDefault, update_label-OneDefault}
use grpc_go_project.Wallets.Choice.{set_default-OneDefault, disable-OneDefault}
use grpc_go_project.Wallets.Reach.{no_wallets, reach-OneDefault}
use grpc_go_project.Binding.{label_too_long, Nonces}
use grpc_go_project.Binding.Bind.{BindState, Signatures}
use grpc_go_project.Binding.Once.{bind_wallet-OneDefault}
use grpc_go_project.Binding.Manage.{
  normalize_not_found, unbind_wallet, UpdateWorld, after_default, apply_default, after_label,
  apply_label, update_wallet, Managed, WalletCall, asks_nonce, binds, unbinds, updates, call_one,
  call_all,
}

unbind_wallet-OneDefault :
    (refused : Bool) (identity id : Option ℕ) (vs : List Wallet)
    → OneDefault vs
    → OneDefault (unbind_wallet refused identity id vs).1
unfolding unbind_wallet
unbind_wallet-OneDefault refused none id vs o = o
unbind_wallet-OneDefault refused (some subject) none vs o = o
unbind_wallet-OneDefault refused (some subject) (some id) vs o =
    same (disable refused subject id vs) (disable-OneDefault refused subject id vs o)
  where
    same :
        (x : Result WalletError (Unit {0}) × List Wallet)
        → OneDefault x.1
        → OneDefault (normalize_not_found x).1
    same (ok a, us) h = h
    same (err e, us) h = h

after_default-OneDefault :
    (w : UpdateWorld) (subject id : ℕ) (x : Result WalletError (Unit {0}) × List Wallet)
    → OneDefault x.1
    → OneDefault (after_default w subject id x).1
after_default-OneDefault w subject id (ok _, us) h = h
after_default-OneDefault w subject id (err e, us) h = h

apply_default-OneDefault :
    (w : UpdateWorld) (subject id : ℕ) (d : Option Bool) (vs : List Wallet)
    → OneDefault vs
    → OneDefault (apply_default w subject id d vs).1
unfolding apply_default
apply_default-OneDefault w subject id none vs o = o
apply_default-OneDefault w subject id (some true) vs o =
    after_default-OneDefault w subject id (set_default w.default_refused subject id vs)
      (set_default-OneDefault w.default_refused subject id vs o)
apply_default-OneDefault w subject id (some false) vs o =
    after_default-OneDefault w subject id (unset_default w.default_refused subject id vs)
      (unset_default-OneDefault w.default_refused subject id vs o)

apply_label-OneDefault :
    (w : UpdateWorld) (subject id : ℕ) (d : Option Bool) (l : Option (ℕ × ℕ)) (vs : List Wallet)
    → OneDefault vs
    → OneDefault (apply_label w subject id d l vs).1
unfolding apply_label
apply_label-OneDefault w subject id d none vs o = apply_default-OneDefault w subject id d vs o
apply_label-OneDefault w subject id d (some (label, size)) vs o =
    if-cases (λ (x : Managed Wallet). OneDefault x.1) (ltb 128 size) (err label_too_long, vs) _
      (λ _. o)
      (λ _.
        then_default (update_label w.label_refused subject id label vs)
          (update_label-OneDefault w.label_refused subject id label vs o))
  where
    then_default :
        (x : Result WalletError (Unit {0}) × List Wallet)
        → OneDefault x.1
        → OneDefault (after_label w subject id d x).1
    then_default (ok _, us) h = apply_default-OneDefault w subject id d us h
    then_default (err e, us) h = h

update_wallet-OneDefault :
    (w : UpdateWorld) (identity id : Option ℕ) (l : Option (ℕ × ℕ)) (d : Option Bool)
    (vs : List Wallet)
    → OneDefault vs
    → OneDefault (update_wallet w identity id l d vs).1
unfolding update_wallet
update_wallet-OneDefault w none id l d vs o = o
update_wallet-OneDefault w (some subject) none l d vs o = o
update_wallet-OneDefault w (some subject) (some id) l d vs o =
    apply_label-OneDefault w subject id d l vs o

call_one-OneDefault :
    (sig : Signatures) (chains : List ℕ) (c : WalletCall) (s : BindState)
    → OneDefault s.1
    → OneDefault (call_one sig chains c s).1
unfolding call_one
call_one-OneDefault sig chains (asks_nonce w identity chain_id address) (ns, vs) o = o
call_one-OneDefault sig chains (binds w identity req) s o =
    bind_wallet-OneDefault sig chains w identity req s o
call_one-OneDefault sig chains (unbinds refused identity id) (ns, vs) o =
    unbind_wallet-OneDefault refused identity id vs o
call_one-OneDefault sig chains (updates w identity req) (ns, vs) o =
    update_wallet-OneDefault w identity req.wallet_id req.new_label req.make_default vs o

-- Over every sequence of calls of the wallet service by any users, whatever the database and Redis
-- refuse in them: ids stay unique, and every user has one active default wallet or none.
pub call_all-OneDefault :
    (sig : Signatures) (chains : List ℕ) (cs : List WalletCall) (ns : Nonces)
    → OneDefault (call_all sig chains cs (ns, [])).1
unfolding call_all
call_all-OneDefault sig chains cs ns = from_any cs (ns, []) (reach-OneDefault [] no_wallets)
  where
    from_any :
        (ds : List WalletCall) (s : BindState)
        → OneDefault s.1
        → OneDefault (call_all sig chains ds s).1
    from_any [] s o = o
    from_any (d ∷ ds) s o =
        from_any ds (call_one sig chains d s) (call_one-OneDefault sig chains d s o)
