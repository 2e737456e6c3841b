-- ===== src/Binding/Once.antt =====
-- web3/internal/service/wallet.go: a nonce binds once, and binding keeps the default wallets in order.
use grpc_go_project.Prelude.{
  ℕ, ◌≡◌, refl, sym, ap, ◌∙◌, if-cases, inl, inr, Bool, true, false, not, ◌&&◌, ◌||◌, Option, none,
  some, List, [], ◌∷◌, ◌==◌, ltb, Bool-cases, arith, if◌then◌else◌,
}
use grpc_go_project.Prelude.Result.{Result, ok, err}
use grpc_go_project.Wallets.{
  Wallet, WalletError, row_of, reactivate, create_bound_wallet, default_count,
}
use grpc_go_project.Wallets.Counts.{distinct_ids, distinct_ids_head}
use grpc_go_project.Wallets.Defaults.{
  OneDefault, OfUser, create_bound_wallet-OneDefault, reactivate-OneDefault,
}
use grpc_go_project.Binding.{
  BindError, Nonces, look_up, consume, BindRequest, BindWorld, challenge_mismatch,
  invalid_signature, database_failed, unsupported_chain, label_too_long, bound_to_other_user,
  find_chain_address, Bound, owned_row, reread, after_reactivate, bind_existing, after_create,
  new_wallet, bind_new, bind_found, BindingNonce,
}
use grpc_go_project.Binding.Bind.{
  chain_enabled, BindState, BindResult, Signatures, is_signer, bind_challenge, bind_address,
  bind_wallet,
}
use grpc_go_project.Binding.Proof.{Returns, bind_wallet-Proven}

-- A nonce that has bound a wallet binds none again, by whomever and in whatever request it is used
-- next: a second BindWallet with it on the state that the first one left returns no wallet.
pub nonce_binds_once :
    (sig : Signatures) (chains : List ℕ) (w w' : BindWorld) (subject subject' : ℕ)
    (req req' : BindRequest) (s : BindState) (v v' : Wallet) (newly newly' : Bool)
    → req'.nonce_id ≡ req.nonce_id
    → Returns (bind_wallet sig chains w (some subject) req s) v newly
    → ¬ Returns
        (bind_wallet sig chains w'
          (some subject')
          req'
          (bind_wallet sig chains w (some subject) req s).1)
        v'
        newly'
nonce_binds_once sig chains w w' subject subject' req req' s v v' newly newly' same h again =
    let first = (bind_wallet-Proven sig chains w subject req s v newly h).1 in
    let second =
      (bind_wallet-Proven sig chains w' subject' req'
        (bind_wallet sig chains w (some subject) req s).1 v' newly' again).1 in
    none_some (
      sym first.spent
      ∙ ap (λ n. look_up n (bind_wallet sig chains w (some subject) req s).1.0) (sym same)
      ∙ second.stored)
  where
    none_some : {r : BindingNonce} → ¬ (none ≡ some r)
    none_some e = absurd (cc)

row_of-found :
    (chain_id address : ℕ) (vs : List Wallet) (v : Wallet)
    → distinct_ids vs ≡ true
    → find_chain_address chain_id address vs ≡ some v
    → row_of v.id vs ≡ some v
unfolding find_chain_address row_of
row_of-found chain_id address [] v d h = absurd (cc)
row_of-found chain_id address (u ∷ us) v d h =
    let (fresh, rest) = distinct_ids_head u us d in
    elim (Bool-cases (u.chain_id == chain_id && u.address == address)) [
      | inl here ↦ let same : u ≡ v = ground arith in ground arith
      | inr there ↦
          let found : find_chain_address chain_id address us ≡ some v = ground arith in
          let below = row_of-found chain_id address us v rest found in
          elim (Bool-cases (u.id == v.id)) [
            | inl clash ↦
                let i : u.id ≡ v.id = ground arith in let x = ap (λ n. row_of n us) i in absurd (cc)
            | inr apart ↦ ground arith
          ]
    ]

reread-OneDefault :
    (refused : Bool) (subject id : ℕ) (vs : List Wallet)
    → OneDefault vs
    → OneDefault (reread refused subject id vs).1
reread-OneDefault refused subject id vs o =
    by_result (if refused then err database_failed else owned_row subject (row_of id vs))
  where
    by_result :
        (r : Result BindError Wallet)
        → OneDefault (elim r as (λ _. Bound) [ ok v ↦ (ok (v, false), vs) | err e ↦ (err e, vs) ]).1
    by_result (ok v) = o
    by_result (err e) = o

bind_existing-OneDefault :
    (w : BindWorld) (subject : ℕ) (req : BindRequest) (v : Wallet) (vs : List Wallet)
    → row_of v.id vs ≡ some v
    → OneDefault vs
    → OneDefault (bind_existing w subject req v vs).1
unfolding bind_existing
bind_existing-OneDefault w subject req v vs at o =
    if-cases (λ (b : Bound). OneDefault b.1) (not (v.user_subject == subject))
      (err bound_to_other_user, vs) _ (λ _. o)
      λ _.
        if-cases (λ (b : Bound). OneDefault b.1) v.active (ok (v, false), vs) _ (λ _. o)
          λ _.
            after (reactivate w.reactivate_refused v req.label w.now vs)
              (reactivate-OneDefault w.reactivate_refused v req.label w.now vs own o)
  where
    own : OfUser v.id v.user_subject vs
    own r e = let same : v ≡ r = cc in ap (λ u. u.user_subject) (sym same)

    after :
        (x : Result WalletError (Unit {0}) × List Wallet)
        → OneDefault x.1
        → OneDefault (after_reactivate w subject v.id x).1
    after (ok _, us) h = reread-OneDefault w.refind_refused subject v.id us h
    after (err e, us) h = h

bind_new-OneDefault :
    (w : BindWorld) (subject : ℕ) (req : BindRequest) (address : ℕ) (vs : List Wallet)
    → OneDefault vs
    → OneDefault (bind_new w subject req address vs).1
unfolding bind_new
bind_new-OneDefault w subject req address vs o =
    after (create_bound_wallet w.create_refused (new_wallet w subject req address) vs)
      (create_bound_wallet-OneDefault w.create_refused (new_wallet w subject req address) vs o)
  where
    after :
        (x : Result WalletError (Unit {0}) × List Wallet)
        → OneDefault x.1
        → OneDefault (after_create w subject req address (default_count subject vs == 0) x).1
    after (ok _, us) h = h
    after (err e, us) h = h

bind_found-OneDefault :
    (w : BindWorld) (subject : ℕ) (req : BindRequest) (address : ℕ) (found : Option Wallet)
    (vs : List Wallet)
    → find_chain_address req.chain_id address vs ≡ found
    → OneDefault vs
    → OneDefault (bind_found w subject req address found vs).1
bind_found-OneDefault w subject req address none vs e o =
    bind_new-OneDefault w subject req address vs o
bind_found-OneDefault w subject req address (some v) vs e o =
    bind_existing-OneDefault w subject req v vs (row_of-found req.chain_id address vs v o.unique e)
      o

bind_challenge-OneDefault :
    (sig : Signatures) (w : BindWorld) (subject : ℕ) (req : BindRequest) (address : ℕ)
    (c : Result BindError BindingNonce × Nonces) (vs : List Wallet)
    → OneDefault vs
    → OneDefault (bind_challenge sig w subject req address c vs).1.1
unfolding bind_challenge
bind_challenge-OneDefault sig w subject req address (err e, s) vs o = o
bind_challenge-OneDefault sig w subject req address (ok r, s) vs o =
    let P = λ (z : BindResult). OneDefault z.1.1 in
    if-cases P (not (r.chain_id == req.chain_id) || not (r.address == address))
      (err challenge_mismatch, (s, vs)) _ (λ _. o)
      λ _.
        if-cases P (not (is_signer (sig.recover r.message req.signature) address))
          (err invalid_signature, (s, vs)) _ (λ _. o)
          λ _.
            if-cases P w.find_refused (err database_failed, (s, vs)) _ (λ _. o)
              λ _.
                bind_found-OneDefault w subject req address
                  (find_chain_address req.chain_id address vs) vs refl o

bind_address-OneDefault :
    (sig : Signatures) (w : BindWorld) (subject : ℕ) (req : BindRequest) (a : Option ℕ)
    (s : BindState)
    → OneDefault s.1
    → OneDefault (bind_address sig w subject req a s).1.1
bind_address-OneDefault sig w subject req none s o = o
bind_address-OneDefault sig w subject req (some address) (ns, vs) o =
    bind_challenge-OneDefault sig w subject req address
      (consume w.redis_refuses req.nonce_id subject w.now ns) vs o

-- BindWallet keeps ids unique and every user at one active default wallet or none, on every path
-- through it, whatever is refused.
pub bind_wallet-OneDefault :
    (sig : Signatures) (chains : List ℕ) (w : BindWorld) (identity : Option ℕ) (req : BindRequest)
    (s : BindState)
    → OneDefault s.1
    → OneDefault (bind_wallet sig chains w identity req s).1.1
unfolding bind_wallet
bind_wallet-OneDefault sig chains w none req s o = o
bind_wallet-OneDefault sig chains w (some subject) req s o =
    let P = λ (z : BindResult). OneDefault z.1.1 in
    if-cases P (not (chain_enabled req.chain_id chains)) (err unsupported_chain, s) _ (λ _. o)
      λ _.
        if-cases P (ltb 128 req.label_length) (err label_too_long, s) _ (λ _. o)
          λ _. bind_address-OneDefault sig w subject req (sig.normalize req.address) s o
