-- ===== src/Binding/Bind.antt =====
-- web3/internal/service/wallet.go, BindWallet as a whole.
use grpc_go_project.Prelude.{
  ℕ, Bool, true, false, not, ◌||◌, Option, none, some, List, [], ◌∷◌, ◌==◌, ltb, if◌then◌else◌,
}
use grpc_go_project.Prelude.Result.{Result, ok, err}
use grpc_go_project.Wallets.{Wallet}
use grpc_go_project.Binding.{
  SigningMessage, BindingNonce, BindError, unauthorized, unsupported_chain, label_too_long,
  invalid_address, challenge_mismatch, invalid_signature, database_failed, Nonces, consume,
  BindRequest, BindWorld, find_chain_address, Bound, bind_found,
}

unfoldable pub chain_enabled : ℕ → List ℕ → Bool
chain_enabled chain_id [] = false
chain_enabled chain_id (c ∷ cs) = if c == chain_id then true else chain_enabled chain_id cs

-- The nonces and the wallets.
abbrev pub BindState : Type 0
BindState = Nonces × List Wallet

abbrev pub BindResult : Type 0
BindResult = Result BindError (Wallet × Bool) × BindState

-- An address in the form of EIP-55, if it is one, and the address that a signature of a message belongs
-- to, if there is one.
pub record Signatures : Type 0 where
  pub normalize : ℕ → Option ℕ
  pub recover : SigningMessage → ℕ → Option ℕ

-- `Verify` of an address in the form of EIP-55.
abbrev pub is_signer : Option ℕ → ℕ → Bool
is_signer none address = false
is_signer (some a) address = a == address

abbrev pub with_nonces : Nonces → Bound → BindResult
with_nonces s (r, vs) = (r, (s, vs))

-- `BindWallet` behind Consume.
unfoldable pub bind_challenge :
    Signatures
    → BindWorld
    → ℕ
    → BindRequest
    → ℕ
    → Result BindError BindingNonce × Nonces
    → List Wallet
    → BindResult
unfolding find_chain_address
bind_challenge sig w subject req address (err e, s) vs = (err e, (s, vs))
bind_challenge sig w subject req address (ok r, s) vs =
    if not (r.chain_id == req.chain_id) || not (r.address == address)
    then (err challenge_mismatch, (s, vs))
    else if not (is_signer (sig.recover r.message req.signature) address)
    then (err invalid_signature, (s, vs))
    else if w.find_refused
    then (err database_failed, (s, vs))
    else with_nonces s
        (bind_found w subject req address (find_chain_address req.chain_id address vs) vs)

abbrev pub bind_address :
    Signatures → BindWorld → ℕ → BindRequest → Option ℕ → BindState → BindResult
bind_address sig w subject req none s = (err invalid_address, s)
bind_address sig w subject req (some address) (ns, vs) =
    bind_challenge sig w subject req address (consume w.redis_refuses req.nonce_id subject w.now ns)
      vs

abbrev pub bind_identity :
    Signatures → List ℕ → BindWorld → Option ℕ → BindRequest → BindState → BindResult
bind_identity sig chains w none req s = (err unauthorized, s)
bind_identity sig chains w (some subject) req s =
    if not (chain_enabled req.chain_id chains)
    then (err unsupported_chain, s)
    else if ltb 128 req.label_length
    then (err label_too_long, s)
    else bind_address sig w subject req (sig.normalize req.address) s

-- `BindWallet`
unfoldable pub bind_wallet :
    Signatures → List ℕ → BindWorld → Option ℕ → BindRequest → BindState → BindResult
unfolding chain_enabled consume bind_challenge
bind_wallet sig chains w identity req s = bind_identity sig chains w identity req s
