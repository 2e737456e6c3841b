-- ===== src/Examples/Binding.antt =====
-- The theorems on binding a wallet, at a user who signs a challenge of their own.
use grpc_go_project.Prelude.{◌≡◌, refl, true, false, none, some, List, [], ◌∷◌}
use grpc_go_project.Wallets.{Wallet, create_bound_wallet, default_count}
use grpc_go_project.Wallets.Defaults.{OneDefault}
use grpc_go_project.Binding.{
  BindRequest, BindWorld, challenge, look_up, delete, consume, find_chain_address, bind_new,
}
use grpc_go_project.Binding.Bind.{chain_enabled, BindState, Signatures, bind_challenge, bind_wallet}
use grpc_go_project.Binding.Proof.{Proven, Returns, bind_wallet-Proven}
use grpc_go_project.Binding.Once.{nonce_binds_once}
use grpc_go_project.Binding.Manage.{WalletCall, asks_nonce, binds, updates, unbinds, call_all}
use grpc_go_project.Binding.Kept.{call_all-OneDefault}

-- Every address is in its normal form, and a signature is the address that it belongs to.
abbrev signatures : Signatures
signatures = record { normalize = λ a. some a; recover = λ m s. some s }

abbrev bind_request : BindRequest
bind_request = record {
  chain_id = 56;
  address = 700;
  nonce_id = 3;
  signature = 700;
  label = 0;
  label_length = 0;
}

abbrev bind_world : BindWorld
bind_world = record {
  now = 10;
  redis_refuses = false;
  find_refused = false;
  reactivate_refused = false;
  refind_refused = false;
  create_refused = false;
  new_id = 1;
  later = none;
}

abbrev challenged : BindState
challenged = ((3, challenge 5 56 700 99 8 300) ∷ [], [])

abbrev bound_wallet : Wallet
bound_wallet = record {
  id = 1;
  user_subject = 5;
  chain_id = 56;
  address = 700;
  label = 0;
  active = true;
  is_default = true;
  verified_at = 10;
  created_at = 10;
}

binds_wallet :
    Returns
      (bind_wallet signatures (56 ∷ []) bind_world (some 5) bind_request challenged)
      bound_wallet
      true
unfolding bind_wallet bind_challenge chain_enabled consume look_up delete find_chain_address
    bind_new create_bound_wallet default_count
binds_wallet = refl

bind_wallet-Proven_example :
    (chain_enabled 56 (56 ∷ []) ≡ true)
    × Proven signatures bind_world 5 bind_request challenged.0
        (bind_wallet signatures (56 ∷ []) bind_world (some 5) bind_request challenged).1.0
bind_wallet-Proven_example =
    bind_wallet-Proven signatures (56 ∷ []) bind_world 5 bind_request challenged bound_wallet true
      binds_wallet

nonce_binds_once_example :
    ¬ Returns
      (bind_wallet signatures
        (56 ∷ [])
        bind_world
        (some 5)
        bind_request
        (bind_wallet signatures (56 ∷ []) bind_world (some 5) bind_request challenged).1)
      bound_wallet
      false
nonce_binds_once_example =
    nonce_binds_once signatures (56 ∷ []) bind_world bind_world 5 5 bind_request bind_request
      challenged bound_wallet bound_wallet true false refl binds_wallet

abbrev day_of_calls : List WalletCall
day_of_calls =
    asks_nonce (record { now = 8; ttl = 300; redis_refuses = false; draws = some (3, 99) ∷ [] })
      (some 5) 56 700
    ∷ binds bind_world (some 5) bind_request
    ∷ updates (record { label_refused = false; default_refused = false; find_refused = false })
        (some 5) (record { wallet_id = some 1; new_label = some (7, 4); make_default = some false })
    ∷ unbinds false (some 5) (some 1)
    ∷ []

call_all-OneDefault_example : OneDefault (call_all signatures (56 ∷ []) day_of_calls ([], [])).1
call_all-OneDefault_example = call_all-OneDefault signatures (56 ∷ []) day_of_calls []
