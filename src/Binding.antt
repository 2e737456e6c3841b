-- ===== src/Binding.antt =====
-- web3/internal/service/wallet.go, BindWallet, with web3/internal/wallet/nonce.go: a user proves that an
-- address is theirs by signing a challenge, which is good for one attempt. `Proof` has what a bound
-- wallet proves.
use grpc_go_project.Prelude.{
  ℕ, ◌+◌, Bool, true, false, not, ◌&&◌, ◌||◌, Option, none, some, List, [], ◌∷◌, ◌==◌, leb, ltb,
  if◌then◌else◌,
}
use grpc_go_project.Prelude.Result.{Result, ok, err}
use grpc_go_project.Wallets.{
  Wallet, WalletError, row_of, reactivate, create_bound_wallet, default_count,
}
pub mod Bind
pub mod Proof
pub mod Once
pub mod Manage
pub mod Kept

-- The text of `buildMessage` by the parts that go into it besides the settings of the service.
pub record SigningMessage : Type 0 where
  pub message_address : ℕ
  pub message_chain_id : ℕ
  pub message_nonce : ℕ
  pub message_issued_at : ℕ
  pub message_expires_at : ℕ

-- `BindingNonce`. Subjects, addresses and nonces are the numbers of their texts, times are seconds.
pub record BindingNonce : Type 0 where
  pub user_subject : ℕ
  pub chain_id : ℕ
  pub address : ℕ
  pub nonce : ℕ
  pub message : SigningMessage
  pub issued_at : ℕ
  pub expires_at : ℕ

pub data BindError : Type 0 where
  unauthorized unsupported_chain label_too_long invalid_address nonce_incomplete nonce_missing
        redis_failed :
      BindError
  nonce_of_other_user nonce_expired challenge_mismatch invalid_signature bound_to_other_user
        no_unique_nonce random_failed :
      BindError
  database_failed : BindError
  wallet_id_missing : BindError
  repository_failed : WalletError → BindError

-- The keys of Redis under `wallet:nonce:`; one that has expired there is like one that was deleted.
abbrev pub Nonces : Type 0
Nonces = List (ℕ × BindingNonce)

unfoldable pub look_up : ℕ → Nonces → Option BindingNonce
look_up id [] = none
look_up id ((k, r) ∷ rest) = if k == id then some r else look_up id rest

unfoldable pub delete : ℕ → Nonces → Nonces
delete id [] = []
delete id ((k, r) ∷ rest) = let tail = delete id rest in if k == id then tail else (k, r) ∷ tail

-- The random values of an attempt to create a nonce: none where the source of randomness fails.
abbrev pub Draw : Type 0
Draw = Option (ℕ × ℕ)

abbrev pub build_message : ℕ → ℕ → ℕ → ℕ → ℕ → SigningMessage
build_message address chain_id nonce issued_at expires_at = record {
  message_address = address;
  message_chain_id = chain_id;
  message_nonce = nonce;
  message_issued_at = issued_at;
  message_expires_at = expires_at;
}

abbrev pub challenge : ℕ → ℕ → ℕ → ℕ → ℕ → ℕ → BindingNonce
challenge subject chain_id address nonce now ttl = record {
  user_subject = subject;
  chain_id = chain_id;
  address = address;
  nonce = nonce;
  message = build_message address chain_id nonce now (now + ttl);
  issued_at = now;
  expires_at = now + ttl;
}

-- The loop of `Create` over its attempts: SetNX writes only where the key is free.
unfoldable pub create_attempts :
    Bool → ℕ → ℕ → ℕ → ℕ → ℕ → List Draw → Nonces → Result BindError ℕ × Nonces
unfolding look_up
create_attempts redis_refuses subject chain_id address now ttl [] s = (err no_unique_nonce, s)
create_attempts redis_refuses subject chain_id address now ttl (none ∷ rest) s =
    (err random_failed, s)
create_attempts redis_refuses subject chain_id address now ttl (some (id, nonce) ∷ rest) s =
    let again = create_attempts redis_refuses subject chain_id address now ttl rest s in
    if redis_refuses then (err redis_failed, s) else elim (look_up id s) [
      | none ↦ (ok id, (id, challenge subject chain_id address nonce now ttl) ∷ s)
      | some taken ↦ again
    ]

-- `Consume`, of an id and a subject that are not blank: the read deletes the key.
abbrev pub checked : ℕ → ℕ → Option BindingNonce → Result BindError BindingNonce
checked subject now none = err nonce_missing
checked subject now (some r) =
    if not (r.user_subject == subject)
    then err nonce_of_other_user
    else if leb r.expires_at now
    then err nonce_expired
    else ok r

unfoldable pub consume : Bool → ℕ → ℕ → ℕ → Nonces → Result BindError BindingNonce × Nonces
unfolding look_up delete
consume redis_refuses id subject now s =
    if redis_refuses
    then (err redis_failed, s)
    else (checked subject now (look_up id s), delete id s)

pub record BindRequest : Type 0 where
  pub chain_id : ℕ
  pub address : ℕ
  pub nonce_id : ℕ
  pub signature : ℕ
  pub label : ℕ
  pub label_length : ℕ

-- What the surroundings answer in the course of one call: the clock, the refusals, the id for a new
-- wallet, and the table as it is when a creation has failed, if it can be read.
pub record BindWorld : Type 0 where
  pub now : ℕ
  pub redis_refuses : Bool
  pub find_refused : Bool
  pub reactivate_refused : Bool
  pub refind_refused : Bool
  pub create_refused : Bool
  pub new_id : ℕ
  pub later : Option (List Wallet)

-- `FindByChainAddress`
unfoldable pub find_chain_address : ℕ → ℕ → List Wallet → Option Wallet
find_chain_address chain_id address [] = none
find_chain_address chain_id address (v ∷ vs) =
    if v.chain_id == chain_id && v.address == address
    then some v
    else find_chain_address chain_id address vs

-- `FindByID`
abbrev pub owned_row : ℕ → Option Wallet → Result BindError Wallet
owned_row subject none = err (repository_failed WalletError.not_found)
owned_row subject (some v) =
    if v.user_subject == subject then ok v else err (repository_failed WalletError.not_found)

abbrev pub Bound : Type 0
Bound = Result BindError (Wallet × Bool) × List Wallet

abbrev pub reread : Bool → ℕ → ℕ → List Wallet → Bound
reread refused subject id vs =
    elim (if refused then err database_failed else owned_row subject (row_of id vs))
      as (λ _. Bound) [ ok v ↦ (ok (v, false), vs) | err e ↦ (err e, vs) ]

abbrev pub after_reactivate :
    BindWorld → ℕ → ℕ → Result WalletError (Unit {0}) × List Wallet → Bound
after_reactivate w subject id (err e, vs) = (err (repository_failed e), vs)
after_reactivate w subject id (ok _, vs) = reread w.refind_refused subject id vs

-- A wallet with the address is there.
unfoldable pub bind_existing : BindWorld → ℕ → BindRequest → Wallet → List Wallet → Bound
unfolding row_of reactivate
bind_existing w subject req existing vs =
    if not (existing.user_subject == subject)
    then (err bound_to_other_user, vs)
    else if existing.active
    then (ok (existing, false), vs)
    else after_reactivate w subject existing.id
        (reactivate w.reactivate_refused existing req.label w.now vs)

-- `FindByChainAddress` after a creation that failed with e.
abbrev pub winner_of : ℕ → WalletError → Option Wallet → Result BindError (Wallet × Bool)
winner_of subject e none = err (repository_failed e)
winner_of subject e (some v) =
    if v.user_subject == subject then ok (v, false) else err bound_to_other_user

unfoldable pub winner :
    ℕ → ℕ → ℕ → WalletError → Option (List Wallet) → Result BindError (Wallet × Bool)
unfolding find_chain_address
winner subject chain_id address e none = err (repository_failed e)
winner subject chain_id address e (some vs) =
    winner_of subject e (find_chain_address chain_id address vs)

abbrev pub new_wallet : BindWorld → ℕ → BindRequest → ℕ → Wallet
new_wallet w subject req address = record {
  id = w.new_id;
  user_subject = subject;
  chain_id = req.chain_id;
  address = address;
  label = req.label;
  active = true;
  is_default = false;
  verified_at = w.now;
  created_at = w.now;
}

abbrev pub after_create :
    BindWorld → ℕ → BindRequest → ℕ → Bool → Result WalletError (Unit {0}) × List Wallet → Bound
after_create w subject req address first (ok _, vs) =
    (ok (record (new_wallet w subject req address) { is_default = first }, true), vs)
after_create w subject req address first (err e, vs) =
    (winner subject req.chain_id address e w.later, vs)

-- No wallet with the address is there. CreateBoundWallet writes the flag into the wallet it is given.
unfoldable pub bind_new : BindWorld → ℕ → BindRequest → ℕ → List Wallet → Bound
unfolding create_bound_wallet winner default_count
bind_new w subject req address vs =
    after_create w subject req address (default_count subject vs == 0)
      (create_bound_wallet w.create_refused (new_wallet w subject req address) vs)

abbrev pub bind_found : BindWorld → ℕ → BindRequest → ℕ → Option Wallet → List Wallet → Bound
bind_found w subject req address none vs = bind_new w subject req address vs
bind_found w subject req address (some v) vs = bind_existing w subject req v vs
