-- ===== src/Binding/Proof.antt =====
-- web3/internal/service/wallet.go: what a wallet that BindWallet returns proves.
use grpc_go_project.Prelude.{
  ℕ, ◌≡◌, refl, sym, ap, subst, ◌∙◌, ◌<◌, if-cases, Bool, true, not, ◌||◌, Option, none, some, List,
  [], ◌∷◌, ◌==◌, leb, ltb, arith,
}
use grpc_go_project.Prelude.Result.{Result, ok, err}
use grpc_go_project.Wallets.{Wallet}
use grpc_go_project.Binding.{
  BindingNonce, BindError, nonce_of_other_user, nonce_expired, redis_failed, unsupported_chain,
  label_too_long, Nonces, look_up, delete, checked, consume, BindRequest, BindWorld,
  challenge_mismatch, invalid_signature, database_failed,
}
use grpc_go_project.Binding.Bind.{
  chain_enabled, BindState, BindResult, Signatures, is_signer, bind_challenge, bind_address,
  bind_wallet,
}

-- The challenge that a bound wallet rests on: issued to this user for this chain and address, still
-- good, signed by the address, and gone afterwards.
pub record Proven (sig : Signatures) (w : BindWorld) (subject : ℕ) (req : BindRequest)
    (before after : Nonces) : Type 0 where
  pub record_of : BindingNonce
  pub signer : ℕ
  pub normal : sig.normalize req.address ≡ some signer
  pub stored : look_up req.nonce_id before ≡ some record_of
  pub owner : record_of.user_subject ≡ subject
  pub same_chain : record_of.chain_id ≡ req.chain_id
  pub same_address : record_of.address ≡ signer
  pub fresh : w.now < record_of.expires_at
  pub signed : sig.recover record_of.message req.signature ≡ some signer
  pub spent : look_up req.nonce_id after ≡ none

look_up-delete : (id : ℕ) (s : Nonces) → look_up id (delete id s) ≡ none
unfolding look_up delete
look_up-delete id [] = refl
look_up-delete id ((k, r) ∷ rest) =
    if-cases (λ z. look_up id z ≡ none) (k == id) (delete id rest) ((k, r) ∷ delete id rest)
      (λ _. look_up-delete id rest)
      (λ other.
        if-cases (λ z. z ≡ none) (k == id) (some r) _ (λ same. absurd (cc))
          (λ _. look_up-delete id rest))

checked_ok :
    (subject now : ℕ) (o : Option BindingNonce) (r : BindingNonce)
    → checked subject now o ≡ ok r
    → (o ≡ some r) × (r.user_subject ≡ subject) × (now < r.expires_at)
checked_ok subject now none r h = absurd (cc)
checked_ok subject now (some x) r h =
    if-cases (λ z. z ≡ ok r → (some x ≡ some r) × (r.user_subject ≡ subject) × (now < r.expires_at))
      (not (x.user_subject == subject)) (err nonce_of_other_user) _ (λ _ e. absurd (cc))
      (λ owned.
        if-cases
          (λ z. z ≡ ok r → (some x ≡ some r) × (r.user_subject ≡ subject) × (now < r.expires_at))
          (leb x.expires_at now) (err nonce_expired) (ok x) (λ _ e. absurd (cc))
          λ fresh e.
            let same : x ≡ r = cc in
            (
              ap (λ z. some z) same,
              ap (λ z. z.user_subject) (sym same) ∙ ground arith,
              subst (λ z. now < z.expires_at) same (ground arith),
            ))
      h

signer_of : (o : Option ℕ) (a : ℕ) → is_signer o a ≡ true → o ≡ some a
signer_of none a h = absurd (cc)
signer_of (some b) a h = ap (λ z. some z) (let e : b ≡ a = ground arith in e)

-- A wallet was returned.
abbrev pub Returns : BindResult → Wallet → Bool → Type 0
Returns r v newly = r.0 ≡ ok (v, newly)

challenge-Proven :
    (sig : Signatures) (w : BindWorld) (subject : ℕ) (req : BindRequest) (address : ℕ)
    (o : Option BindingNonce) (before after : Nonces) (vs : List Wallet) (v : Wallet) (newly : Bool)
    → sig.normalize req.address ≡ some address
    → look_up req.nonce_id before ≡ o
    → look_up req.nonce_id after ≡ none
    → (c : Result BindError BindingNonce) → checked subject w.now o ≡ c
    → Returns (bind_challenge sig w subject req address (c, after) vs) v newly
    → Proven sig w subject req before (bind_challenge sig w subject req address (c, after) vs).1.0
unfolding bind_challenge
challenge-Proven sig w subject req address o before after vs v newly n at gone (err e) c h =
    absurd (cc)
challenge-Proven sig w subject req address o before after vs v newly n at gone (ok r) c h =
    let (found, owned, fresh) = checked_ok subject w.now o r c in
    if-cases (λ z. Returns z v newly → Proven sig w subject req before z.1.0)
      (not (r.chain_id == req.chain_id) || not (r.address == address))
      (err challenge_mismatch, (after, vs)) _ (λ _ e. absurd (cc))
      (λ matches.
        if-cases (λ z. Returns z v newly → Proven sig w subject req before z.1.0)
          (not (is_signer (sig.recover r.message req.signature) address))
          (err invalid_signature, (after, vs)) _ (λ _ e. absurd (cc))
          λ signed.
            if-cases (λ z. Returns z v newly → Proven sig w subject req before z.1.0) w.find_refused
              (err database_failed, (after, vs)) _ (λ _ e. absurd (cc))
              λ _ e. record {
                record_of = r;
                signer = address;
                normal = n;
                stored = at ∙ found;
                owner = owned;
                same_chain = ground arith;
                same_address = ground arith;
                fresh = fresh;
                signed = signer_of (sig.recover r.message req.signature) address (ground arith);
                spent = gone;
              })
      h

consumed-Proven :
    (sig : Signatures) (w : BindWorld) (subject : ℕ) (req : BindRequest) (o : Option ℕ)
    (s : BindState) (v : Wallet) (newly : Bool)
    → sig.normalize req.address ≡ o
    → Returns (bind_address sig w subject req o s) v newly
    → Proven sig w subject req s.0 (bind_address sig w subject req o s).1.0
unfolding consume bind_challenge
consumed-Proven sig w subject req none s v newly n h = absurd (cc)
consumed-Proven sig w subject req (some address) (ns, vs) v newly n h =
    if-cases
      (λ (c : Result BindError BindingNonce × Nonces).
        Returns (bind_challenge sig w subject req address c vs) v newly
        → Proven sig w subject req ns (bind_challenge sig w subject req address c vs).1.0)
      w.redis_refuses (err redis_failed, ns)
      (checked subject w.now (look_up req.nonce_id ns), delete req.nonce_id ns) (λ _ e. absurd (cc))
      (λ _ e.
        challenge-Proven sig w subject req address (look_up req.nonce_id ns) ns
          (delete req.nonce_id ns) vs v newly n refl (look_up-delete req.nonce_id ns) _ refl e)
      h

-- When BindWallet returns a wallet, new or not, then its chain is enabled, and the nonce of the request
-- was stored for this user, this chain and the address of the request in its normal form, had not
-- expired, and its message was signed by that address; and the nonce is no longer stored.
pub bind_wallet-Proven :
    (sig : Signatures) (chains : List ℕ) (w : BindWorld) (subject : ℕ) (req : BindRequest)
    (s : BindState) (v : Wallet) (newly : Bool)
    → Returns (bind_wallet sig chains w (some subject) req s) v newly
    → (chain_enabled req.chain_id chains ≡ true)
      × Proven sig w subject req s.0 (bind_wallet sig chains w (some subject) req s).1.0
unfolding bind_wallet
bind_wallet-Proven sig chains w subject req s v newly h =
    let P = λ (z : BindResult).
      Returns z v newly
      → (chain_enabled req.chain_id chains ≡ true) × Proven sig w subject req s.0 z.1.0 in
    if-cases P (not (chain_enabled req.chain_id chains)) (err unsupported_chain, s) _
      (λ _ e. absurd (cc))
      (λ enabled.
        if-cases P (ltb 128 req.label_length) (err label_too_long, s) _ (λ _ e. absurd (cc))
          (λ _ e. (
            ground arith,
            consumed-Proven sig w subject req (sig.normalize req.address) s v newly refl e,
          )))
      h
