-- ===== src/Scanner/Parties.antt =====
-- web3/internal/service/scanner.go, the wallets that a native transfer concerns, and what holds of a
-- step that returns without error.
use grpc_go_project.Prelude.{
  ℕ, ◌≡◌, refl, sym, ap, subst, ◌∙◌, inl, inr, Bool, true, false, ◌||◌, Option, none, some, List,
  [], ◌∷◌, ◌++◌, ◌==◌, All, arith, Bool-cases, if-cases,
}
use grpc_go_project.Prelude.Result.{Result, ok, err}
use grpc_go_project.Scanner.World.{Wallet, ScanError, World, Scan, pure, bind_at, ◌>>=◌}
use grpc_go_project.Scanner.Store.{statement, find_wallet, find_by_chain_address}
use grpc_go_project.Scanner.Native.{is_address, has_wallet, add_wallet, add_active, parties}

-- What holds of the value and the world that a step returns without error.
abbrev pub OnOk : {A : Type 0} → (A → World → Type 0) → Result ScanError A × World → Type 0
OnOk Q (ok a, w) = Q a w
OnOk Q (err e, w) = Unit

pub bind_at-OnOk :
    {A B : Type 0} (P : A → World → Type 0) (Q : B → World → Type 0) (r : Result ScanError A)
    (v : World) (f : A → Scan B)
    → OnOk P (r, v)
    → ((a : A) (w : World) → P a w → OnOk Q (f a w))
    → OnOk Q (bind_at (r, v) f)
bind_at-OnOk P Q (ok a) v f h k = k a v h
bind_at-OnOk P Q (err e) v f h k = tt

pub statement-OnOk :
    {A : Type 0} (Q : A → World → Type 0) (run : World → Result ScanError A × World)
    (faults : List Bool) (w : World)
    → ((fs : List Bool) → OnOk Q (run (record w { faults = fs })))
    → OnOk Q (statement run (record w { faults = faults }))
statement-OnOk Q run [] w h = h []
statement-OnOk Q run (true ∷ rest) w h = tt
statement-OnOk Q run (false ∷ rest) w h = h rest

-- A wallet is the sender or the receiver.
abbrev pub IsParty : ℕ → Option ℕ → Wallet → Type 0
IsParty from to v = ((v.address == from) || is_address to v.address) ≡ true

find_wallet-address :
    (chain_id a : ℕ) (vs : List Wallet) (v : Wallet)
    → find_wallet chain_id a vs ≡ some v
    → v.address ≡ a
unfolding find_wallet
find_wallet-address chain_id a [] v h = cc
find_wallet-address chain_id a (u ∷ us) v h = ground (arith, find_wallet-address chain_id a us v)

find-OnOk :
    (chain_id a : ℕ) (w : World)
    → OnOk
        (λ found w'. (found ≡ find_wallet chain_id a w.wallets) × (w'.wallets ≡ w.wallets))
        (find_by_chain_address chain_id a w)
unfolding find_by_chain_address
find-OnOk chain_id a w =
    statement-OnOk
      (λ found w'. (found ≡ find_wallet chain_id a w.wallets) × (w'.wallets ≡ w.wallets))
      (λ v. (ok (find_wallet chain_id a v.wallets), v)) w.faults w (λ fs. (refl, refl))

has-append :
    (id : ℕ) (us vs : List Wallet) → has_wallet id us ≡ true → has_wallet id (us ++ vs) ≡ true
unfolding has_wallet
has-append id [] vs h = cc
has-append id (u ∷ us) vs h = ground (arith, has-append id us vs)

has_last : (v : Wallet) (us : List Wallet) → has_wallet v.id (us ++ v ∷ []) ≡ true
unfolding has_wallet
has_last v [] = ground arith
has_last v (u ∷ us) = ground (arith, has_last v us)

has-add_wallet_self : (v : Wallet) (us : List Wallet) → has_wallet v.id (add_wallet v us) ≡ true
unfolding add_wallet
has-add_wallet_self v us = elim (Bool-cases (has_wallet v.id us)) [
  | inl old ↦ rw old old
  | inr new ↦ rw new (has_last v us)
]

has-add_wallet :
    (v : Wallet) (id : ℕ) (us : List Wallet)
    → has_wallet id us ≡ true
    → has_wallet id (add_wallet v us) ≡ true
unfolding add_wallet
has-add_wallet v id us h = elim (Bool-cases (has_wallet v.id us)) [
  | inl old ↦ rw old h
  | inr new ↦ rw new (has-append id us (v ∷ []) h)
]

All-append_one :
    (P : Wallet → Type 0) (us : List Wallet) (v : Wallet) → All P us → P v → All P (us ++ v ∷ [])
All-append_one P [] v a p = (p, tt)
All-append_one P (u ∷ us) v a p = (a.0, All-append_one P us v a.1 p)

All-add_wallet :
    (P : Wallet → Type 0) (v : Wallet) (us : List Wallet) → All P us → P v → All P (add_wallet v us)
unfolding add_wallet
All-add_wallet P v us a p = elim (Bool-cases (has_wallet v.id us)) [
  | inl old ↦ rw old a
  | inr new ↦ rw new (All-append_one P us v a p)
]

All-add_active :
    (P : Wallet → Type 0) (found : Option Wallet) (us : List Wallet)
    → All P us
    → ((v : Wallet) → found ≡ some v → P v)
    → All P (add_active found us)
All-add_active P none us a p = a
All-add_active P (some v) us a p =
    if-cases (All P) v.active (add_wallet v us) us (λ on. All-add_wallet P v us a (p v refl))
      (λ off. a)

has-add_active :
    (found : Option Wallet) (id : ℕ) (us : List Wallet)
    → has_wallet id us ≡ true
    → has_wallet id (add_active found us) ≡ true
has-add_active none id us h = h
has-add_active (some v) id us h =
    if-cases (λ vs. has_wallet id vs ≡ true) v.active (add_wallet v us) us
      (λ on. has-add_wallet v id us h) (λ off. h)

has-add_active_self :
    (found : Option Wallet) (v : Wallet) (us : List Wallet)
    → found ≡ some v
    → v.active ≡ true
    → has_wallet v.id (add_active found us) ≡ true
has-add_active_self found v us e on =
    subst (λ o. has_wallet v.id (add_active o us) ≡ true) (sym e)
      (if-cases (λ vs. has_wallet v.id vs ≡ true) v.active (add_wallet v us) us
        (λ _. has-add_wallet_self v us) (λ off. absurd (cc)))

-- The parties that were found: each is the sender or the receiver, and an active wallet of either is
-- among them by its id.
pub record Found (chain_id from : ℕ) (to : Option ℕ) (wallets vs : List Wallet) : Type 0 where
  pub each : All (IsParty from to) vs
  pub sender :
      (v : Wallet)
      → find_wallet chain_id from wallets ≡ some v
      → v.active ≡ true
      → has_wallet v.id vs ≡ true
  pub receiver :
      (a : ℕ) (v : Wallet)
      → to ≡ some a
      → find_wallet chain_id a wallets ≡ some v
      → v.active ≡ true
      → has_wallet v.id vs ≡ true

pub parties-Found :
    (chain_id from : ℕ) (to : Option ℕ) (w : World)
    → OnOk (λ vs w'. Found chain_id from to w.wallets vs) (parties chain_id from to w)
unfolding parties
parties-Found chain_id from none w =
    bind_at-OnOk _ _ (find_by_chain_address chain_id from w).0
      (find_by_chain_address chain_id from w).1 (λ sender. pure (add_active sender []))
      (find-OnOk chain_id from w)
      λ sender w' h. record {
        each = All-add_active (IsParty from none) sender [] tt (λ v e.
            let same = find_wallet-address chain_id from w.wallets v (sym h.0 ∙ e) in ground arith);
        sender = λ v e on. has-add_active_self sender v [] (h.0 ∙ e) on;
        receiver = λ a v e. absurd (cc);
      }
parties-Found chain_id from (some to) w =
    bind_at-OnOk _ _ (find_by_chain_address chain_id from w).0
      (find_by_chain_address chain_id from w).1
      (λ sender. find_by_chain_address chain_id to >>= λ receiver.
        pure (add_active receiver (add_active sender [])))
      (find-OnOk chain_id from w)
      λ sender w' h.
        bind_at-OnOk _ _ (find_by_chain_address chain_id to w').0
          (find_by_chain_address chain_id to w').1
          (λ receiver. pure (add_active receiver (add_active sender []))) (find-OnOk chain_id to w')
          λ receiver w'' g. record {
            each =
                All-add_active (IsParty from (some to)) receiver (add_active sender [])
                  (All-add_active (IsParty from (some to)) sender [] tt (λ v e.
                    let same = find_wallet-address chain_id from w.wallets v (sym h.0 ∙ e) in
                    ground arith))
                  (λ v e.
                    let same = find_wallet-address chain_id to w'.wallets v (sym g.0 ∙ e) in
                    ground arith);
            sender = λ v e on.
                has-add_active receiver v.id (add_active sender [])
                  (has-add_active_self sender v [] (h.0 ∙ e) on);
            receiver = λ a v same e on.
                has-add_active_self receiver v (add_active sender [])
                  (g.0
                    ∙ ap (λ vs. find_wallet chain_id to vs) h.1
                    ∙ ap (λ b. find_wallet chain_id b w.wallets) (cc)
                    ∙ e)
                  on;
          }
