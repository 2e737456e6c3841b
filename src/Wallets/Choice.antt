-- ===== src/Wallets/Choice.antt =====
-- web3/internal/repository/wallet.go, how a default wallet is chosen, and chosen again when it goes.
use grpc_go_project.Prelude.{
  ℕ, ℕ_discrete, ◌+◌, ◌≡◌, refl, sym, ap, ◌∙◌, if-cases, ◌⊎◌, inl, inr, Bool, true, false, ◌&&◌,
  Option, none, some, List, [], ◌∷◌, ◌==◌, leb, ◌≤◌, arith, Bool-cases,
}
use grpc_go_project.Prelude.Result.{ok}
use grpc_go_project.Wallets.{
  Wallet, counts, default_count, row_of, update_row, if_active, clear_defaults, default_if_found,
  set_default, earlier, oldest_active, promote, disable_if_found, disable,
}
use grpc_go_project.Wallets.Counts.{
  distinct_ids, distinct_ids_head, default_count-update_row, default_count-clear_defaults,
  default_count-clear_defaults_le, row_of-clear_defaults, distinct_ids-clear_defaults,
}
use grpc_go_project.Wallets.Defaults.{
  OneDefault, OnRows, transaction-OneDefault, update_row-OneDefault, update_less,
}

-- The row that `if_active` finds: active, and of the user.
abbrev pub Usable : ℕ → ℕ → List Wallet → Wallet → Type 0
Usable user id vs v = (row_of id vs ≡ some v) × (v.user_subject ≡ user) × (v.active ≡ true)

pub if_active_of :
    (user : ℕ) (o : Option Wallet) (v : Wallet)
    → if_active user o ≡ some v
    → (o ≡ some v) × (v.user_subject ≡ user) × (v.active ≡ true)
if_active_of user none v h = absurd (cc)
if_active_of user (some u) v h =
    let same : u ≡ v = ground arith in (ap (λ z. some z) same, ground arith, ground arith)

counts-row_of :
    (user id : ℕ) (vs : List Wallet) (v : Wallet)
    → row_of id vs ≡ some v
    → counts user v ≤ default_count user vs
unfolding row_of default_count
counts-row_of user id [] v h = absurd (cc)
counts-row_of user id (u ∷ us) v h = elim (Bool-cases (u.id == id)) [
  | inl here ↦ let found : u ≡ v = ground arith in let c = ap (counts user) found in omega arith
  | inr there ↦
      let deeper : row_of id us ≡ some v = ground arith in
      let c = counts-row_of user id us v deeper in omega arith
]

-- Making a usable row the default of a user who has none.
promoted :
    (user id : ℕ) (vs : List Wallet) (v : Wallet)
    → OneDefault vs
    → default_count user vs ≡ 0
    → Usable user id vs v
    → OneDefault (update_row id (λ u. record u { is_default = true }) vs)
      × (default_count user (update_row id (λ u. record u { is_default = true }) vs) ≡ 1)
promoted user id vs v o zero (e, own, on) = (
  update_row-OneDefault id change vs (λ u. refl) o bound,
  let sum = default_count-update_row user id change vs v o.unique e in
      let before = counts-row_of user id vs v e in
      let after : counts user (change v) ≡ 1 = ground arith in omega arith,
)
  where
    change : Wallet → Wallet
    change u = record u { is_default = true }

    bound :
        (n : ℕ) (w : Wallet)
        → row_of id vs ≡ some w
        → default_count n vs + counts n (change w) ≤ 1 + counts n w
    bound n w f = elim (ℕ_discrete user n) [
      | yes same ↦ let c = ap (λ m. default_count m vs) same in ground arith
      | no other ↦
          let r : v ≡ w = cc in
          let own' = sym (ap (λ u. u.user_subject) r) ∙ own in let one = o.one n in ground arith
    ]

clear_defaults-OneDefault :
    (user : ℕ) (vs : List Wallet) → OneDefault vs → OneDefault (clear_defaults user vs)
clear_defaults-OneDefault user vs o = record {
  unique = distinct_ids-clear_defaults user vs o.unique;
  one = λ n. let a = o.one n in let b = default_count-clear_defaults_le user n vs in omega arith;
}

pub chosen :
    (user id : ℕ) (vs : List Wallet) (v : Wallet)
    → OneDefault vs
    → Usable user id vs v
    → let vs' = update_row id (λ u. record u { is_default = true }) (clear_defaults user vs) in
      OneDefault vs' × (default_count user vs' ≡ 1)
chosen user id vs v o (e, own, on) =
    let (w, found) = row_of-clear_defaults user id vs v e in
    promoted user id (clear_defaults user vs) w (clear_defaults-OneDefault user vs o)
      (default_count-clear_defaults user vs) (found.0, found.1 ∙ own, found.2 ∙ on)

pub set_default-OneDefault :
    (refused : Bool) (user id : ℕ) (vs : List Wallet)
    → OneDefault vs
    → OneDefault (set_default refused user id vs).1
unfolding set_default
set_default-OneDefault refused user id vs o =
    transaction-OneDefault refused _ vs o
      (set (if_active user (row_of id vs)) (if_active_of user (row_of id vs)))
  where
    set :
        (found : Option Wallet)
        → ((v : Wallet) → found ≡ some v → Usable user id vs v)
        → OnRows OneDefault (default_if_found user id found vs)
    set none h = tt
    set (some v) h = (chosen user id vs v o (h v refl)).0

earlier_of :
    (v : Wallet) (o : Option Wallet) (r : Wallet) → earlier v o ≡ some r → (v ≡ r) ⊎ (o ≡ some r)
earlier_of v none r h = inl (cc)
earlier_of v (some u) r h = elim (Bool-cases (leb v.created_at u.created_at)) [
  | inl first ↦ inl (ground arith)
  | inr second ↦ inr (ground arith)
]

Usable-below :
    (user : ℕ) (u : Wallet) (us : List Wallet) (v : Wallet)
    → row_of u.id us ≡ none
    → Usable user v.id us v
    → Usable user v.id (u ∷ us) v
unfolding row_of
Usable-below user u us v fresh (e, own, on) = elim (Bool-cases (u.id == v.id)) [
  | inl same ↦ let i : u.id ≡ v.id = ground arith in let x = ap (λ n. row_of n us) i in absurd (cc)
  | inr other ↦ (ground arith, own, on)
]

oldest_active_row :
    (user : ℕ) (vs : List Wallet) (v : Wallet)
    → distinct_ids vs ≡ true
    → oldest_active user vs ≡ some v
    → Usable user v.id vs v
unfolding oldest_active row_of
oldest_active_row user [] v d h = absurd (cc)
oldest_active_row user (u ∷ us) v d h =
    let (fresh, rest) = distinct_ids_head u us d in
    elim (Bool-cases (u.user_subject == user && u.active)) [
      | inl usable ↦
          let h' : earlier u (oldest_active user us) ≡ some v = ground arith in
          elim (earlier_of u (oldest_active user us) v h') [
            | inl same ↦ (ground arith, ground arith, ground arith)
            | inr below ↦ Usable-below user u us v fresh (oldest_active_row user us v rest below)
          ]
      | inr passed ↦
          let below : oldest_active user us ≡ some v = ground arith in
          Usable-below user u us v fresh (oldest_active_row user us v rest below)
    ]

-- Disabling a wallet.
abbrev pub disabled : ℕ → List Wallet → List Wallet
disabled id vs = update_row id (λ u. record u { active = false; is_default = false }) vs

pub disabled-OneDefault : (id : ℕ) (vs : List Wallet) → OneDefault vs → OneDefault (disabled id vs)
disabled-OneDefault id vs o =
    update_less id (λ u. record u { active = false; is_default = false }) vs (λ u. refl)
      (λ n u. ground arith) o

-- Without its default a user has none.
pub disabled_none :
    (user id : ℕ) (vs : List Wallet) (v : Wallet)
    → OneDefault vs
    → Usable user id vs v
    → v.is_default ≡ true
    → default_count user (disabled id vs) ≡ 0
disabled_none user id vs v o (e, own, on) is_default =
    let sum =
      default_count-update_row user id (λ u. record u { active = false; is_default = false }) vs v
        o.unique e in
    let one = o.one user in
    let counted : counts user v ≡ 1 = ground arith in
    let gone : counts user (record v { active = false; is_default = false }) ≡ 0 = ground arith in
    omega arith

-- The oldest of the active wallets that are left is the default, if there is one left.
abbrev pub Replaced : ℕ → List Wallet → List Wallet → Type 0
Replaced user left vs' =
    (default_count user vs' ≡ 1) ⊎ ((oldest_active user left ≡ none) × (vs' ≡ left))

pub replacement :
    (user : ℕ) (vs : List Wallet) (found : Option Wallet)
    → OneDefault vs
    → default_count user vs ≡ 0
    → oldest_active user vs ≡ found
    → OneDefault (promote found vs) × Replaced user vs (promote found vs)
replacement user vs none o zero e = (o, inr (e, refl))
replacement user vs (some r) o zero e =
    let p = promoted user r.id vs r o zero (oldest_active_row user vs r o.unique e) in
    (p.0, inl p.1)

pub disable-OneDefault :
    (refused : Bool) (user id : ℕ) (vs : List Wallet)
    → OneDefault vs
    → OneDefault (disable refused user id vs).1
unfolding disable
disable-OneDefault refused user id vs o =
    transaction-OneDefault refused _ vs o
      (drop (if_active user (row_of id vs)) (if_active_of user (row_of id vs)))
  where
    drop :
        (found : Option Wallet)
        → ((v : Wallet) → found ≡ some v → Usable user id vs v)
        → OnRows OneDefault (disable_if_found user id found vs)
    drop none h = tt
    drop (some v) h =
        if-cases (OnRows OneDefault) v.is_default
          (ok (promote (oldest_active user (disabled id vs)) (disabled id vs)))
          (ok (disabled id vs))
          (λ is_default.
            (replacement user (disabled id vs) (oldest_active user (disabled id vs))
              (disabled-OneDefault id vs o) (disabled_none user id vs v o (h v refl) is_default)
              refl).0)
          (λ _. disabled-OneDefault id vs o)
