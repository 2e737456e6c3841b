-- ===== src/Wallets/Defaults.antt =====
-- What web3/internal/repository/wallet.go keeps: no user has two default wallets.
use grpc_go_project.Prelude.{
  ℕ, ◌+◌, ◌≡◌, refl, sym, ap, subst, ◌∙◌, if-cases, inl, inr, Bool, true, false, Option, none, some,
  List, ◌∷◌, ◌==◌, ◌≤◌, arith, Option-cases,
}
use grpc_go_project.Prelude.{ℕ_discrete}
use grpc_go_project.Prelude.Result.{Result, ok, err}
use grpc_go_project.Wallets.{
  Wallet, WalletError, duplicate_wallet, counts, default_count, row_of, conflicts, update_row,
  if_active, transaction, create_bound_wallet, reactivate, undefault_if_found, unset_default,
  label_if_found, update_label,
}
use grpc_go_project.Wallets.Counts.{
  distinct_ids, distinct_ids_cons, update_row_absent, default_count-update_row,
  distinct_ids-update_row, row_of-conflicts,
}

-- Ids are unique, and no user has two active default wallets.
pub record OneDefault (vs : List Wallet) : Type 0 where
  pub unique : distinct_ids vs ≡ true
  pub one : (user : ℕ) → default_count user vs ≤ 1

abbrev pub OnRows : (List Wallet → Type 0) → Result WalletError (List Wallet) → Type 0
OnRows P (ok vs) = P vs
OnRows P (err e) = Unit

pub transaction-OneDefault :
    (refused : Bool) (r : Result WalletError (List Wallet)) (vs : List Wallet)
    → OneDefault vs
    → OnRows OneDefault r
    → OneDefault (transaction refused r vs).1
transaction-OneDefault true r vs o h = o
transaction-OneDefault false (err e) vs o h = o
transaction-OneDefault false (ok vs') vs o h = h

-- An update that leaves a user with at most one default, given the row that it changes.
pub update_row-OneDefault :
    (id : ℕ) (change : Wallet → Wallet) (vs : List Wallet)
    → ((v : Wallet) → (change v).id ≡ v.id)
    → OneDefault vs
    → ((user : ℕ) (v : Wallet)
        → row_of id vs ≡ some v
        → default_count user vs + counts user (change v) ≤ 1 + counts user v)
    → OneDefault (update_row id change vs)
update_row-OneDefault id change vs k o h = record {
  unique = distinct_ids-update_row id change vs k o.unique;
  one = λ user. elim (Option-cases (row_of id vs)) [
    | inl absent ↦
        subst (λ z. default_count user z ≤ 1) (sym (update_row_absent id change vs absent))
          (o.one user)
    | inr (v, e) ↦
        let sum = default_count-update_row user id change vs v o.unique e in
        let bound = h user v e in omega arith
  ];
}

-- A row that is a default exactly if its user has none keeps the count of every user within one.
counts_first :
    (user : ℕ) (w : Wallet) (n m : ℕ)
    → w.is_default ≡ (n == 0)
    → (w.user_subject ≡ user → n ≡ m)
    → m ≤ 1
    → counts user w + m ≤ 1
counts_first user w n m d e h = elim (ℕ_discrete w.user_subject user) [
  | yes same ↦ let x = e same in ground arith
  | no other ↦ ground arith
]

pub create_bound_wallet-OneDefault :
    (refused : Bool) (v : Wallet) (vs : List Wallet)
    → OneDefault vs
    → OneDefault (create_bound_wallet refused v vs).1
unfolding create_bound_wallet
create_bound_wallet-OneDefault refused v vs o = transaction-OneDefault refused _ vs o (
    if-cases (OnRows OneDefault) (conflicts v vs) (err duplicate_wallet)
      (ok (record v { is_default = default_count v.user_subject vs == 0 } ∷ vs)) (λ _. tt)
      λ new. record {
        unique =
            distinct_ids_cons (record v { is_default = default_count v.user_subject vs == 0 }) vs
              (row_of-conflicts v vs new) o.unique;
        one = λ user. let bound = o.one user in first user;
      })
  where
    first :
        (user : ℕ)
        → default_count user (record v { is_default = default_count v.user_subject vs == 0 } ∷ vs)
          ≤ 1
    first user =
        counts_first user (record v { is_default = default_count v.user_subject vs == 0 })
          (default_count v.user_subject vs) (default_count user vs) refl
          (λ e. ap (λ n. default_count n vs) e) (o.one user)

-- The row that is stored under an id, if there is one, is of this user.
abbrev pub OfUser : ℕ → ℕ → List Wallet → Type 0
OfUser id user vs = (r : Wallet) → row_of id vs ≡ some r → r.user_subject ≡ user

pub reactivate-OneDefault :
    (refused : Bool) (v : Wallet) (label verified_at : ℕ) (vs : List Wallet)
    → OfUser v.id v.user_subject vs
    → OneDefault vs
    → OneDefault (reactivate refused v label verified_at vs).1
unfolding reactivate
reactivate-OneDefault refused v label verified_at vs own o =
    let n = default_count v.user_subject vs in
    let change = λ (u : Wallet). record u {
      active = true;
      label = label;
      verified_at = verified_at;
      is_default = n == 0;
    } in
    transaction-OneDefault refused _ vs o (
      update_row-OneDefault v.id change vs (λ u. refl) o
        λ user r e.
          let bound =
            counts_first user (change r) n (default_count user vs) refl
              (λ same. ap (λ z. default_count z vs) (sym (own r e) ∙ same)) (o.one user) in
          omega arith)

-- Taking a default away, or changing what is no part of it, keeps every count within one.
pub update_less :
    (id : ℕ) (change : Wallet → Wallet) (vs : List Wallet)
    → ((v : Wallet) → (change v).id ≡ v.id)
    → ((user : ℕ) (v : Wallet) → counts user (change v) ≤ counts user v)
    → OneDefault vs
    → OneDefault (update_row id change vs)
update_less id change vs k h o =
    update_row-OneDefault id change vs k o
      (λ user v e. let a = o.one user in let b = h user v in omega arith)

pub unset_default-OneDefault :
    (refused : Bool) (user id : ℕ) (vs : List Wallet)
    → OneDefault vs
    → OneDefault (unset_default refused user id vs).1
unfolding unset_default
unset_default-OneDefault refused user id vs o =
    transaction-OneDefault refused _ vs o (unset (if_active user (row_of id vs)))
  where
    unset : (found : Option Wallet) → OnRows OneDefault (undefault_if_found id found vs)
    unset none = tt
    unset (some v) =
        update_less id (λ u. record u { is_default = false }) vs (λ u. refl) (λ n u. ground arith) o

pub update_label-OneDefault :
    (refused : Bool) (user id label : ℕ) (vs : List Wallet)
    → OneDefault vs
    → OneDefault (update_label refused user id label vs).1
unfolding update_label
update_label-OneDefault refused user id label vs o =
    transaction-OneDefault refused _ vs o (relabel (if_active user (row_of id vs)))
  where
    relabel : (found : Option Wallet) → OnRows OneDefault (label_if_found id label found vs)
    relabel none = tt
    relabel (some v) =
        update_less id (λ u. record u { label = label }) vs (λ u. refl) (λ n u. omega arith) o
