-- ===== src/Wallets/Counts.antt =====
-- How many default wallets a user has after the update of one row.
use grpc_go_project.Prelude.{
  ℕ, ◌+◌, ◌≡◌, refl, sym, ap, subst, ◌∙◌, if-cases, inl, inr, Bool, true, false, ◌&&◌, Option, none,
  some, List, [], ◌∷◌, ◌==◌, ◌≤◌, arith, Bool-cases, if◌then◌else◌,
}
use grpc_go_project.Wallets.{
  Wallet, counts, default_count, row_of, update_row, clear_defaults, conflicts,
}

-- No id stands twice.
unfoldable pub distinct_ids : List Wallet → Bool
unfolding row_of
distinct_ids [] = true
distinct_ids (v ∷ vs) = elim (row_of v.id vs) [ none ↦ distinct_ids vs | some u ↦ false ]

alone :
    (o : Option Wallet) (b : Bool)
    → (elim o as (λ _. Bool) [ none ↦ b | some u ↦ false ]) ≡ true
    → (o ≡ none) × (b ≡ true)
alone none b h = (refl, h)
alone (some u) b h = absurd (cc)

pub distinct_ids_head :
    (v : Wallet) (vs : List Wallet)
    → distinct_ids (v ∷ vs) ≡ true
    → (row_of v.id vs ≡ none) × (distinct_ids vs ≡ true)
unfolding distinct_ids row_of
distinct_ids_head v vs h = alone (row_of v.id vs) (distinct_ids vs) h

pub distinct_ids_cons :
    (v : Wallet) (vs : List Wallet)
    → row_of v.id vs ≡ none
    → distinct_ids vs ≡ true
    → distinct_ids (v ∷ vs) ≡ true
unfolding distinct_ids row_of
distinct_ids_cons v vs h d =
    subst (λ o. (elim o as (λ _. Bool) [ none ↦ distinct_ids vs | some u ↦ false ]) ≡ true) (sym h)
      d

pub row_of-id : (id : ℕ) (vs : List Wallet) (v : Wallet) → row_of id vs ≡ some v → v.id ≡ id
unfolding row_of
row_of-id id [] v h = absurd (cc)
row_of-id id (u ∷ us) v h = ground (arith, row_of-id id us v)

pub update_row_absent :
    (id : ℕ) (change : Wallet → Wallet) (vs : List Wallet)
    → row_of id vs ≡ none
    → update_row id change vs ≡ vs
unfolding row_of update_row
update_row_absent id change [] h = refl
update_row_absent id change (v ∷ vs) h = ground (arith, update_row_absent id change vs)

-- An update of the one row with an id changes the count by what the row counts before and after.
pub default_count-update_row :
    (user id : ℕ) (change : Wallet → Wallet) (vs : List Wallet) (v : Wallet)
    → distinct_ids vs ≡ true
    → row_of id vs ≡ some v
    → default_count user (update_row id change vs) + counts user v
      ≡ default_count user vs + counts user (change v)
unfolding default_count update_row row_of distinct_ids
default_count-update_row user id change [] v d h = absurd (cc)
default_count-update_row user id change (u ∷ us) v d h =
    let (fresh, rest) = distinct_ids_head u us d in
    if-cases
      (λ z.
        counts user z + default_count user (update_row id change us) + counts user v
        ≡ counts user u + default_count user us + counts user (change v))
      (u.id == id) (change u) u
      (λ same.
        let found : u ≡ v = ground arith in
        let here : u.id ≡ id = ground arith in
        let absent = ap (λ i. row_of i us) (sym here) ∙ fresh in
        let kept = ap (default_count user) (update_row_absent id change us absent) in
        let c1 = ap (counts user) found in
        let c2 = ap (λ z. counts user (change z)) found in omega arith)
      (λ other.
        let deeper : row_of id us ≡ some v = ground arith in
        let ih = default_count-update_row user id change us v rest deeper in omega arith)

pub row_of-update_row :
    (id id' : ℕ) (change : Wallet → Wallet) (vs : List Wallet)
    → ((v : Wallet) → (change v).id ≡ v.id)
    → row_of id' vs ≡ none
    → row_of id' (update_row id change vs) ≡ none
unfolding row_of update_row
row_of-update_row id id' change [] k h = refl
row_of-update_row id id' change (v ∷ vs) k h =
    let same = k v in ground (arith, row_of-update_row id id' change vs k)

pub distinct_ids-update_row :
    (id : ℕ) (change : Wallet → Wallet) (vs : List Wallet)
    → ((v : Wallet) → (change v).id ≡ v.id)
    → distinct_ids vs ≡ true
    → distinct_ids (update_row id change vs) ≡ true
unfolding distinct_ids update_row row_of
distinct_ids-update_row id change [] k d = refl
distinct_ids-update_row id change (v ∷ vs) k d =
    let (fresh, rest) = distinct_ids_head v vs d in
    let same = k v in
    distinct_ids_cons (if v.id == id then change v else v) (update_row id change vs)
      (row_of-update_row id (if v.id == id then change v else v).id change vs k (
        if-cases (λ z. row_of z.id vs ≡ none) (v.id == id) (change v) v
          (λ _. ap (λ i. row_of i vs) same ∙ fresh) (λ _. fresh)))
      (distinct_ids-update_row id change vs k rest)

pub row_of-conflicts :
    (v : Wallet) (vs : List Wallet) → conflicts v vs ≡ false → row_of v.id vs ≡ none
unfolding row_of conflicts
row_of-conflicts v [] h = refl
row_of-conflicts v (u ∷ us) h = ground (arith, row_of-conflicts v us)

-- After its defaults are cleared a user has none, and the other users have as many as before.
pub default_count-clear_defaults :
    (user : ℕ) (vs : List Wallet) → default_count user (clear_defaults user vs) ≡ 0
unfolding default_count clear_defaults
default_count-clear_defaults user [] = refl
default_count-clear_defaults user (v ∷ vs) =
    let rest = default_count-clear_defaults user vs in
    if-cases (λ z. counts user z + default_count user (clear_defaults user vs) ≡ 0)
      (v.user_subject == user && v.is_default) (record v { is_default = false }) v
      (λ yes. ground arith) (λ no. ground arith)

pub default_count-clear_defaults_le :
    (user other : ℕ) (vs : List Wallet)
    → default_count other (clear_defaults user vs) ≤ default_count other vs
unfolding default_count clear_defaults
default_count-clear_defaults_le user other [] = omega arith
default_count-clear_defaults_le user other (v ∷ vs) =
    let rest = default_count-clear_defaults_le user other vs in
    if-cases
      (λ z.
        counts other z + default_count other (clear_defaults user vs)
        ≤ counts other v + default_count other vs)
      (v.user_subject == user && v.is_default) (record v { is_default = false }) v
      (λ yes. ground arith) (λ no. omega arith)

pub row_of-clear_defaults-none :
    (user id : ℕ) (vs : List Wallet)
    → row_of id vs ≡ none
    → row_of id (clear_defaults user vs) ≡ none
unfolding row_of clear_defaults
row_of-clear_defaults-none user id [] h = refl
row_of-clear_defaults-none user id (v ∷ vs) h =
    if-cases (λ z. (if z.id == id then some z else row_of id (clear_defaults user vs)) ≡ none)
      (v.user_subject == user && v.is_default) (record v { is_default = false }) v
      (λ yes. ground (arith, row_of-clear_defaults-none user id vs))
      (λ no. ground (arith, row_of-clear_defaults-none user id vs))

-- The row with an id is still there, of the same user, and active if it was.
pub row_of-clear_defaults :
    (user id : ℕ) (vs : List Wallet) (v : Wallet)
    → row_of id vs ≡ some v
    → (w : Wallet) × ((row_of id (clear_defaults user vs) ≡ some w)
        × (w.user_subject ≡ v.user_subject)
        × (w.active ≡ v.active))
unfolding row_of clear_defaults
row_of-clear_defaults user id [] v h = absurd (cc)
row_of-clear_defaults user id (u ∷ us) v h = elim (Bool-cases (u.id == id)) [
  | inl here ↦
      let found : u ≡ v = ground arith in
      if-cases
        (λ z.
          (w : Wallet) × (((if z.id == id then some z else row_of id (clear_defaults user us))
              ≡ some w)
            × (w.user_subject ≡ v.user_subject)
            × (w.active ≡ v.active)))
        (u.user_subject == user && u.is_default) (record u { is_default = false }) u
        (λ yes. (
          record u { is_default = false },
          (ground arith, ap (λ z. z.user_subject) found, ap (λ z. z.active) found),
        ))
        (λ no. (u, (ground arith, ap (λ z. z.user_subject) found, ap (λ z. z.active) found)))
  | inr there ↦
      let deeper : row_of id us ≡ some v = ground arith in
      let (w, e) = row_of-clear_defaults user id us v deeper in
      let first = e.0 in
      (
        w,
        (
          if-cases
              (λ z. (if z.id == id then some z else row_of id (clear_defaults user us)) ≡ some w)
              (u.user_subject == user && u.is_default) (record u { is_default = false }) u
              (λ _. ground arith) (λ _. ground arith),
          e.1,
          e.2,
        ),
      )
]

pub distinct_ids-clear_defaults :
    (user : ℕ) (vs : List Wallet)
    → distinct_ids vs ≡ true
    → distinct_ids (clear_defaults user vs) ≡ true
unfolding clear_defaults distinct_ids
distinct_ids-clear_defaults user [] d = refl
distinct_ids-clear_defaults user (v ∷ vs) d =
    let (fresh, rest) = distinct_ids_head v vs d in
    let ih = distinct_ids-clear_defaults user vs rest in
    let cleared = row_of-clear_defaults-none user v.id vs fresh in
    if-cases (λ z. distinct_ids (z ∷ clear_defaults user vs) ≡ true)
      (v.user_subject == user && v.is_default) (record v { is_default = false }) v
      (λ yes.
        distinct_ids_cons (record v { is_default = false }) (clear_defaults user vs) cleared ih)
      (λ no. distinct_ids_cons v (clear_defaults user vs) cleared ih)
