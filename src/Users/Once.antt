-- ===== src/Users/Once.antt =====
-- user/internal/service/user.go: an identity gets one user, however often and wherever it is initialised.
use grpc_go_project.Prelude.{
  ℕ, ◌≡◌, refl, sym, ap, subst, ◌∙◌, ◌⊎◌, inl, inr, if-cases, Bool, true, false, Option, none, some,
  List,
}
use grpc_go_project.Prelude.Text.{Text, is_empty, trim_space}
use grpc_go_project.Prelude.Result.{Result, ok, err}
use grpc_go_project.Sharding.{UserRouter}
use grpc_go_project.Users.{
  User, UserDb, UserError, record_not_found, query_failed, insert_failed, invalid_pagination,
  no_tables, routed, of_index, find_index_by_subject, find_by_subject, create_user, create_all,
  CreateWorld, FoundOrCreated, race_winner, after_transaction, after_find,
  find_or_create_by_subject,
}
use grpc_go_project.Users.Stable.{Outcome, create_user-Outcome}
use grpc_go_project.Users.Kept.{found_subject, create_all-kept}
use grpc_go_project.Users.Service.{
  Identity, ServiceError, unauthorized, UserInfo, to_proto_user, authenticated_identity,
  initial_user, initialized, with_identity, initialize_user,
}

not_refused :
    (r : UserRouter) (refused : Bool) (s : Text) (db : UserDb) (v : User)
    → find_by_subject r refused s db ≡ ok v
    → find_by_subject r false s db ≡ ok v
unfolding find_by_subject
not_refused r refused s db v h =
    if-cases
      (λ (x : Result UserError User).
        x ≡ ok v → of_index r db.rows (find_index_by_subject s db.index) ≡ ok v)
      refused (err query_failed) _ (λ _ e. absurd (cc)) (λ _ e. e) h

found_same :
    (r : UserRouter) (refused : Bool) (s : Text) (db : UserDb) (v : User)
    → find_by_subject r false s db ≡ ok v
    → (find_by_subject r refused s db ≡ ok v) ⊎ (find_by_subject r refused s db ≡ err query_failed)
unfolding find_by_subject
found_same r true s db v h = inr refl
found_same r false s db v h = inl h

-- A user that was returned is found by its subject.
abbrev Finds : UserRouter → Text → User → Bool → FoundOrCreated → Type 0
Finds r s v c x = x.0 ≡ ok (v, c) → find_by_subject r false s x.1 ≡ ok v

race-Finds :
    (r : UserRouter) (refused : Bool) (s : Text) (db : UserDb) (e : UserError) (v : User) (c : Bool)
    (x : Result UserError User)
    → find_by_subject r refused s db ≡ x
    → race_winner e x ≡ ok (v, c)
    → find_by_subject r false s db ≡ ok v
race-Finds r refused s db e v c (ok u) at h =
    not_refused r refused s db v (at ∙ ap (λ z. ok z) (let same : u ≡ v = cc in same))
race-Finds r refused s db e v c (err x) at h = absurd (cc)

transaction-Finds :
    (r : UserRouter) (w : CreateWorld) (u : User) (db : UserDb) (v : User) (c : Bool)
    (x : Result UserError (Unit {0}) × UserDb)
    → Outcome r u db x
    → Finds r u.keycloak_subject v c (after_transaction r w u x)
transaction-Finds r w u db v c (ok _, db') o h =
    let same : u ≡ v = cc in
    subst (λ z. find_by_subject r false u.keycloak_subject db' ≡ ok z) same
      (subst (λ z. find_by_subject r false u.keycloak_subject z ≡ ok u) (sym o.inserted)
        (found_subject r o.table o.at_index u db o.named))
transaction-Finds r w u db v c (err e, db') o h =
    race-Finds r w.refind_refused u.keycloak_subject (create_all r w.later db') e v c
      (find_by_subject r w.refind_refused u.keycloak_subject (create_all r w.later db')) refl h

find-Finds :
    (r : UserRouter) (w : CreateWorld) (u : User) (db : UserDb) (v : User) (c : Bool)
    (x : Result UserError User)
    → find_by_subject r w.find_refused u.keycloak_subject db ≡ x
    → Finds r u.keycloak_subject v c (after_find r w u db x)
find-Finds r w u db v c (ok z) at h =
    not_refused r w.find_refused u.keycloak_subject db v
      (at ∙ ap (λ y. ok y) (let same : z ≡ v = cc in same))
find-Finds r w u db v c (err record_not_found) at h =
    let now = create_all r w.before db in
    transaction-Finds r w u now v c (create_user r w.create_refused u now)
      (create_user-Outcome r w.create_refused u now) h
find-Finds r w u db v c (err query_failed) at h = absurd (cc)
find-Finds r w u db v c (err insert_failed) at h = absurd (cc)
find-Finds r w u db v c (err invalid_pagination) at h = absurd (cc)
find-Finds r w u db v c (err no_tables) at h = absurd (cc)
find-Finds r w u db v c (err (routed e)) at h = absurd (cc)

find_or_create-Finds :
    (r : UserRouter) (w : CreateWorld) (u : User) (db : UserDb) (v : User) (c : Bool)
    → Finds r u.keycloak_subject v c (find_or_create_by_subject r w u db)
unfolding find_or_create_by_subject
find_or_create-Finds r w u db v c =
    find-Finds r w u db v c (find_by_subject r w.find_refused u.keycloak_subject db) refl

-- A user that is there is returned.
returns_there :
    (r : UserRouter) (w : CreateWorld) (u : User) (db : UserDb) (v v' : User) (c : Bool)
    → find_by_subject r false u.keycloak_subject db ≡ ok v
    → (find_or_create_by_subject r w u db).0 ≡ ok (v', c)
    → (v' ≡ v) × (c ≡ false)
unfolding find_or_create_by_subject
returns_there r w u db v v' c there h =
    elim (found_same r w.find_refused u.keycloak_subject db v there) [
      | inl e ↦ let x = ap (λ y. (after_find r w u db y).0) (sym e) ∙ h in (cc, cc)
      | inr e ↦ absurd (let x = ap (λ y. (after_find r w u db y).0) (sym e) ∙ h in cc)
    ]

-- What a successful call of InitializeUser comes from.
record Started (r : UserRouter) (w : CreateWorld) (i : Identity) (db : UserDb) (info : UserInfo)
    (c : Bool) (after : UserDb) : Type 0 where
  pub user : User
  pub new : User
  pub shown : to_proto_user user ≡ info
  pub of_identity : new.keycloak_subject ≡ i.subject
  pub returned : (find_or_create_by_subject r w new db).0 ≡ ok (user, c)
  pub left : (find_or_create_by_subject r w new db).1 ≡ after

initialized_from :
    (r : UserRouter) (w : CreateWorld) (i : Identity) (new : User) (db : UserDb) (info : UserInfo)
    (c : Bool) (x : FoundOrCreated)
    → new.keycloak_subject ≡ i.subject
    → find_or_create_by_subject r w new db ≡ x
    → (initialized x).0 ≡ ok (info, c)
    → Started r w i db info c (initialized x).1
initialized_from r w i new db info c (ok (u, d), after) own at h = record {
  user = u;
  new = new;
  shown = cc;
  of_identity = own;
  returned = ap (λ z. z.0) at ∙ (let e : d ≡ c = cc in ap (λ b. ok (u, b)) e);
  left = ap (λ z. z.1) at;
}
initialized_from r w i new db info c (err e, after) own at h = absurd (cc)

initialize_from :
    (r : UserRouter) (w : CreateWorld) (next_id : Option ℕ) (now : ℕ) (i : Identity) (db : UserDb)
    (info : UserInfo) (c : Bool)
    → (initialize_user r w next_id now (some i) db).0 ≡ ok (info, c)
    → Started r w i db info c (initialize_user r w next_id now (some i) db).1
unfolding initialize_user authenticated_identity
initialize_from r w next_id now i db info c h =
    if-cases
      (λ (a : Result ServiceError Identity).
        (with_identity r w next_id now a db).0 ≡ ok (info, c)
        → Started r w i db info c (with_identity r w next_id now a db).1)
      (is_empty (trim_space i.subject)) (err unauthorized) (ok i) (λ _ e. absurd (cc))
      (λ _ e. by_id next_id e) h
  where
    by_id :
        (n : Option ℕ)
        → (with_identity r w n now (ok i) db).0 ≡ ok (info, c)
        → Started r w i db info c (with_identity r w n now (ok i) db).1
    by_id none e = absurd (cc)
    by_id (some id) e =
        initialized_from r w i (initial_user i id now w.stamped_at) db info c
          (find_or_create_by_subject r w (initial_user i id now w.stamped_at) db) refl refl e

-- When InitializeUser has returned a user to an identity, then, whatever users other calls create in
-- between and during it, each later InitializeUser of the same subject that returns a user returns
-- that user, as one that is not new; and a caller who lost a race is such a caller.
pub initialize_user_once :
    (r : UserRouter) (w w' : CreateWorld) (next_id next_id' : Option ℕ) (now now' : ℕ)
    (i i' : Identity) (db : UserDb) (between : List (Bool × User)) (info info' : UserInfo)
    (c c' : Bool)
    → i'.subject ≡ i.subject
    → (initialize_user r w next_id now (some i) db).0 ≡ ok (info, c)
    → (initialize_user r w' next_id' now'
        (some i')
        (create_all r between (initialize_user r w next_id now (some i) db).1)).0
      ≡ ok (info', c')
    → (info' ≡ info) × (c' ≡ false)
initialize_user_once r w w' next_id next_id' now now' i i' db between info info' c c' same h h' =
    let first = initialize_from r w next_id now i db info c h in
    let after = (initialize_user r w next_id now (some i) db).1 in
    let second = initialize_from r w' next_id' now' i' (create_all r between after) info' c' h' in
    let there =
      subst (λ d. find_by_subject r false first.new.keycloak_subject d ≡ ok first.user) first.left
        (find_or_create-Finds r w first.new db first.user c first.returned) in
    let still = create_all-kept r between first.user first.new.keycloak_subject after there in
    let subject = first.of_identity ∙ sym same ∙ sym second.of_identity in
    let (user, old) =
      returns_there r w' second.new (create_all r between after) first.user second.user c'
        (subst (λ s. find_by_subject r false s (create_all r between after) ≡ ok first.user) subject
          still)
        second.returned in
    (sym second.shown ∙ ap to_proto_user user ∙ first.shown, old)
