-- ===== src/Users/Agree.antt =====
-- user/internal/repository/user.go: FindByID gives the same user as FindBySubject.
use grpc_go_project.Prelude.{
  ℕ, ◌≡◌, ◌<◌, ◌^◌, refl, sym, ap, subst, ◌∙◌, if-cases, Bool, false, ◌&&◌, Option, none, some,
  List, [], ◌∷◌, ◌==◌, All, arith,
}
use grpc_go_project.Prelude.Int.{pos}
use grpc_go_project.Prelude.Text.{Text, text_eq}
use grpc_go_project.Prelude.Result.{Result, ok, err}
use grpc_go_project.Sharding.{RouterError, UserRouter, table_index, table_name_by_index}
use grpc_go_project.Users.{
  User, UserIdentityIndex, UserDb, find_index_by_subject, find_index_by_user, find_row, found,
  in_table, of_index, find_by_subject, find_by_id, create_user, create_all,
}
use grpc_go_project.Users.Stable.{create_user-Outcome, Outcome-cases}
use grpc_go_project.Users.Kept.{find_row-head, with_user, with_user-kept_id, found_id}

-- A user who is found by subject is found by id, which is a positive int64.
abbrev pub Agree : UserRouter → UserDb → Type 0
Agree r db =
    (s : Text) (v : User)
    → find_by_subject r false s db ≡ ok v
    → (find_by_id r false v.id db ≡ ok v) × (0 < v.id) × (v.id < 2 ^ 63)

points_elsewhere :
    (s : Text) (id : ℕ) (is : List UserIdentityIndex) (i : UserIdentityIndex)
    → find_index_by_user id is ≡ none
    → find_index_by_subject s is ≡ some i
    → ¬ (id ≡ i.user_id)
unfolding find_index_by_user find_index_by_subject
points_elsewhere s id [] i free h same = absurd (cc)
points_elsewhere s id (j ∷ js) i free h same =
    if-cases (λ z. z ≡ none → ⊥) (j.user_id == id) (some j) (find_index_by_user id js)
      (λ _ e. absurd (cc))
      (λ other free'.
        if-cases (λ z. z ≡ some i → ⊥) (text_eq j.keycloak_subject s) (some j)
          (find_index_by_subject s js)
          (λ _ e. let x : j ≡ i = cc in let y = ap (λ k. k.user_id) x in absurd (ground arith))
          (λ _ e. points_elsewhere s id js i free' e same) h)
      free

in_table-old :
    (table : Text) (u v : User) (id : ℕ) (rows : List (Text × User)) (t : Result RouterError Text)
    → ¬ (u.id ≡ id)
    → in_table ((table, u) ∷ rows) id t ≡ ok v
    → in_table rows id t ≡ ok v
unfolding find_row
in_table-old table u v id rows (err e) other h = absurd (cc)
in_table-old table u v id rows (ok t) other h =
    if-cases (λ o. found o ≡ ok v → found (find_row t id rows) ≡ ok v)
      (text_eq table t && u.id == id) (some u) (find_row t id rows)
      (λ same. absurd (other (ground arith))) (λ _ e. e) h

of_index-old :
    (r : UserRouter) (table : Text) (u v : User) (rows : List (Text × User))
    (o : Option UserIdentityIndex)
    → ((i : UserIdentityIndex) → o ≡ some i → ¬ (u.id ≡ i.user_id))
    → of_index r ((table, u) ∷ rows) o ≡ ok v
    → of_index r rows o ≡ ok v
of_index-old r table u v rows none other h = absurd (cc)
of_index-old r table u v rows (some i) other h =
    in_table-old table u v i.user_id rows (table_name_by_index r (pos i.table_index)) (other i refl)
      h

positive_of : (r : UserRouter) (n i : ℕ) → table_index r (pos n) ≡ ok i → 0 < n
unfolding table_index
positive_of r n i h =
    if-cases (λ x. x ≡ ok i → 0 < n) (n == 0) _ _ (λ _ e. absurd (cc)) (λ p _. ground arith) h

with_user-Agree :
    (r : UserRouter) (table : Text) (index : ℕ) (u : User) (db : UserDb)
    → table_index r (pos u.id) ≡ ok index
    → table_name_by_index r (pos index) ≡ ok table
    → u.id < 2 ^ 63
    → find_row table u.id db.rows ≡ none
    → find_index_by_user u.id db.index ≡ none
    → Agree r db
    → Agree r (with_user table index u db)
unfolding find_by_subject find_index_by_subject
with_user-Agree r table index u db at n small free_row free_user a s v =
    if-cases
      (λ o.
        of_index r ((table, u) ∷ db.rows) o ≡ ok v
        → (find_by_id r false v.id (with_user table index u db) ≡ ok v)
          × (0 < v.id)
          × (v.id < 2 ^ 63))
      (text_eq u.keycloak_subject s) _ (find_index_by_subject s db.index)
      (λ _ h.
        let here =
          ap (in_table ((table, u) ∷ db.rows) u.id) n ∙ ap found (find_row-head table u db.rows) in
        let same : u ≡ v = let e = sym here ∙ h in cc in
        subst
          (λ w.
            (find_by_id r false w.id (with_user table index u db) ≡ ok w)
            × (0 < w.id)
            × (w.id < 2 ^ 63))
          same (found_id r table index u db n, positive_of r u.id index at, small))
      (λ _ h.
        let old = a s v (
          of_index-old r table u v db.rows (find_index_by_subject s db.index)
            (λ i e. points_elsewhere s u.id db.index i free_user e) h) in
        (with_user-kept_id r table index u v v.id db free_row free_user old.0, old.1, old.2))

abbrev pub no_users : UserDb
no_users = record { rows = []; index = [] }

no_users-Agree : (r : UserRouter) → Agree r no_users
unfolding find_by_subject find_index_by_subject
no_users-Agree r s v h = absurd (cc)

create_user-Agree :
    (r : UserRouter) (refused : Bool) (u : User) (db : UserDb)
    → u.id < 2 ^ 63
    → Agree r db
    → Agree r (create_user r refused u db).1
create_user-Agree r refused u db small a =
    Outcome-cases (Agree r) r u db (create_user r refused u db) (create_user-Outcome r refused u db)
      a
      (λ db' i.
        subst (Agree r) (sym i.inserted) (
          with_user-Agree r i.table i.at_index u db i.routes i.named small i.free_row i.free_user
            a))

-- After any creations of users whose ids are int64s, those that failed included, a user who is found by
-- subject is found by id, with the same row, and the id is a positive int64.
pub create_all-Agree :
    (r : UserRouter) (xs : List (Bool × User))
    → All (λ x. x.1.id < 2 ^ 63) xs
    → Agree r (create_all r xs no_users)
unfolding create_all
create_all-Agree r xs = from_any xs no_users (no_users-Agree r)
  where
    from_any :
        (ys : List (Bool × User)) (db : UserDb)
        → Agree r db
        → All (λ x. x.1.id < 2 ^ 63) ys
        → Agree r (create_all r ys db)
    from_any [] db a h = a
    from_any ((refused, u) ∷ ys) db a h =
        from_any ys (create_user r refused u db).1 (create_user-Agree r refused u db h.0 a) h.1
