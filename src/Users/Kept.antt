-- ===== src/Users/Kept.antt =====
-- user/internal/repository/user.go: FindBySubject and FindByID over creations.
use grpc_go_project.Prelude.{
  ℕ, ◌≡◌, refl, sym, ap, subst, ◌∙◌, if-cases, Bool, false, ◌&&◌, none, some, List, [], ◌∷◌, ◌==◌,
  arith,
}
use grpc_go_project.Prelude.Int.{pos}
use grpc_go_project.Prelude.Text.{Text, text_eq, text_eq_sound, text_eq_refl}
use grpc_go_project.Prelude.Result.{ok}
use grpc_go_project.Sharding.{UserRouter, table_name_by_index}
use grpc_go_project.Users.{
  User, UserDb, find_index_by_subject, find_index_by_user, find_row, found, in_table, of_index,
  find_by_subject, find_by_id, create_user, create_all,
}
use grpc_go_project.Users.Stable.{create_user-Outcome, Outcome-cases, of_index-kept, missing}

-- The state with one more user.
abbrev pub with_user : Text → ℕ → User → UserDb → UserDb
with_user table index u db = record {
  rows = (table, u) ∷ db.rows;
  index =
      record { keycloak_subject = u.keycloak_subject; user_id = u.id; table_index = index }
      ∷ db.index;
}

pub with_user-kept :
    (r : UserRouter) (table : Text) (index : ℕ) (u v : User) (s : Text) (db : UserDb)
    → find_row table u.id db.rows ≡ none
    → find_index_by_subject u.keycloak_subject db.index ≡ none
    → find_by_subject r false s db ≡ ok v
    → find_by_subject r false s (with_user table index u db) ≡ ok v
unfolding find_by_subject find_index_by_subject
with_user-kept r table index u v s db free_row free_subject h =
    if-cases (λ o. of_index r ((table, u) ∷ db.rows) o ≡ ok v) (text_eq u.keycloak_subject s) _
      (find_index_by_subject s db.index)
      (λ same.
        let e = text_eq_sound u.keycloak_subject s same in
        absurd (
          missing r db.rows (find_index_by_subject s db.index)
            (ap (λ x. find_index_by_subject x db.index) (sym e) ∙ free_subject) h))
      (λ _. of_index-kept r table u v db.rows (find_index_by_subject s db.index) free_row h)

pub with_user-kept_id :
    (r : UserRouter) (table : Text) (index : ℕ) (u v : User) (id : ℕ) (db : UserDb)
    → find_row table u.id db.rows ≡ none
    → find_index_by_user u.id db.index ≡ none
    → find_by_id r false id db ≡ ok v
    → find_by_id r false id (with_user table index u db) ≡ ok v
unfolding find_by_id find_index_by_user
with_user-kept_id r table index u v id db free_row free_user h =
    if-cases (λ o. of_index r ((table, u) ∷ db.rows) o ≡ ok v) (u.id == id) _
      (find_index_by_user id db.index)
      (λ same.
        let e : u.id ≡ id = ground arith in
        absurd (
          missing r db.rows (find_index_by_user id db.index)
            (ap (λ x. find_index_by_user x db.index) (sym e) ∙ free_user) h))
      (λ _. of_index-kept r table u v db.rows (find_index_by_user id db.index) free_row h)

create_user-kept :
    (r : UserRouter) (refused : Bool) (u v : User) (s : Text) (db : UserDb)
    → find_by_subject r false s db ≡ ok v
    → find_by_subject r false s (create_user r refused u db).1 ≡ ok v
create_user-kept r refused u v s db h =
    Outcome-cases (λ x. find_by_subject r false s x ≡ ok v) r u db (create_user r refused u db)
      (create_user-Outcome r refused u db) h
      (λ db' i.
        subst (λ x. find_by_subject r false s x ≡ ok v) (sym i.inserted)
          (with_user-kept r i.table i.at_index u v s db i.free_row i.free_subject h))

pub create_all-kept :
    (r : UserRouter) (xs : List (Bool × User)) (v : User) (s : Text) (db : UserDb)
    → find_by_subject r false s db ≡ ok v
    → find_by_subject r false s (create_all r xs db) ≡ ok v
unfolding create_all
create_all-kept r [] v s db h = h
create_all-kept r ((refused, u) ∷ xs) v s db h =
    create_all-kept r xs v s (create_user r refused u db).1 (create_user-kept r refused u v s db h)

-- A user that was created is found in its table.
pub find_row-head :
    (table : Text) (u : User) (rows : List (Text × User))
    → find_row table u.id ((table, u) ∷ rows) ≡ some u
unfolding find_row
find_row-head table u rows =
    if-cases (λ z. z ≡ some u) (text_eq table table && u.id == u.id) (some u)
      (find_row table u.id rows) (λ _. refl)
      (λ no. absurd (let e = text_eq_refl table in ground arith))

pub found_here :
    (r : UserRouter) (table : Text) (index : ℕ) (u : User) (db : UserDb)
    → table_name_by_index r (pos index) ≡ ok table
    → in_table ((table, u) ∷ db.rows) u.id (table_name_by_index r (pos index)) ≡ ok u
found_here r table index u db n =
    ap (in_table ((table, u) ∷ db.rows) u.id) n ∙ ap found (find_row-head table u db.rows)

pub found_subject :
    (r : UserRouter) (table : Text) (index : ℕ) (u : User) (db : UserDb)
    → table_name_by_index r (pos index) ≡ ok table
    → find_by_subject r false u.keycloak_subject (with_user table index u db) ≡ ok u
unfolding find_by_subject find_index_by_subject
found_subject r table index u db n =
    if-cases (λ o. of_index r ((table, u) ∷ db.rows) o ≡ ok u)
      (text_eq u.keycloak_subject u.keycloak_subject) _
      (find_index_by_subject u.keycloak_subject db.index) (λ _. found_here r table index u db n)
      (λ no. absurd (let e = text_eq_refl u.keycloak_subject in cc))

pub found_id :
    (r : UserRouter) (table : Text) (index : ℕ) (u : User) (db : UserDb)
    → table_name_by_index r (pos index) ≡ ok table
    → find_by_id r false u.id (with_user table index u db) ≡ ok u
unfolding find_by_id find_index_by_user
found_id r table index u db n =
    if-cases (λ o. of_index r ((table, u) ∷ db.rows) o ≡ ok u) (u.id == u.id) _
      (find_index_by_user u.id db.index) (λ _. found_here r table index u db n)
      (λ no. absurd (ground arith))
