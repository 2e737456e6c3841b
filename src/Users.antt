-- ===== src/Users.antt =====
-- user/internal/repository/user.go: the users of the user service, over eight tables, behind an index by
-- identity. `Service` and `Listing` have the calls of user/internal/service/user.go and admin_user.go.
use grpc_go_project.Prelude.{
  ℕ, Bool, true, false, ◌&&◌, ◌||◌, Option, none, some, List, [], ◌∷◌, ◌++◌, length, take, drop,
  map, ltb, ◌==◌, if◌then◌else◌,
}
use grpc_go_project.Prelude.Int.{ℤ, pos, negsuc}
use grpc_go_project.Prelude.Text.{Text, text_eq}
use grpc_go_project.Prelude.Result.{Result, ok, err}
use grpc_go_project.Prelude.Sort.{sort_by}
use grpc_go_project.Sharding.{RouterError, UserRouter, table_index, table_name_by_index}
pub mod Stable
pub mod Kept
pub mod Agree
pub mod Service
pub mod Listing
pub mod Once
pub mod Ids
pub mod Profile
pub mod Pages

-- `model.User`, with times in microseconds, as the database keeps them. An id is not negative: NextID makes none that is.
pub record User : Type 0 where
  pub id : ℕ
  pub keycloak_subject : Text
  pub username : Text
  pub email : Option Text
  pub nickname : Text
  pub avatar_url : Text
  pub phone : Option Text
  pub status : ℕ
  pub last_login_at : Option ℕ
  pub created_at : ℕ
  pub updated_at : ℕ

-- `model.UserIdentityIndex`
pub record UserIdentityIndex : Type 0 where
  pub keycloak_subject : Text
  pub user_id : ℕ
  pub table_index : ℕ

-- The rows of all user tables, each with the name of its table, and those of the index.
pub record UserDb : Type 0 where
  pub rows : List (Text × User)
  pub index : List UserIdentityIndex

pub data UserError : Type 0 where
  record_not_found query_failed insert_failed invalid_pagination no_tables : UserError
  routed : RouterError → UserError

unfoldable pub find_index_by_subject : Text → List UserIdentityIndex → Option UserIdentityIndex
find_index_by_subject subject [] = none
find_index_by_subject subject (i ∷ is) =
    if text_eq i.keycloak_subject subject then some i else find_index_by_subject subject is

unfoldable pub find_index_by_user : ℕ → List UserIdentityIndex → Option UserIdentityIndex
find_index_by_user user_id [] = none
find_index_by_user user_id (i ∷ is) =
    if i.user_id == user_id then some i else find_index_by_user user_id is

-- The row with an id of one table.
unfoldable pub find_row : Text → ℕ → List (Text × User) → Option User
find_row table user_id [] = none
find_row table user_id ((t, u) ∷ rest) =
    if text_eq t table && u.id == user_id then some u else find_row table user_id rest

abbrev pub found : Option User → Result UserError User
found none = err record_not_found
found (some u) = ok u

-- The row that an index row points to, in a table that has a name.
abbrev pub in_table : List (Text × User) → ℕ → Result RouterError Text → Result UserError User
in_table rows user_id (err e) = err (routed e)
in_table rows user_id (ok table) = found (find_row table user_id rows)

abbrev pub of_index :
    UserRouter → List (Text × User) → Option UserIdentityIndex → Result UserError User
of_index r rows none = err record_not_found
of_index r rows (some i) = in_table rows i.user_id (table_name_by_index r (pos i.table_index))

-- `FindBySubject`; the flag is an error of the database.
unfoldable pub find_by_subject : UserRouter → Bool → Text → UserDb → Result UserError User
unfolding find_index_by_subject find_row table_name_by_index
find_by_subject r refused subject db =
    if refused
    then err query_failed
    else of_index r db.rows (find_index_by_subject subject db.index)

-- `FindByID`
unfoldable pub find_by_id : UserRouter → Bool → ℕ → UserDb → Result UserError User
unfolding find_index_by_user find_row table_name_by_index
find_by_id r refused user_id db =
    if refused then err query_failed else of_index r db.rows (find_index_by_user user_id db.index)

abbrev pub is_some : {A : Type 0} → Option A → Bool
is_some none = false
is_some (some a) = true

-- The keys of the two rows are free: the id in its table, the subject and the id in the index.
abbrev pub taken : Text → User → UserDb → Bool
taken table u db =
    is_some (find_row table u.id db.rows)
    || is_some (find_index_by_subject u.keycloak_subject db.index)
    || is_some (find_index_by_user u.id db.index)

-- Both rows are inserted, or neither.
abbrev pub insert_user :
    Bool → ℕ → User → UserDb → Result RouterError Text → Result UserError (Unit {0}) × UserDb
insert_user refused index u db (err e) = (err (routed e), db)
insert_user refused index u db (ok table) =
    if refused || taken table u db then (err insert_failed, db) else (
      ok tt,
      record {
        rows = (table, u) ∷ db.rows;
        index =
            record { keycloak_subject = u.keycloak_subject; user_id = u.id; table_index = index }
            ∷ db.index;
      },
    )

abbrev pub insert_at :
    UserRouter → Bool → User → UserDb → Result RouterError ℕ → Result UserError (Unit {0}) × UserDb
insert_at r refused u db (err e) = (err (routed e), db)
insert_at r refused u db (ok index) =
    insert_user refused index u db (table_name_by_index r (pos index))

-- The transaction of `FindOrCreateBySubject`.
unfoldable pub create_user :
    UserRouter → Bool → User → UserDb → Result UserError (Unit {0}) × UserDb
unfolding table_index table_name_by_index find_row find_index_by_subject find_index_by_user
create_user r refused u db = insert_at r refused u db (table_index r (pos u.id))

-- Transactions of other calls, in the order in which they commit, each with the database's refusal.
unfoldable pub create_all : UserRouter → List (Bool × User) → UserDb → UserDb
unfolding create_user
create_all r [] db = db
create_all r ((refused, u) ∷ rest) db = create_all r rest (create_user r refused u db).1

-- What one call meets: errors of the database, the time with which GORM stamps its row, and the transactions of other calls that commit between
-- its read and its transaction, and between that and its second read.
pub record CreateWorld : Type 0 where
  pub find_refused : Bool
  pub stamped_at : ℕ
  pub before : List (Bool × User)
  pub create_refused : Bool
  pub later : List (Bool × User)
  pub refind_refused : Bool

abbrev pub FoundOrCreated : Type 0
FoundOrCreated = Result UserError (User × Bool) × UserDb

-- The winner of the race, or the error of the transaction.
abbrev pub race_winner : UserError → Result UserError User → Result UserError (User × Bool)
race_winner e (ok v) = ok (v, false)
race_winner e (err _) = err e

abbrev pub after_transaction :
    UserRouter → CreateWorld → User → Result UserError (Unit {0}) × UserDb → FoundOrCreated
after_transaction r w u (ok _, db) = (ok (u, true), db)
after_transaction r w u (err e, db) =
    let db' = create_all r w.later db in
    (race_winner e (find_by_subject r w.refind_refused u.keycloak_subject db'), db')

abbrev pub after_find :
    UserRouter → CreateWorld → User → UserDb → Result UserError User → FoundOrCreated
after_find r w u db (ok v) = (ok (v, false), db)
after_find r w u db (err record_not_found) =
    after_transaction r w u (create_user r w.create_refused u (create_all r w.before db))
after_find r w u db (err e) = (err e, db)

-- `FindOrCreateBySubject`
unfoldable pub find_or_create_by_subject : UserRouter → CreateWorld → User → UserDb → FoundOrCreated
unfolding find_by_subject create_user create_all
find_or_create_by_subject r w u db =
    after_find r w u db (find_by_subject r w.find_refused u.keycloak_subject db)

unfoldable pub rows_of : Text → List (Text × User) → List User
rows_of table [] = []
rows_of table ((t, u) ∷ rest) =
    if text_eq t table then u ∷ rows_of table rest else rows_of table rest

-- UNION ALL of the tables.
unfoldable pub rows_of_all : List Text → List (Text × User) → List User
unfolding rows_of
rows_of_all [] rows = []
rows_of_all (t ∷ ts) rows = rows_of t rows ++ rows_of_all ts rows

-- ORDER BY created_at DESC, id DESC
abbrev pub newer : User → User → Bool
newer a b = if a.created_at == b.created_at then ltb b.id a.id else ltb b.created_at a.created_at

-- All users in the order of the list.
unfoldable pub listed_users : UserRouter → UserDb → List User
unfolding rows_of_all sort_by
listed_users r db = sort_by newer (rows_of_all r.table_names db.rows)

-- `List`: the rows of a page, and the number of all rows.
unfoldable pub list_users :
    UserRouter → Bool → Bool → ℤ → ℕ → UserDb → Result UserError (List User × ℕ)
unfolding rows_of_all listed_users
list_users r count_refused list_refused (negsuc n) limit db = err invalid_pagination
list_users r count_refused list_refused (pos offset) limit db =
    if limit == 0
    then err invalid_pagination
    else if length r.table_names == 0
    then err no_tables
    else if count_refused || list_refused
    then err query_failed
    else ok
        (take limit (drop offset (listed_users r db)), length (rows_of_all r.table_names db.rows))
