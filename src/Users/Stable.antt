-- ===== src/Users/Stable.antt =====
-- user/internal/repository/user.go: what is found stays found, whatever is created.
use grpc_go_project.Prelude.{
  ℕ, ◌≡◌, refl, sym, ap, subst, if-cases, Bool, false, ◌&&◌, ◌||◌, Option, none, some, List, ◌∷◌,
  ◌==◌, arith,
}
use grpc_go_project.Prelude.Int.{pos}
use grpc_go_project.Prelude.Text.{Text, text_eq, text_eq_sound}
use grpc_go_project.Prelude.Result.{Result, ok, err}
use grpc_go_project.Sharding.{RouterError, UserRouter, table_index, table_name_by_index}
use grpc_go_project.Users.{
  User, UserIdentityIndex, UserDb, UserError, insert_failed, find_index_by_subject,
  find_index_by_user, find_row, found, in_table, of_index, is_some, taken, insert_user, insert_at,
  create_user,
}

-- What a creation leaves: the rows as they were, or one more user under keys that were free.
pub record Inserted (r : UserRouter) (u : User) (before after : UserDb) : Type 0 where
  pub table : Text
  pub at_index : ℕ
  pub routes : table_index r (pos u.id) ≡ ok at_index
  pub named : table_name_by_index r (pos at_index) ≡ ok table
  pub free_row : find_row table u.id before.rows ≡ none
  pub free_subject : find_index_by_subject u.keycloak_subject before.index ≡ none
  pub free_user : find_index_by_user u.id before.index ≡ none
  pub inserted : after ≡ record {
    rows = (table, u) ∷ before.rows;
    index =
        record { keycloak_subject = u.keycloak_subject; user_id = u.id; table_index = at_index }
        ∷ before.index;
  }

none_of : {A : Type 0} (o : Option A) → is_some o ≡ false → o ≡ none
none_of none h = refl
none_of (some a) h = absurd (cc)

-- The two outcomes of a creation.
abbrev pub Outcome : UserRouter → User → UserDb → Result UserError (Unit {0}) × UserDb → Type 0
Outcome r u db (ok _, db') = Inserted r u db db'
Outcome r u db (err e, db') = db' ≡ db

insert_user-Outcome :
    (r : UserRouter) (refused : Bool) (index : ℕ) (u : User) (db : UserDb)
    (t : Result RouterError Text)
    → table_index r (pos u.id) ≡ ok index
    → table_name_by_index r (pos index) ≡ t
    → Outcome r u db (insert_user refused index u db t)
insert_user-Outcome r refused index u db (err e) at n = refl
insert_user-Outcome r refused index u db (ok table) at n =
    if-cases (Outcome r u db) (refused || taken table u db) (err insert_failed, db) _ (λ _. refl)
      λ free. record {
        table = table;
        at_index = index;
        routes = at;
        named = n;
        free_row = none_of (find_row table u.id db.rows) (ground arith);
        free_subject = none_of (find_index_by_subject u.keycloak_subject db.index) (ground arith);
        free_user = none_of (find_index_by_user u.id db.index) (ground arith);
        inserted = refl;
      }

insert_at-Outcome :
    (r : UserRouter) (refused : Bool) (u : User) (db : UserDb) (i : Result RouterError ℕ)
    → table_index r (pos u.id) ≡ i
    → Outcome r u db (insert_at r refused u db i)
insert_at-Outcome r refused u db (err e) at = refl
insert_at-Outcome r refused u db (ok index) at =
    insert_user-Outcome r refused index u db (table_name_by_index r (pos index)) at refl

pub create_user-Outcome :
    (r : UserRouter) (refused : Bool) (u : User) (db : UserDb)
    → Outcome r u db (create_user r refused u db)
unfolding create_user
create_user-Outcome r refused u db =
    insert_at-Outcome r refused u db (table_index r (pos u.id)) refl

-- What holds of the state as it was and of every state with a new user holds of what a creation leaves.
pub Outcome-cases :
    (P : UserDb → Type 0) (r : UserRouter) (u : User) (db : UserDb)
    (x : Result UserError (Unit {0}) × UserDb)
    → Outcome r u db x
    → P db
    → ((db' : UserDb) → Inserted r u db db' → P db')
    → P x.1
Outcome-cases P r u db (ok _, db') o old new = new db' o
Outcome-cases P r u db (err e, db') o old new = subst P (sym o) old

pub find_row-kept :
    (table t : Text) (u v : User) (id : ℕ) (rows : List (Text × User))
    → find_row table u.id rows ≡ none
    → find_row t id rows ≡ some v
    → find_row t id ((table, u) ∷ rows) ≡ some v
unfolding find_row
find_row-kept table t u v id rows free h =
    if-cases (λ z. z ≡ some v) (text_eq table t && u.id == id) (some u) (find_row t id rows)
      (λ clash.
        let same = text_eq_sound table t (ground arith) in
        let same_id : u.id ≡ id = ground arith in
        absurd (
          let a = ap (λ x. find_row x u.id rows) same in
          let b = ap (λ n. find_row t n rows) same_id in cc))
      (λ _. h)

found-some : (o : Option User) (v : User) → found o ≡ ok v → o ≡ some v
found-some none v h = absurd (cc)
found-some (some u) v h = ap (λ x. some x) (let e : u ≡ v = cc in e)

in_table-kept :
    (table : Text) (u v : User) (id : ℕ) (rows : List (Text × User)) (t : Result RouterError Text)
    → find_row table u.id rows ≡ none
    → in_table rows id t ≡ ok v
    → in_table ((table, u) ∷ rows) id t ≡ ok v
in_table-kept table u v id rows (err e) free h = absurd (cc)
in_table-kept table u v id rows (ok t) free h =
    ap found (find_row-kept table t u v id rows free (found-some (find_row t id rows) v h))

pub of_index-kept :
    (r : UserRouter) (table : Text) (u v : User) (rows : List (Text × User))
    (o : Option UserIdentityIndex)
    → find_row table u.id rows ≡ none
    → of_index r rows o ≡ ok v
    → of_index r ((table, u) ∷ rows) o ≡ ok v
of_index-kept r table u v rows none free h = absurd (cc)
of_index-kept r table u v rows (some i) free h =
    in_table-kept table u v i.user_id rows (table_name_by_index r (pos i.table_index)) free h

pub missing :
    {v : User} (r : UserRouter) (rows : List (Text × User)) (o : Option UserIdentityIndex)
    → o ≡ none
    → ¬ (of_index r rows o ≡ ok v)
missing r rows none e h = absurd (cc)
missing r rows (some i) e h = absurd (cc)
