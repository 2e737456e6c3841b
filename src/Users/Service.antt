-- ===== src/Users/Service.antt =====
-- user/internal/service/user.go and admin_user.go: InitializeUser and GetUserInfo.
use grpc_go_project.Prelude.{
  ℕ, ◌+◌, ◌-◌, ◌*◌, ◌^◌, Bool, true, false, not, ◌&&◌, ◌||◌, Option, none, some, [], ◌∷◌, ltb, leb,
  ◌==◌, if◌then◌else◌,
}
use grpc_go_project.Prelude.Int.{ℤ, pos, negsuc}
use grpc_go_project.Prelude.Text.{Text, text_eq, codes, is_empty, trim_space}
use grpc_go_project.Prelude.Result.{Result, ok, err}
use grpc_go_project.Sharding.{UserRouter}
use grpc_go_project.Units.{decimal}
use grpc_go_project.Users.{
  User, UserDb, UserError, record_not_found, find_by_subject, find_by_id, CreateWorld,
  FoundOrCreated, find_or_create_by_subject,
}

-- `auth.Identity`, as far as the service reads it.
pub record Identity : Type 0 where
  pub subject : Text
  pub username : Text
  pub email : Text
  pub role : Text

pub data ServiceError : Type 0 where
  unauthorized forbidden user_id_required user_id_invalid page_invalid user_not_found
        id_unavailable :
      ServiceError
  repository : UserError → ServiceError

-- `userv1.UserInfo`
pub record UserInfo : Type 0 where
  pub id : Text
  pub username : Text
  pub email : Text
  pub nickname : Text
  pub avatar_url : Text
  pub phone : Text
  pub status : ℕ
  pub last_login_at : Option ℕ
  pub created_at : ℕ
  pub updated_at : ℕ

abbrev pub text_or_empty : Option Text → Text
text_or_empty none = []
text_or_empty (some t) = t

-- `toProtoUser`
unfoldable pub to_proto_user : User → UserInfo
unfolding decimal
to_proto_user u = record {
  id = decimal u.id;
  username = u.username;
  email = text_or_empty u.email;
  nickname = u.nickname;
  avatar_url = u.avatar_url;
  phone = text_or_empty u.phone;
  status = u.status;
  last_login_at = u.last_login_at;
  created_at = u.created_at;
  updated_at = u.updated_at;
}

-- `optionalString`
unfoldable pub optional_string : Text → Option Text
unfolding trim_space
optional_string value =
    let trimmed = trim_space value in if is_empty trimmed then none else some trimmed

-- `authenticatedIdentity`
unfoldable pub authenticated_identity : Option Identity → Result ServiceError Identity
unfolding trim_space
authenticated_identity none = err unauthorized
authenticated_identity (some i) = if is_empty (trim_space i.subject) then err unauthorized else ok i

-- `isAdminRole`
unfoldable pub is_admin_role : Text → Bool
unfolding text_eq
is_admin_role role = text_eq role (codes "admin") || text_eq role (codes "super-admin")

abbrev pub user_status_active : ℕ
user_status_active = 1

-- The new user; the database layer stamps a row with the time of its creation.
abbrev pub initial_user : Identity → ℕ → ℕ → ℕ → User
initial_user i id now stamp = record {
  id = id;
  keycloak_subject = i.subject;
  username = i.username;
  email = optional_string i.email;
  nickname = i.username;
  avatar_url = [];
  phone = none;
  status = user_status_active;
  last_login_at = some now;
  created_at = stamp;
  updated_at = stamp;
}

abbrev pub Initialized : Type 0
Initialized = Result ServiceError (UserInfo × Bool) × UserDb

abbrev pub initialized : FoundOrCreated → Initialized
initialized (ok (u, created), db) = (ok (to_proto_user u, created), db)
initialized (err e, db) = (err (repository e), db)

abbrev pub with_identity :
    UserRouter → CreateWorld → Option ℕ → ℕ → Result ServiceError Identity → UserDb → Initialized
with_identity r w next_id now (err e) db = (err e, db)
with_identity r w none now (ok i) db = (err id_unavailable, db)
with_identity r w (some id) now (ok i) db =
    initialized (find_or_create_by_subject r w (initial_user i id now w.stamped_at) db)

-- `InitializeUser`, with what NextID returns and the time.
unfoldable pub initialize_user :
    UserRouter → CreateWorld → Option ℕ → ℕ → Option Identity → UserDb → Initialized
unfolding authenticated_identity find_or_create_by_subject to_proto_user optional_string
initialize_user r w next_id now identity db =
    with_identity r w next_id now (authenticated_identity identity) db

abbrev pub is_digit : ℕ → Bool
is_digit c = leb b'0' c && leb c b'9'

-- The number of a text of digits, at least one of them when `empty_fails`, read on from n.
unfoldable pub parse_digits : Bool → ℕ → Text → Option ℕ
parse_digits empty_fails n [] = if empty_fails then none else some n
parse_digits empty_fails n (c ∷ cs) =
    let rest = parse_digits false (n * 10 + (c - b'0')) cs in if is_digit c then rest else none

-- A magnitude in the range of an int64, by its sign.
abbrev pub in_int64 : Bool → Option ℕ → Option ℤ
in_int64 negative none = none
in_int64 false (some n) = if ltb n (2 ^ 63) then some (pos n) else none
in_int64 true (some n) =
    if leb n (2 ^ 63) then some (if n == 0 then pos 0 else negsuc (n - 1)) else none

-- `strconv.ParseInt(s, 10, 64)`
unfoldable pub parse_int : Text → Option ℤ
unfolding parse_digits
parse_int [] = none
parse_int (c ∷ cs) =
    if c == b'-'
    then in_int64 true (parse_digits true 0 cs)
    else if c == b'+'
    then in_int64 false (parse_digits true 0 cs)
    else in_int64 false (parse_digits true 0 (c ∷ cs))

abbrev pub info_of : Result UserError User → Result ServiceError UserInfo
info_of (ok u) = ok (to_proto_user u)
info_of (err record_not_found) = err user_not_found
info_of (err e) = err (repository e)

abbrev pub user_by_number : UserRouter → Bool → Option ℤ → UserDb → Result ServiceError UserInfo
user_by_number r refused none db = err user_id_invalid
user_by_number r refused (some (negsuc n)) db = err user_id_invalid
user_by_number r refused (some (pos n)) db =
    if n == 0 then err user_id_invalid else info_of (find_by_id r refused n db)

-- The request by a caller, with its user id without blanks around it.
unfoldable pub user_info_for :
    UserRouter → Bool → Identity → Text → UserDb → Result ServiceError UserInfo
unfolding is_admin_role find_by_subject find_by_id parse_int to_proto_user
user_info_for r refused i target db =
    if is_empty target
    then if is_admin_role i.role
      then err user_id_required
      else info_of (find_by_subject r refused i.subject db)
    else if not (is_admin_role i.role)
    then err forbidden
    else user_by_number r refused (parse_int target) db

abbrev pub by_identity :
    UserRouter → Bool → Result ServiceError Identity → Text → UserDb → Result ServiceError UserInfo
by_identity r refused (err e) target db = err e
by_identity r refused (ok i) target db = user_info_for r refused i target db

-- `GetUserInfo`; a request that is nil reads like an empty id.
unfoldable pub get_user_info :
    UserRouter → Bool → Option Identity → Text → UserDb → Result ServiceError UserInfo
unfolding authenticated_identity trim_space user_info_for
get_user_info r refused identity target db =
    by_identity r refused (authenticated_identity identity) (trim_space target) db
