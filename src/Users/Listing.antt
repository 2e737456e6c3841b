-- ===== src/Users/Listing.antt =====
-- user/internal/service/admin_user.go: GetUserList.
use grpc_go_project.Prelude.{ℕ, ◌-◌, ◌*◌, Bool, not, ◌||◌, Option, List, map, if◌then◌else◌}
use grpc_go_project.Prelude.Int.{ℤ, pos, negsuc, eqb_ℤ, ltb_ℤ, to_int32}
use grpc_go_project.Prelude.Result.{Result, ok, err}
use grpc_go_project.Sharding.{UserRouter}
use grpc_go_project.Users.{User, UserDb, UserError, list_users}
use grpc_go_project.Users.Service.{
  Identity, ServiceError, forbidden, page_invalid, repository, UserInfo, to_proto_user,
  authenticated_identity, is_admin_role,
}

abbrev pub default_user_list_page_size : ℤ
default_user_list_page_size = pos 20

abbrev pub max_user_list_page_size : ℤ
max_user_list_page_size = pos 100

abbrev pub or_int : ℤ → ℤ → ℤ
or_int d n = if eqb_ℤ n (pos 0) then d else n

-- `normalizeUserPage` of two int32s; a request that is nil reads like two zeros.
unfoldable pub normalize_user_page : ℤ → ℤ → Result ServiceError (ℤ × ℤ)
normalize_user_page page page_size =
    let p = or_int (pos 1) page in
    let s = or_int default_user_list_page_size page_size in
    if ltb_ℤ p (pos 1) || ltb_ℤ s (pos 1) || ltb_ℤ max_user_list_page_size s
    then err page_invalid
    else ok (p, s)

pub record UserPage : Type 0 where
  pub user_list : List UserInfo
  pub total : ℕ
  pub page : ℤ
  pub page_size : ℤ

-- `int((page - 1) * pageSize)` of a page and a size that are positive, on 32 bits.
abbrev pub page_offset : ℤ → ℤ → ℤ
page_offset (pos p) (pos s) = to_int32 ((p - 1) * s)
page_offset _ _ = pos 0

abbrev pub magnitude : ℤ → ℕ
magnitude (pos n) = n
magnitude (negsuc n) = 0

abbrev pub page_of : ℤ → ℤ → Result UserError (List User × ℕ) → Result ServiceError UserPage
page_of p s (err e) = err (repository e)
page_of p s (ok (users, total)) =
    ok (record { user_list = map to_proto_user users; total = total; page = p; page_size = s })

abbrev pub listed_page :
    UserRouter → Bool → Bool → UserDb → Result ServiceError (ℤ × ℤ) → Result ServiceError UserPage
listed_page r count_refused list_refused db (err e) = err e
listed_page r count_refused list_refused db (ok (p, s)) =
    page_of p s (list_users r count_refused list_refused (page_offset p s) (magnitude s) db)

abbrev pub list_by :
    UserRouter
    → Bool
    → Bool
    → ℤ
    → ℤ
    → UserDb
    → Result ServiceError Identity
    → Result ServiceError UserPage
list_by r count_refused list_refused page page_size db (err e) = err e
list_by r count_refused list_refused page page_size db (ok i) =
    if not (is_admin_role i.role)
    then err forbidden
    else listed_page r count_refused list_refused db (normalize_user_page page page_size)

-- `GetUserList`
unfoldable pub get_user_list :
    UserRouter → Bool → Bool → Option Identity → ℤ → ℤ → UserDb → Result ServiceError UserPage
unfolding authenticated_identity is_admin_role normalize_user_page list_users to_proto_user
get_user_list r count_refused list_refused identity page page_size db =
    list_by r count_refused list_refused page page_size db (authenticated_identity identity)
