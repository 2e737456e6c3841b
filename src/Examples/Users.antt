-- ===== src/Examples/Users.antt =====
-- The theorems on users, at one who is initialised twice and an administrator, and the page that wraps.
use grpc_go_project.Prelude.{◌≡◌, refl, true, false, none, some, [], ◌∷◌, map, drop, take, arith}
use grpc_go_project.Prelude.Int.{pos}
use grpc_go_project.Prelude.Text.{codes, text_eq, trim_space, trim_left, is_space}
use grpc_go_project.Prelude.Result.{ok}
use grpc_go_project.Prelude.Sort.{sort_by}
use grpc_go_project.Sharding.{UserRouter, table_index, table_name_by_index}
use grpc_go_project.Units.{digits_from, decimal}
use grpc_go_project.Users.{
  User, CreateWorld, find_index_by_subject, find_index_by_user, find_row, find_by_subject,
  create_user, create_all, find_or_create_by_subject, newer, rows_of, rows_of_all, listed_users,
}
use grpc_go_project.Users.Service.{
  Identity, UserInfo, to_proto_user, optional_string, authenticated_identity, is_admin_role,
  user_info_for, initialize_user, get_user_info,
}
use grpc_go_project.Users.Listing.{get_user_list}
use grpc_go_project.Users.Agree.{no_users}
use grpc_go_project.Users.Once.{initialize_user_once}
use grpc_go_project.Users.Profile.{get_user_info_agrees}
use grpc_go_project.Users.Pages.{entries, first_pages, first_pages_list_all, far_page_wraps}

abbrev user_router : UserRouter
user_router = record {
  table_count = 8;
  table_names =
      codes "users_00"
      ∷ codes "users_01"
      ∷ codes "users_02"
      ∷ codes "users_03"
      ∷ codes "users_04"
      ∷ codes "users_05"
      ∷ codes "users_06"
      ∷ codes "users_07"
      ∷ [];
}

abbrev user_identity : Identity
user_identity = record {
  subject = codes "s1";
  username = codes "ann";
  email = [];
  role = codes "user";
}

abbrev admin_identity : Identity
admin_identity = record {
  subject = codes "s9";
  username = codes "bob";
  email = [];
  role = codes "admin";
}

abbrev initial_one : User
initial_one = record {
  id = 42;
  keycloak_subject = codes "s1";
  username = codes "ann";
  email = none;
  nickname = codes "ann";
  avatar_url = [];
  phone = none;
  status = 1;
  last_login_at = some 10;
  created_at = 10;
  updated_at = 10;
}

abbrev ann : UserInfo
ann = record {
  id = codes "42";
  username = codes "ann";
  email = [];
  nickname = codes "ann";
  avatar_url = [];
  phone = [];
  status = 1;
  last_login_at = some 10;
  created_at = 10;
  updated_at = 10;
}

-- Another call of the same identity commits between the read and the transaction.
abbrev overtaken : CreateWorld
overtaken = record {
  find_refused = false;
  stamped_at = 11;
  before = (false, initial_one) ∷ [];
  create_refused = false;
  later = [];
  refind_refused = false;
}

abbrev alone : CreateWorld
alone = record overtaken { before = [] }

first_call :
    (initialize_user user_router overtaken (some 51) 11 (some user_identity) no_users).0
    ≡ ok (ann, false)
unfolding initialize_user authenticated_identity find_or_create_by_subject to_proto_user
    optional_string find_by_subject create_user create_all find_index_by_subject find_index_by_user
    find_row table_index table_name_by_index text_eq trim_space trim_left is_space decimal
    digits_from
first_call = refl

second_call :
    (initialize_user user_router alone (some 60) 12 (some user_identity) (
      create_all user_router []
        (initialize_user user_router overtaken (some 51) 11 (some user_identity) no_users).1)).0
    ≡ ok (ann, false)
unfolding initialize_user authenticated_identity find_or_create_by_subject to_proto_user
    optional_string find_by_subject create_user create_all find_index_by_subject find_index_by_user
    find_row table_index table_name_by_index text_eq trim_space trim_left is_space decimal
    digits_from
second_call = refl

initialize_user_once_example : (ann ≡ ann) × (false ≡ false)
initialize_user_once_example =
    initialize_user_once user_router overtaken alone (some 51) (some 60) 11 12 user_identity
      user_identity no_users [] ann ann false false refl first_call second_call

own_view :
    get_user_info user_router false
      (some user_identity)
      []
      (create_all user_router ((false, initial_one) ∷ []) no_users)
    ≡ ok ann
unfolding get_user_info authenticated_identity user_info_for is_admin_role to_proto_user
    find_by_subject create_user create_all find_index_by_subject find_index_by_user find_row
    table_index table_name_by_index text_eq trim_space trim_left is_space decimal digits_from
own_view = refl

admin_is : is_admin_role (codes "admin") ≡ true
unfolding is_admin_role text_eq
admin_is = refl

get_user_info_agrees_example :
    get_user_info user_router false
      (some admin_identity)
      (codes "42")
      (create_all user_router ((false, initial_one) ∷ []) no_users)
    ≡ ok ann
unfolding trim_space trim_left is_space
get_user_info_agrees_example =
    get_user_info_agrees user_router ((false, initial_one) ∷ []) user_identity admin_identity ann
      (omega arith, tt) admin_is refl own_view

first_pages_list_all_example :
    first_pages user_router admin_identity
      (create_all user_router ((false, initial_one) ∷ []) no_users)
      20
      1
    ≡ map to_proto_user (
        sort_by newer (
          rows_of_all user_router.table_names
            (create_all user_router ((false, initial_one) ∷ []) no_users).rows))
unfolding trim_space trim_left is_space rows_of_all rows_of create_all create_user
    find_index_by_subject find_index_by_user find_row table_index table_name_by_index text_eq
first_pages_list_all_example =
    first_pages_list_all user_router admin_identity
      (create_all user_router ((false, initial_one) ∷ []) no_users) 20 1 admin_is refl (omega arith)
      (omega arith) (omega arith) (omega arith) (omega arith)

far_page_wraps_example :
    entries (
      get_user_list user_router false false
        (some admin_identity)
        (pos 42949674)
        (pos 100)
        (create_all user_router ((false, initial_one) ∷ []) no_users))
    ≡ map to_proto_user (
        take 100 (
          drop 4 (
            listed_users user_router
              (create_all user_router ((false, initial_one) ∷ []) no_users))))
unfolding trim_space trim_left is_space
far_page_wraps_example =
    far_page_wraps user_router admin_identity
      (create_all user_router ((false, initial_one) ∷ []) no_users) 42949673 100 4 admin_is refl
      (omega arith) (omega arith) (omega arith) (omega arith) (omega arith)
