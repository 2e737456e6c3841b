-- ===== src/Users/Profile.antt =====
-- user/internal/service/admin_user.go, GetUserInfo: users and administrators see the same profile.
use grpc_go_project.Prelude.{
  ◌≡◌, ◌<◌, ◌^◌, refl, ap, subst, ◌∙◌, if-cases, Bool, true, false, not, some, List, [], All, ◌==◌,
  arith,
}
use grpc_go_project.Prelude.Int.{pos}
use grpc_go_project.Prelude.Text.{is_empty, trim_space}
use grpc_go_project.Prelude.Result.{Result, ok, err}
use grpc_go_project.Sharding.{UserRouter}
use grpc_go_project.Units.{decimal}
use grpc_go_project.Users.{
  User, UserDb, UserError, record_not_found, query_failed, insert_failed, invalid_pagination,
  no_tables, routed, find_by_subject, find_by_id, create_all,
}
use grpc_go_project.Users.Agree.{no_users, create_all-Agree}
use grpc_go_project.Users.Ids.{decimal-filled, trim_space-decimal, parse_int-decimal}
use grpc_go_project.Users.Service.{
  Identity, ServiceError, unauthorized, user_id_required, user_id_invalid, UserInfo, to_proto_user,
  authenticated_identity, is_admin_role, info_of, user_by_number, user_info_for, by_identity,
  get_user_info,
}

info_of-ok :
    (x : Result UserError User) (info : UserInfo)
    → info_of x ≡ ok info
    → (u : User) × (x ≡ ok u) × (to_proto_user u ≡ info)
info_of-ok (ok u) info h = (u, refl, cc)
info_of-ok (err record_not_found) info h = absurd (cc)
info_of-ok (err query_failed) info h = absurd (cc)
info_of-ok (err insert_failed) info h = absurd (cc)
info_of-ok (err invalid_pagination) info h = absurd (cc)
info_of-ok (err no_tables) info h = absurd (cc)
info_of-ok (err (routed e)) info h = absurd (cc)

-- The user that a profile without an id in the request comes from.
own_profile :
    (r : UserRouter) (i : Identity) (db : UserDb) (info : UserInfo)
    → get_user_info r false (some i) [] db ≡ ok info
    → (u : User) × (find_by_subject r false i.subject db ≡ ok u) × (to_proto_user u ≡ info)
unfolding get_user_info authenticated_identity trim_space user_info_for
own_profile r i db info h =
    if-cases
      (λ (a : Result ServiceError Identity).
        by_identity r false a [] db ≡ ok info
        → (u : User) × (find_by_subject r false i.subject db ≡ ok u) × (to_proto_user u ≡ info))
      (is_empty (trim_space i.subject)) (err unauthorized) (ok i) (λ _ e. absurd (cc))
      (λ _ e.
        if-cases
          (λ (x : Result ServiceError UserInfo).
            x ≡ ok info
            → (u : User) × (find_by_subject r false i.subject db ≡ ok u) × (to_proto_user u ≡ info))
          (is_admin_role i.role) (err user_id_required)
          (info_of (find_by_subject r false i.subject db)) (λ _ x. absurd (cc))
          (λ _ x. info_of-ok (find_by_subject r false i.subject db) info x) e)
      h

-- What an administrator gets for the text of an id.
admin_profile :
    (r : UserRouter) (a : Identity) (db : UserDb) (u : User)
    → is_admin_role a.role ≡ true
    → is_empty (trim_space a.subject) ≡ false
    → 0 < u.id
    → u.id < 2 ^ 63
    → find_by_id r false u.id db ≡ ok u
    → get_user_info r false (some a) (decimal u.id) db ≡ ok (to_proto_user u)
unfolding get_user_info authenticated_identity user_info_for
admin_profile r a db u admin named positive small h =
    if-cases
      (λ (x : Result ServiceError Identity).
        by_identity r false x (trim_space (decimal u.id)) db ≡ ok (to_proto_user u))
      (is_empty (trim_space a.subject)) (err unauthorized) (ok a) (λ e. absurd (cc))
      λ _. ap (λ t. user_info_for r false a t db) (trim_space-decimal u.id) ∙ for_text
  where
    by_number : user_by_number r false (some (pos u.id)) db ≡ ok (to_proto_user u)
    by_number =
        if-cases (λ z. z ≡ ok (to_proto_user u)) (u.id == 0) (err user_id_invalid)
          (info_of (find_by_id r false u.id db)) (λ z. absurd (ground arith)) (λ _. ap info_of h)

    for_text : user_info_for r false a (decimal u.id) db ≡ ok (to_proto_user u)
    for_text =
        if-cases (λ z. z ≡ ok (to_proto_user u)) (is_empty (decimal u.id)) _ _
          (λ e. absurd (let f = decimal-filled u.id in cc))
          λ _.
            if-cases (λ z. z ≡ ok (to_proto_user u)) (not (is_admin_role a.role)) _ _
              (λ e. absurd (ground arith))
              λ _. ap (λ n. user_by_number r false n db) (parse_int-decimal u.id small) ∙ by_number

-- After any creations of users whose ids are int64s: when a user reads their own profile, then an
-- administrator, with a subject that is not blank, who asks for the id that stands in it gets the same
-- profile, as long as the database answers.
pub get_user_info_agrees :
    (r : UserRouter) (xs : List (Bool × User)) (i a : Identity) (info : UserInfo)
    → All (λ x. x.1.id < 2 ^ 63) xs
    → is_admin_role a.role ≡ true
    → is_empty (trim_space a.subject) ≡ false
    → get_user_info r false (some i) [] (create_all r xs no_users) ≡ ok info
    → get_user_info r false (some a) info.id (create_all r xs no_users) ≡ ok info
unfolding to_proto_user
get_user_info_agrees r xs i a info small admin named h =
    let db = create_all r xs no_users in
    let (u, at, shown) = own_profile r i db info h in
    let found = create_all-Agree r xs small i.subject u at in
    subst (λ x. get_user_info r false (some a) x.id db ≡ ok x) shown
      (admin_profile r a db u admin named found.1 found.2 found.0)
