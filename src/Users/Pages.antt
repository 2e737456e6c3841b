-- ===== src/Users/Pages.antt =====
-- user/internal/service/admin_user.go, GetUserList: the pages of the list.
use grpc_go_project.Prelude.{
  ℕ, zero, suc, ◌+◌, ◌-◌, ◌*◌, ◌%◌, ◌^◌, ◌≡◌, ◌≤◌, ◌<◌, refl, sym, ap, ◌∙◌, if-cases, Bool, true,
  false, not, ◌||◌, some, List, [], ◌∷◌, ◌++◌, length, take, drop, map, ltb, ◌==◌, arith,
  if◌then◌else◌,
}
use grpc_go_project.Prelude.Int.{ℤ, pos, eqb_ℤ, ltb_ℤ, to_int32}
use grpc_go_project.Prelude.Text.{is_empty, trim_space}
use grpc_go_project.Prelude.Result.{Result, ok, err}
use grpc_go_project.Prelude.Sort.{insert_by, sort_by}
use grpc_go_project.Sharding.{UserRouter}
use grpc_go_project.Users.{
  User, UserDb, UserError, invalid_pagination, no_tables, newer, rows_of_all, listed_users,
  list_users,
}
use grpc_go_project.Users.Service.{
  Identity, ServiceError, unauthorized, page_invalid, forbidden, UserInfo, to_proto_user,
  authenticated_identity, is_admin_role,
}
use grpc_go_project.Users.Listing.{
  or_int, normalize_user_page, default_user_list_page_size, UserPage, page_of, listed_page, list_by,
  get_user_list,
}

to_int32_small : (n k : ℕ) → n % 2 ^ 32 ≡ k → k < 2 ^ 31 → to_int32 n ≡ pos k
to_int32_small n k e h =
    if-cases (λ z. z ≡ pos k) (ltb (n % 2 ^ 32) (2 ^ 31)) _ _ (λ _. ap (λ m. pos m) e)
      (λ no. absurd (ground arith))

normalized :
    (p s : ℕ)
    → 0 < s
    → s ≤ 100
    → normalize_user_page (pos (suc p)) (pos s) ≡ ok (pos (suc p), pos s)
unfolding normalize_user_page
normalized p s positive small =
    let page =
      if-cases (λ z. z ≡ pos (suc p)) (eqb_ℤ (pos (suc p)) (pos 0)) (pos 1) (pos (suc p))
        (λ z. absurd (ground arith)) (λ _. refl) in
    let size =
      if-cases (λ z. z ≡ pos s) (eqb_ℤ (pos s) (pos 0)) default_user_list_page_size (pos s)
        (λ z. absurd (ground arith)) (λ _. refl) in
    ap (λ (x : ℤ). checked x (or_int default_user_list_page_size (pos s))) page
    ∙ ap (checked (pos (suc p))) size
    ∙ if-cases (λ z. z ≡ ok (pos (suc p), pos s))
        (ltb_ℤ (pos (suc p)) (pos 1) || ltb_ℤ (pos s) (pos 1) || ltb_ℤ (pos 100) (pos s))
        (err page_invalid) _ (λ z. absurd (ground arith)) (λ _. refl)
  where
    checked : ℤ → ℤ → Result ServiceError (ℤ × ℤ)
    checked x y =
        if ltb_ℤ x (pos 1) || ltb_ℤ y (pos 1) || ltb_ℤ (pos 100) y
        then err page_invalid
        else ok (x, y)

-- The page that lists rows from an offset on.
abbrev page_from : UserRouter → UserDb → ℕ → ℕ → ℕ → UserPage
page_from r db page s offset = record {
  user_list = map to_proto_user (take s (drop offset (listed_users r db)));
  total = length (rows_of_all r.table_names db.rows);
  page = pos page;
  page_size = pos s;
}

-- An administrator's page number p + 1 of size s lists the rows from the remainder of p * s modulo 2 ^ 32
-- on, if that is an int32.
page_at :
    (r : UserRouter) (i : Identity) (db : UserDb) (p s k : ℕ)
    → is_admin_role i.role ≡ true
    → is_empty (trim_space i.subject) ≡ false
    → 0 < length r.table_names
    → 0 < s
    → s ≤ 100
    → (p * s) % 2 ^ 32 ≡ k
    → k < 2 ^ 31
    → get_user_list r false false (some i) (pos (suc p)) (pos s) db
      ≡ ok (page_from r db (suc p) s k)
unfolding get_user_list authenticated_identity list_users
page_at r i db p s k admin named tables positive small e h =
    let Goal = λ (z : Result ServiceError UserPage). z ≡ ok (page_from r db (suc p) s k) in
    if-cases
      (λ (x : Result ServiceError Identity).
        Goal (list_by r false false (pos (suc p)) (pos s) db x))
      (is_empty (trim_space i.subject)) (err unauthorized) (ok i) (λ x. absurd (cc))
      λ _.
        if-cases Goal (not (is_admin_role i.role)) (err forbidden) _ (λ x. absurd (ground arith))
          λ _.
            ap (listed_page r false false db) (normalized p s positive small)
            ∙ ap (λ o. page_of (pos (suc p)) (pos s) (list_users r false false o s db))
                (ap (λ q. to_int32 (q * s)) (let q : suc p - 1 ≡ p = omega arith in q)
                  ∙ to_int32_small (p * s) k e h)
            ∙ if-cases
                (λ (x : Result UserError (List User × ℕ)). Goal (page_of (pos (suc p)) (pos s) x))
                (s == 0) (err invalid_pagination) _ (λ x. absurd (ground arith))
                λ _.
                  if-cases
                    (λ (x : Result UserError (List User × ℕ)).
                      Goal (page_of (pos (suc p)) (pos s) x))
                    (length r.table_names == 0) (err no_tables) _ (λ x. absurd (ground arith))
                    (λ _. refl)

abbrev pub entries : Result ServiceError UserPage → List UserInfo
entries (ok page) = page.user_list
entries (err e) = []

-- The users on the first pages, one page after the other.
unfoldable pub first_pages : UserRouter → Identity → UserDb → ℕ → ℕ → List UserInfo
unfolding get_user_list
first_pages r i db s zero = []
first_pages r i db s (suc n) =
    first_pages r i db s n
    ++ entries (get_user_list r false false (some i) (pos (suc n)) (pos s) db)

take_more : {A : Type 0} (a b : ℕ) (xs : List A) → take a xs ++ take b (drop a xs) ≡ take (a + b) xs
take_more zero b xs = ap (λ m. take m xs) (omega arith)
take_more {A = A} (suc a) b [] = no_more b ∙ sym (no_more (suc a + b))
  where
    no_more : (c : ℕ) → take {A = A} c [] ≡ []
    no_more zero = refl
    no_more (suc c) = refl
take_more (suc a) b (x ∷ xs) =
    ap (λ z. x ∷ z) (take_more a b xs)
    ∙ ap (λ m. take m (x ∷ xs)) (let e : suc (a + b) ≡ suc a + b = omega arith in e)

map_append : {A B : Type 0} (f : A → B) (xs ys : List A) → map f xs ++ map f ys ≡ map f (xs ++ ys)
map_append f [] ys = refl
map_append f (x ∷ xs) ys = ap (λ z. f x ∷ z) (map_append f xs ys)

take_all : {A : Type 0} (n : ℕ) (xs : List A) → length xs ≤ n → take n xs ≡ xs
take_all zero [] h = refl
take_all zero (x ∷ xs) h = absurd (omega arith)
take_all (suc n) [] h = refl
take_all (suc n) (x ∷ xs) h = ap (λ z. x ∷ z) (take_all n xs (omega arith))

one_more : (n s : ℕ) → n * s + s ≡ suc n * s
one_more n s = omega arith

first_pages-take :
    (r : UserRouter) (i : Identity) (db : UserDb) (s n : ℕ)
    → is_admin_role i.role ≡ true
    → is_empty (trim_space i.subject) ≡ false
    → 0 < length r.table_names
    → 0 < s
    → s ≤ 100
    → n * s < 2 ^ 31
    → first_pages r i db s n ≡ map to_proto_user (take (n * s) (listed_users r db))
unfolding first_pages
first_pages-take r i db s zero admin named tables positive small bound =
    ap (λ m. map to_proto_user (take m (listed_users r db))) (let e : 0 ≡ 0 * s = omega arith in e)
first_pages-take r i db s (suc n) admin named tables positive small bound =
    let total = one_more n s in
    let below : n * s < 2 ^ 31 = omega arith in
    let all = listed_users r db in
    ap (λ z. z ++ entries (get_user_list r false false (some i) (pos (suc n)) (pos s) db))
      (first_pages-take r i db s n admin named tables positive small below)
    ∙ ap (λ x. map to_proto_user (take (n * s) all) ++ entries x)
        (page_at r i db n s (n * s) admin named tables positive small (omega arith) below)
    ∙ map_append to_proto_user (take (n * s) all) (take s (drop (n * s) all))
    ∙ ap (map to_proto_user) (take_more (n * s) s all ∙ ap (λ m. take m all) total)

length-insert_by :
    {A : Type 0} (before : A → A → Bool) (a : A) (bs : List A)
    → length (insert_by before a bs) ≡ suc (length bs)
unfolding insert_by
length-insert_by before a [] = refl
length-insert_by before a (b ∷ bs) =
    if-cases (λ z. length z ≡ suc (suc (length bs))) (before b a) (b ∷ insert_by before a bs)
      (a ∷ b ∷ bs) (λ _. ap suc (length-insert_by before a bs)) (λ _. refl)

length-sort_by :
    {A : Type 0} (before : A → A → Bool) (xs : List A) → length (sort_by before xs) ≡ length xs
unfolding sort_by
length-sort_by before [] = refl
length-sort_by before (a ∷ xs) =
    length-insert_by before a (sort_by before xs) ∙ ap suc (length-sort_by before xs)

-- For an administrator, with a router that has tables and a database that answers: the pages of a size
-- from 1 to 100, one after the other and up to one that ends below 2 ^ 31 rows, but not before the last
-- row, give the rows of all tables, newest first, each as often as it stands there.
pub first_pages_list_all :
    (r : UserRouter) (i : Identity) (db : UserDb) (s n : ℕ)
    → is_admin_role i.role ≡ true
    → is_empty (trim_space i.subject) ≡ false
    → 0 < length r.table_names
    → 0 < s
    → s ≤ 100
    → n * s < 2 ^ 31
    → length (rows_of_all r.table_names db.rows) ≤ n * s
    → first_pages r i db s n ≡ map to_proto_user (sort_by newer (rows_of_all r.table_names db.rows))
unfolding listed_users
first_pages_list_all r i db s n admin named tables positive small bound enough =
    first_pages-take r i db s n admin named tables positive small bound
    ∙ ap (map to_proto_user) (
        take_all (n * s) (listed_users r db)
          (let e = length-sort_by newer (rows_of_all r.table_names db.rows) in omega arith))

-- The product in GetUserList wraps around on 32 bits: for an administrator, with a router that has
-- tables and a database that answers, a page number p + 1 of size s from 1 to 100 where p * s is
-- 2 ^ 32 + k, with k below 2 ^ 31, lists the rows from k on.
pub far_page_wraps :
    (r : UserRouter) (i : Identity) (db : UserDb) (p s k : ℕ)
    → is_admin_role i.role ≡ true
    → is_empty (trim_space i.subject) ≡ false
    → 0 < length r.table_names
    → 0 < s
    → s ≤ 100
    → p * s ≡ 2 ^ 32 + k
    → k < 2 ^ 31
    → entries (get_user_list r false false (some i) (pos (suc p)) (pos s) db)
      ≡ map to_proto_user (take s (drop k (listed_users r db)))
far_page_wraps r i db p s k admin named tables positive small e h =
    ap entries (page_at r i db p s k admin named tables positive small (omega arith) h)
