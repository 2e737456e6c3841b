-- ===== src/Sharding.antt =====
-- user/internal/sharding/router.go and web3/internal/sharding/router.go: the table of a user's rows and
-- of a wallet's transactions. `Tables` has what the routers promise.
use grpc_go_project.Prelude.{
  ℕ, zero, suc, ◌+◌, ◌-◌, ◌*◌, ◌/◌, ◌%◌, ◌^◌, Bool, true, false, not, ◌&&◌, ◌||◌, Option, none,
  some, List, [], ◌∷◌, ◌++◌, length, get_elem?, leb, ◌==◌, if◌then◌else◌,
}
use grpc_go_project.Prelude.Int.{ℤ, pos, negsuc, eqb_ℤ}
use grpc_go_project.Prelude.Text.{Text, codes, is_empty, trim_space, to_lower}
use Prim.Native.Nat.{bit_xor}
use grpc_go_project.Prelude.Result.{Result, ok, err, ◌>>=◌}
pub mod Tables

-- An index beyond the table names is a panic in Go.
pub data RouterError : Type 0 where
  sharding_disabled table_count_not_8 invalid_prefix id_not_positive wallet_id_empty index_outside
        panicked :
      RouterError

-- `%02d` of a number below 100.
abbrev pub two_digits : ℕ → Text
two_digits n = (48 + n / 10) ∷ (48 + n % 10) ∷ []

-- The names with a prefix for `count` indices from `index` on.
unfoldable pub names_from : Text → ℕ → ℕ → List Text
names_from prefix index zero = []
names_from prefix index (suc count) =
    (prefix ++ two_digits index) ∷ names_from prefix (index + 1) count

abbrev pub is_lower : ℕ → Bool
is_lower c = leb 97 c && leb c 122

-- `[a-z0-9_]`
abbrev pub is_name_char : ℕ → Bool
is_name_char c = is_lower c || (leb 48 c && leb c 57) || c == 95

-- `[a-z0-9_]*_$`
unfoldable pub ends_in_underscore : Text → Bool
ends_in_underscore [] = false
ends_in_underscore (c ∷ []) = c == 95
ends_in_underscore (c ∷ rest) = is_name_char c && ends_in_underscore rest

-- `validTablePrefix`
unfoldable pub valid_table_prefix : Text → Bool
unfolding ends_in_underscore
valid_table_prefix [] = false
valid_table_prefix (c ∷ rest) = is_lower c && ends_in_underscore rest

pub record ShardingConfig : Type 0 where
  pub enabled : Bool
  pub table_count : ℤ
  pub table_prefix : Text

pub record UserRouter : Type 0 where
  pub table_count : ℕ
  pub table_names : List Text

-- `NewUserRouter`
unfoldable pub new_user_router : ShardingConfig → Result RouterError UserRouter
unfolding valid_table_prefix names_from
new_user_router cfg =
    if not cfg.enabled
    then err sharding_disabled
    else if not (eqb_ℤ cfg.table_count (pos 8))
    then err table_count_not_8
    else if not (valid_table_prefix cfg.table_prefix)
    then err invalid_prefix
    else ok (record { table_count = 8; table_names = names_from cfg.table_prefix 0 8 })

abbrev pub or_panic : {A : Type 0} → Option A → Result RouterError A
or_panic none = err panicked
or_panic (some a) = ok a

-- `TableIndex` of an int64.
unfoldable pub table_index : UserRouter → ℤ → Result RouterError ℕ
table_index r (negsuc n) = err id_not_positive
table_index r (pos n) = if n == 0 then err id_not_positive else ok (n % r.table_count)

unfoldable pub table_name : UserRouter → ℤ → Result RouterError Text
unfolding table_index
table_name r id = table_index r id >>= λ index. or_panic (get_elem? r.table_names index)

unfoldable pub table_name_by_index : UserRouter → ℤ → Result RouterError Text
table_name_by_index r (negsuc n) = err index_outside
table_name_by_index r (pos n) =
    if leb (length r.table_names) n then err index_outside else or_panic (get_elem? r.table_names n)

abbrev pub wallet_prefix : Text
wallet_prefix = codes "user_wallets_"

abbrev pub fund_transaction_prefix : Text
fund_transaction_prefix = codes "user_fund_transactions_"

unfoldable pub wallet_table_name : UserRouter → ℤ → Result RouterError Text
unfolding table_index
wallet_table_name r id = table_index r id >>= λ index. ok (wallet_prefix ++ two_digits index)

unfoldable pub fund_transaction_table_name : UserRouter → ℤ → Result RouterError Text
unfolding table_index
fund_transaction_table_name r id =
    table_index r id >>= λ index. ok (fund_transaction_prefix ++ two_digits index)

unfoldable pub wallet_table_name_by_index : UserRouter → ℤ → Result RouterError Text
unfolding table_name_by_index
wallet_table_name_by_index r (negsuc n) = err index_outside
wallet_table_name_by_index r (pos n) =
    table_name_by_index r (pos n) >>= λ _. ok (wallet_prefix ++ two_digits n)

unfoldable pub fund_transaction_table_name_by_index : UserRouter → ℤ → Result RouterError Text
unfolding table_name_by_index
fund_transaction_table_name_by_index r (negsuc n) = err index_outside
fund_transaction_table_name_by_index r (pos n) =
    table_name_by_index r (pos n) >>= λ _. ok (fund_transaction_prefix ++ two_digits n)

-- FNV-1a on 64 bits, over ids in ASCII, whose code points are their bytes.
abbrev pub fnv_step : ℕ → ℕ → ℕ
fnv_step h b = bit_xor h b * 1099511628211 % 2 ^ 64

unfoldable pub fnv_from : ℕ → Text → ℕ
fnv_from h [] = h
fnv_from h (b ∷ bs) = fnv_from (fnv_step h b) bs

abbrev pub transaction_table_prefix : Text
transaction_table_prefix = codes "wallet_transactions_"

-- `TableIndex` of the transaction router.
unfoldable pub transaction_table_index : Text → Result RouterError ℕ
unfolding fnv_from trim_space to_lower
transaction_table_index wallet_id =
    let key = to_lower (trim_space wallet_id) in
    if is_empty key then err wallet_id_empty else ok (fnv_from 14695981039346656037 key % 8)

unfoldable pub transaction_table_name : Text → Result RouterError Text
unfolding transaction_table_index names_from
transaction_table_name wallet_id = transaction_table_index wallet_id >>= λ index.
    or_panic (get_elem? (names_from transaction_table_prefix 0 8) index)

unfoldable pub transaction_table_name_by_index : ℤ → Result RouterError Text
unfolding names_from
transaction_table_name_by_index (negsuc n) = err index_outside
transaction_table_name_by_index (pos n) =
    if leb 8 n
    then err index_outside
    else or_panic (get_elem? (names_from transaction_table_prefix 0 8) n)
