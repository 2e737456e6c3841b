-- ===== src/Examples/Sharding.antt =====
-- The routers of sharded tables, at one configuration and one id.
use grpc_go_project.Prelude.{◌≡◌, refl, ◌++◌, ◌%◌, true}
use grpc_go_project.Prelude.Int.{pos}
use grpc_go_project.Prelude.Text.{codes, trim_space, trim_left, is_space, to_lower, lower_char}
use grpc_go_project.Prelude.Result.{ok}
use grpc_go_project.Sharding.{
  two_digits, names_from, ShardingConfig, UserRouter, new_user_router, table_name,
  wallet_table_name, fund_transaction_table_name, wallet_prefix, fund_transaction_prefix, fnv_from,
  transaction_table_index, transaction_table_name,
}
use grpc_go_project.Sharding.Tables.{user_tables}

abbrev user_config : ShardingConfig
user_config = record { enabled = true; table_count = pos 8; table_prefix = codes "users_" }

abbrev user_router : UserRouter
user_router = record { table_count = 8; table_names = names_from (codes "users_") 0 8 }

user_tables_example :
    (table_name user_router (pos 13) ≡ ok (codes "users_" ++ two_digits (13 % 8)))
    × (wallet_table_name user_router (pos 13) ≡ ok (wallet_prefix ++ two_digits (13 % 8)))
    × (fund_transaction_table_name user_router (pos 13)
        ≡ ok (fund_transaction_prefix ++ two_digits (13 % 8)))
unfolding new_user_router
user_tables_example = user_tables user_config user_router 12 refl

-- The published value of FNV-1a on 64 bits for the text of one letter.
hashes_letter : fnv_from 14695981039346656037 (codes "a") ≡ 0xaf63dc4c8601ec8c
unfolding fnv_from
hashes_letter = refl

routes_wallet : transaction_table_name (codes " A ") ≡ ok (codes "wallet_transactions_04")
unfolding transaction_table_name transaction_table_index fnv_from trim_space trim_left is_space
    to_lower lower_char names_from
routes_wallet = refl
