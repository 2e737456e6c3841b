-- ===== src/Sharding/Tables.antt =====
-- Which tables the routers of user/internal/sharding and web3/internal/sharding choose.
use grpc_go_project.Prelude.{
  ℕ, zero, suc, ◌+◌, ◌%◌, ◌≡◌, refl, ap, subst, ◌∙◌, not, some, ◌++◌, get_elem?, ◌==◌, ◌<◌, arith,
  if-cases,
}
use grpc_go_project.Prelude.Int.{pos, eqb_ℤ}
use grpc_go_project.Prelude.Text.{Text}
use grpc_go_project.Prelude.Result.{Result, ok, err, ◌>>=◌}
use grpc_go_project.Sharding.{
  RouterError, id_not_positive, two_digits, names_from, valid_table_prefix, ShardingConfig,
  UserRouter, new_user_router, or_panic, table_index, table_name, wallet_table_name,
  fund_transaction_table_name, wallet_prefix, fund_transaction_prefix,
}

get_elem?-names_from :
    (prefix : Text) (start count i : ℕ)
    → i < count
    → get_elem? (names_from prefix start count) i ≡ some (prefix ++ two_digits (start + i))
unfolding names_from
get_elem?-names_from prefix start zero i h = absurd (omega arith)
get_elem?-names_from prefix start (suc count) zero h =
    ap (λ n. some (prefix ++ two_digits n)) (omega arith)
get_elem?-names_from prefix start (suc count) (suc i) h =
    get_elem?-names_from prefix (start + 1) count i (omega arith)
    ∙ ap (λ n. some (prefix ++ two_digits n)) (omega arith)

abbrev router_of : ShardingConfig → UserRouter
router_of cfg = record { table_count = 8; table_names = names_from cfg.table_prefix 0 8 }

new_user_router_of :
    (cfg : ShardingConfig) (r : UserRouter) → new_user_router cfg ≡ ok r → router_of cfg ≡ r
unfolding new_user_router
new_user_router_of cfg r =
    let P = λ (x : Result RouterError UserRouter). x ≡ ok r → router_of cfg ≡ r in
    if-cases P (not cfg.enabled) _ _ (λ _ e. absurd (cc))
      λ _.
        if-cases P (not (eqb_ℤ cfg.table_count (pos 8))) _ _ (λ _ e. absurd (cc))
          λ _.
            if-cases P (not (valid_table_prefix cfg.table_prefix)) _ _ (λ _ e. absurd (cc))
              (λ _ e. cc)

table_index_of :
    (cfg : ShardingConfig) (n : ℕ) → table_index (router_of cfg) (pos (suc n)) ≡ ok (suc n % 8)
unfolding table_index
table_index_of cfg n =
    if-cases (λ x. x ≡ ok (suc n % 8)) (suc n == 0) (err id_not_positive) (ok (suc n % 8))
      (λ z. absurd (ground arith)) (λ _. refl)

-- For a router that was created from a configuration, the users', the wallets' and the fund
-- transactions' tables of a positive user id all exist, without a panic, and bear the same index: the
-- id modulo 8.
pub user_tables :
    (cfg : ShardingConfig) (r : UserRouter) (n : ℕ)
    → new_user_router cfg ≡ ok r
    → (table_name r (pos (suc n)) ≡ ok (cfg.table_prefix ++ two_digits (suc n % 8)))
      × (wallet_table_name r (pos (suc n)) ≡ ok (wallet_prefix ++ two_digits (suc n % 8)))
      × (fund_transaction_table_name r (pos (suc n))
          ≡ ok (fund_transaction_prefix ++ two_digits (suc n % 8)))
unfolding table_name wallet_table_name fund_transaction_table_name
user_tables cfg r n e =
    let i = suc n % 8 in
    let at = table_index_of cfg n in
    subst
      (λ s.
        (table_name s (pos (suc n)) ≡ ok (cfg.table_prefix ++ two_digits i))
        × (wallet_table_name s (pos (suc n)) ≡ ok (wallet_prefix ++ two_digits i))
        × (fund_transaction_table_name s (pos (suc n))
            ≡ ok (fund_transaction_prefix ++ two_digits i)))
      (new_user_router_of cfg r e)
      (
        ap (λ x. x >>= λ index. or_panic (get_elem? (names_from cfg.table_prefix 0 8) index)) at
            ∙ ap or_panic (
                get_elem?-names_from cfg.table_prefix 0 8 i (omega arith)
                ∙ ap (λ m. some (cfg.table_prefix ++ two_digits m)) (omega arith)),
        ap (λ x. x >>= λ index. ok (wallet_prefix ++ two_digits index)) at,
        ap (λ x. x >>= λ index. ok (fund_transaction_prefix ++ two_digits index)) at,
      )
