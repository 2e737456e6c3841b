-- ===== src/Examples/Wallets.antt =====
-- The theorems on bound wallets, at a user with two of them, and on the usage budgets.
use grpc_go_project.Prelude.{ℕ, ◌+◌, refl, true, false, List, [], ◌∷◌, arith}
use grpc_go_project.Wallets.{Wallet, default_count, row_of, create_bound_wallet, disable}
use grpc_go_project.Wallets.Counts.{distinct_ids}
use grpc_go_project.Wallets.Defaults.{OneDefault}
use grpc_go_project.Wallets.Choice.{disabled, Replaced}
use grpc_go_project.Wallets.Reach.{creates, no_wallets, after, reach-OneDefault, disable_replaces}
use grpc_go_project.Usage.{Refused, success}
use grpc_go_project.Usage.Account.{Limits, query, upstream, result, use_many, WithinBudget, unused}
use grpc_go_project.Usage.Budget.{use_many-WithinBudget}

abbrev wallet_of : ℕ → Wallet
wallet_of n = record {
  id = n;
  user_subject = 5;
  chain_id = 56;
  address = 700 + n;
  label = 0;
  active = true;
  is_default = false;
  verified_at = n;
  created_at = n;
}

abbrev first_default : Wallet
first_default = record (wallet_of 1) { is_default = true }

abbrev two_wallets : List Wallet
two_wallets = wallet_of 2 ∷ first_default ∷ []

reach-OneDefault_example : OneDefault (create_bound_wallet false (wallet_of 1) []).1
reach-OneDefault_example = reach-OneDefault (create_bound_wallet false (wallet_of 1) []).1 (
    after [] (create_bound_wallet false (wallet_of 1) []).1 no_wallets
      (creates false (wallet_of 1) []))

two_wallets-OneDefault : OneDefault two_wallets
unfolding distinct_ids row_of default_count
two_wallets-OneDefault = record { unique = refl; one = λ user. ground arith }

disable_replaces_example : Replaced 5 (disabled 1 two_wallets) (disable false 5 1 two_wallets).1
unfolding row_of
disable_replaces_example =
    disable_replaces 5 1 two_wallets first_default two_wallets-OneDefault refl refl

abbrev accepted : Refused
accepted = record {
  creates = false;
  locks = false;
  finds = false;
  inserts = false;
  updates = false;
}

abbrev small_limits : Limits
small_limits = record { queries = 1; addresses = 1; upstream_calls = 1 }

use_many-WithinBudget_example : WithinBudget small_limits (
    use_many small_limits
      (query accepted 8 ∷ upstream false ∷ query accepted 9 ∷ result false success true ∷ [])
      unused)
use_many-WithinBudget_example =
    use_many-WithinBudget small_limits
      (query accepted 8 ∷ upstream false ∷ query accepted 9 ∷ result false success true ∷ [])
