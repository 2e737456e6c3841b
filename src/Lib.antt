-- ===== src/Lib.antt =====
-- Models of the Go services of this repository, with the theorems that make their core correct. The
-- gateway limits and forwards the requests of clients; the user service keeps accounts under ids of
-- its own; the admin service writes operation logs that arrive through RabbitMQ; the web3 service
-- keeps the wallets that users have bound, scans blocks for their transactions and budgets its
-- queries of TRON. The services share no state. Within web3, Binding works on the table of Wallets and
-- Approvals on the budgets of Usage; Users routes by the tables of Sharding.
--
-- Prelude has what all parts use: Boolean tests, lists over the native numbers, Go's signed integers,
-- bit operations, text helpers and results.
--
-- Snowflake: user/internal/idgen/snowflake.go. `Snowflake` is the generator, `new_snowflake` and
-- `next_id` are NewSnowflake and NextID. The clock is a list of the readings that a call sees; a call
-- that waits for longer than the list runs out with `none`. The mutex makes calls sequential.
--
-- RateLimit: gateway/internal/ratelimit/redis.go and gateway/internal/middleware/rate_limit.go.
-- `sliding_window_script` is the Lua script on a sorted set, `allow` is Allow, Middleware has Handle.
-- Redis runs a script without interleaving. A request has two times, its caller's reading of now and
-- the server's time when the script runs, on which the expiry of the key counts. Keys (a digest) and traces are left out.
--
-- Mq: admin/internal/mq/message.go, consumer.go and publisher.go, admin/internal/mqhandler and
-- admin/internal/repository/operation_log.go. `handle_delivery` is handleDelivery with what the
-- client answers as inputs and its acknowledgements and republished copies as a list; Publisher has
-- the channel and its recovery. A publish without confirm may or may not leave a copy at the broker, and
-- the status of a row has the default that GORM writes for a zero. What json.Unmarshal makes of a body is an input.
--
-- Scanner: web3/internal/service/scanner.go with web3/internal/repository/scanner.go, transaction.go
-- and wallet.go. `World` is the state of the database, and for each statement to come it says whether
-- the statement fails; `Node` is what the chain's node answers. `scan_chain_once` is ScanChainOnce,
-- `scan_block` is scanBlock, and so on under the source's names. The loop runs on the room left in
-- the batch, of which it uses one for each block, so the bound is the source's own. Hashes,
-- addresses and UUIDs are numbers. Written says what a row shows that a scan writes; an event index 0
-- is stored as the column's default, -1. The polling loop, the RPC failover, times and payloads are left
-- out.
--
-- Wallets: web3/internal/repository/wallet.go. A transaction that the database refuses leaves the
-- table as it was, and the lock on the owner makes the transactions of a user sequential.
-- Usage: web3/internal/repository/usage.go, the rows of one UTC day.
--
-- Binding: web3/internal/service/wallet.go over web3/internal/wallet/nonce.go and signature.go
-- and the transactions of Wallets. `bind_wallet` is BindWallet, `consume` is Consume. The address that
-- a signature belongs to and the normal form of an address are arguments, and so is each refusal of
-- the database and of Redis. Addresses in normal form, texts and ids are numbers.
-- Approvals: web3/internal/service/approval.go. Enumerate, Verify, Check and Serve follow enumerate,
-- verifyAllowances, check and CheckTronUSDTApprovals; what TRONSCAN and TronGrid answer is an
-- argument. The loop over pages runs on the pages that are left, the source's own bound. Serve is
-- sequential: what a request meets in the cache, and whether it waits for another one, are inputs.
-- Units: formatUnits of web3/internal/service/balance.go. The rounds for the digits of a number are
-- one more than the number, which has no more digits than that.
--
-- Sharding: user/internal/sharding/router.go and web3/internal/sharding/router.go. Wallet ids are taken
-- to be ASCII, as UUIDs are.
-- Users: user/internal/repository/user.go with user/internal/service/user.go and admin_user.go. The
-- rows of all user tables stand in one list with the names of their tables; a creation inserts a row
-- and its index row or neither, under the keys of the tables. Other calls are the creations that commit
-- between the steps of a call. Subjects and ids are texts and numbers as in the source.
-- Runtime: gateway/internal/runtimeconfig/manager.go, the loop of Run over the replies of Consul up to
-- its cancellation; what parses a configuration and builds a snapshot are arguments.
--
-- Examples has tests and each theorem at a concrete input.
--
-- Not modelled: the generated protocol code, the servers and clients around it, service discovery,
-- start-up, logs and traces, the Python service under llm, and, so far, roles, the validation of
-- configurations and the queries of transactions and balances.
pub mod Prelude
pub mod Approvals
pub mod Binding
pub mod Mq
pub mod RateLimit
pub mod Runtime
pub mod Scanner
pub mod Sharding
pub mod Snowflake
pub mod Units
pub mod Usage
pub mod Users
pub mod Wallets
pub mod Examples
