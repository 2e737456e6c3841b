-- ===== src/Examples.antt =====
-- Tests of the definitions on concrete inputs, and each theorem at inputs that meet its hypotheses.
pub mod RateLimit
pub mod Mq
pub mod Scanner
pub mod Sharding
pub mod Runtime
pub mod Snowflake
pub mod Wallets
pub mod Approvals
pub mod Units
pub mod Binding
pub mod Users
