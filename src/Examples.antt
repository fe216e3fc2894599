-- ===== src/Examples.antt =====
-- The theorems at concrete inputs, with tests.
pub mod Reader
pub mod Sender
pub mod Security
pub mod Agent
pub mod Operator
pub mod Cluster
pub mod Pipeline
pub mod Platform
pub mod Copies
pub mod EntryPoint
pub mod Posts
pub mod Startup
pub mod SharedKey
