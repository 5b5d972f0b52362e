-- ===== src/Tests.antt =====
-- Concrete runs: the program's own scenarios, and an instance of each theorem.
pub mod Books
pub mod Memory
pub mod Accounts
pub mod Codec
pub mod Gateways
pub mod Strategies
pub mod Systems
