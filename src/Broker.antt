-- ===== src/Broker.antt =====
-- The Agent Access Broker, src/asr_proxy/access_broker: its records, its stores with their
-- transactions, the strict evaluation of a request, and the operations of `AccessBroker`.
pub mod Models
pub mod Store
pub mod World
pub mod Evaluate
pub mod Registry
pub mod Issue
pub mod Engine
pub mod Approve
pub mod Legacy
pub mod Spent
pub mod OneTime
