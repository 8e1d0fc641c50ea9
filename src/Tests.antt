-- ===== src/Tests.antt =====
-- Concrete inputs: runs of the model, and the theorems at inputs that meet their conditions.
mod BrokerData
mod Broker
mod InspectionData
mod Inspection
mod Selfhost
mod ProtocolData
mod Protocol
mod Console
mod Spool
mod SignIn
mod Snapshot
mod Sse
mod Identity
mod Latency
mod Evidence
