-- ===== src/Selfhost.antt =====
-- The self-hosted gateway (src/asr_proxy/selfhost): the agents' credentials (AgentCredentials), the
-- supervision of the inspection processes (InspectorPool) and of the two planes (Supervisor), the
-- evidence (Spool), the callers' sign-in (SignIn), the target's credentials (Credentials), the signed
-- policies (Snapshot) and the timings (Latency).
pub mod AgentCredentials
pub mod InspectorPool
pub mod Supervisor
pub mod Spool
pub mod SignIn
pub mod Credentials
pub mod Snapshot
pub mod Latency
