-- ===== src/Inspection.antt =====
-- The inspection core (src/asr_proxy/inspection): the messages and verdicts (Contracts), the values
-- of JSON (Json), the attestation of a request's identity (Identity), what an inspection runs in
-- (Session), the redaction of personal data (Redact), the inspections themselves (Engine), the checks
-- of messages and decoded values (Protocol) and of model requests (Llm), the engine over these (Wiring),
-- and the streams of events (Sse).
pub mod Json
pub mod Contracts
pub mod Identity
pub mod Session
pub mod Redact
pub mod Engine
pub mod Protocol
pub mod Llm
pub mod Wiring
pub mod Sse
