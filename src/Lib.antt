-- ===== src/Lib.antt =====
-- A verification of the core of TrapDefense, a security gateway for AI agents: the access broker
-- that authorizes what agents do, the inspection that every request and response passes, and the
-- credentials of the self-hosted gateway.
--
-- The gateway puts an inspection in front of tools and models. A request comes with an attestation
-- of its identity, signed by a trusted hop. The inspection checks the message, finds and redacts
-- personal data, verifies the attestation and consumes its nonce, and asks the broker. The broker
-- evaluates the request against its agents, delegations and approvals, opens an approval for a
-- high-risk action, uses an approval once, issues a token, and keeps an audit trail. The paths
-- below stand under src/asr_proxy of the repository.
--
-- - Base: what the modules share. Boolean tests, lists and texts over the native numbers,
--   dictionaries in insertion order (Base.Dict), results (Base.Result), methods that change a
--   state and may raise (Base.Exec), with the rules for what they preserve (Base.Exec.Preserves)
--   and for the runs of their parts (Base.Exec.Runs).
-- - Broker: access_broker/. Models has the records of models.py. Store and Store.Snapshot have the
--   store and its dump of store.py, World the file store with its transactions; a write of the
--   snapshot file may fail before or after the file is replaced. Evaluate has `_evaluate_strict`,
--   Issue the tokens and decisions, Registry `register_agent` and `create_delegation`, Engine
--   `evaluate` and `authorize`, with what is on disk after it (Engine.Durable), Approve `approve` and `deny`, Legacy `decide` for requests without
--   a digest. Spent and OneTime follow an approval through runs of operations. Most
--   results on the operations are on a store in memory or inside a transaction, which can not fail on
--   their reads and writes; World.Transactions and Engine.Durable have the failures of a file store.
-- - Inspection: inspection/. Contracts has the rules, messages, verdicts and evidence of
--   contracts.py, Json the decoded values, Identity the attestation, its signing and its nonces of
--   identity.py. Session has what an inspection of engine.py runs in, Redact its `_mask` and
--   `_redact_json`, Engine.Prepare the checks before the attestation, Engine.Request the request
--   to the broker, Engine `inspect_request` and `_inspect_unmapped_mirror`, Engine.Response
--   `inspect_response`. Protocol has the limits of decoded values, the checks of messages and the
--   routes of protocol.py, and its children the pointers, the headers, the meaning of requests and
--   the addresses that they may name. Llm has llm.py. Wiring puts these in the places where the
--   engine calls them. Sse has `_redact_sse`: Lines and Stream read the events and decide whether
--   the stream is complete and of one protocol, Reader is the loop, Collect and Lanes gather the
--   texts that several events share, Edits and Mask change them, and Redacted encodes the events
--   again.
-- - Selfhost: selfhost/. AgentCredentials has agent_credentials.py, InspectorPool the supervision
--   of the inspection processes of inspector_pool.py, Supervisor the loop over the two planes of
--   supervisor.py, Spool the evidence spool of spool.py, SignIn the callers' authentication of
--   auth.py, Credentials the target's of credentials.py, Snapshot the signed policies of
--   snapshot.py, from the publisher (Publish) to the loader (Read), Latency the timings of
--   latency.py.
-- - Console: console/. Store has the console's database of store.py.
-- - Tests: the theorems at concrete inputs.
--
-- An instant is a number of microseconds with a flag for the time zone; the clock, the random
-- identifiers, the hashes and the file format are parameters, and each reading of the clock has a
-- number of its own. A call of an operation is one step: the locks of the code serialise the calls
-- of a process. Every loop of the models is structural recursion, so none takes fuel.
--
-- Not modelled: the scanners (pii.py, secret_detection.py, signatures.py), which are parameters of
-- the inspection; the validation of config.py, whose results the models take as records; the servers,
-- the pool of inspection/pool.py and the rest of the console, which put these parts together with
-- network, process and file I/O.
pub mod Base
pub mod Broker
pub mod Console
pub mod Inspection
pub mod Selfhost
pub mod Tests
