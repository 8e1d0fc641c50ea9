-- ===== src/Selfhost/Snapshot.antt =====
-- selfhost/snapshot.py: the signed policy snapshots, from the control plane's publisher to the data
-- plane's loader. A file's bytes are a parameter type with their number; the coding of JSON and base64,
-- the signature, the digest and the models that validate a deployment and a policy are functions on it.
pub mod Publish
pub mod Read
pub mod RoundTrip
pub mod Revisions
use ai_security_gateway.Base.{
  ℕ, suc, String, Bool, true, false, Option, none, some, List, [], ◌∷◌, ltb, ◌==◌, if◌then◌else◌,
}
use ai_security_gateway.Inspection.Json.{Json}

-- `FORMAT` and `MAX_SNAPSHOT_BYTES`
abbrev pub format_version : ℕ
format_version = 1

abbrev pub max_snapshot_bytes : ℕ
max_snapshot_bytes = 4194304

-- What the code calls: `json.loads`, `canonical`, base64 with its `validate=True`, `==` on decoded
-- values and of a float with an integer, `str`, `len`, `connection_digest`, and `Deployment` and `Policy`.
pub record Tools (Raw Deployment Policy : Type 0) : Type 0 where
  pub loads : Raw → Option Json
  pub canonical : Json → Raw
  pub size : Raw → ℕ
  pub encode_base64 : Raw → String
  pub decode_base64 : String → Option Raw
  pub same : Json → Json → Bool
  pub float_is : String → ℕ → Bool
  pub str_of : Json → String
  pub connection_digest : Deployment → String
  pub dump_deployment : Deployment → Json
  pub deployment_of : Json → Option Deployment
  pub dump_policy : Policy → Json
  pub policy_of : Json → Option Policy

-- The two halves of the key.
pub record PrivateKey (Raw : Type 0) : Type 0 where
  pub sign : Raw → Raw
  pub key_id : String

pub record PublicKey (Raw : Type 0) : Type 0 where
  pub verify : Raw → Raw → Bool
  pub key_id : String

-- The directory: `current.json`, where it is there, and the files of the history by their numbers.
pub record Directory (Raw : Type 0) : Type 0 where
  pub current : Option Raw
  pub history : List (ℕ × Raw)

-- `SnapshotError`, by its reason code
pub data SnapshotError : Type 0 where
  policy_trust_key_unavailable policy_snapshot_missing policy_snapshot_unreadable : SnapshotError
  policy_snapshot_too_large policy_snapshot_malformed policy_snapshot_signature_invalid :
      SnapshotError
  policy_snapshot_format_unsupported policy_snapshot_invalid : SnapshotError

-- `Snapshot`
pub record Snapshot (Deployment : Type 0) : Type 0 where
  pub revision : ℕ
  pub connection_digest : String
  pub deployment : Deployment
  pub policy : Json
  pub created_at : String
  pub key_id : String
