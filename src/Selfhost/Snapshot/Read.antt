-- ===== src/Selfhost/Snapshot/Read.antt =====
-- selfhost/snapshot.py: `SnapshotLoader.read`.
use ai_security_gateway.Base.{
  ℕ, String, Bool, false, not, Option, none, some, ltb, ◌==◌, if◌then◌else◌,
}
use ai_security_gateway.Base.Result.{Result, ok, err, ◌>>=◌, ◌>>◌, require}
use ai_security_gateway.Inspection.Json.{Json, bool, int, float, str, obj, pos, Fields, member}
use ai_security_gateway.Selfhost.Snapshot.{
  format_version, max_snapshot_bytes, Tools, PublicKey, Snapshot, SnapshotError,
  policy_trust_key_unavailable, policy_snapshot_missing, policy_snapshot_unreadable,
  policy_snapshot_too_large, policy_snapshot_malformed, policy_snapshot_signature_invalid,
  policy_snapshot_format_unsupported, policy_snapshot_invalid,
}
use ai_security_gateway.Selfhost.Snapshot.Publish.{is_text}

-- What opening the current file gives.
pub data Opened (Raw : Type 0) : Type 0 where
  missing unreadable : Opened Raw
  opened : Raw → Opened Raw

-- The envelope: a dict with a payload and a text as signature; and the payload, a dict.
pub record Envelope (Raw : Type 0) : Type 0 where
  pub payload : Fields
  pub signature : Raw

abbrev pub or_raise : {A : Type 0} → SnapshotError → Option A → Result SnapshotError A
or_raise e none = err e
or_raise e (some a) = ok a

abbrev pub as_fields : Option Json → Option Fields
as_fields (some (obj fs)) = some fs
as_fields _ = none

abbrev pub as_text : Option Json → Option String
as_text (some (str t)) = some t
as_text _ = none

module _ {Raw Deployment Policy : Type 0} (tools : Tools Raw Deployment Policy) where
  unfoldable pub envelope_of : Raw → Result SnapshotError (Envelope Raw)
  envelope_of raw = do
    fs ← or_raise policy_snapshot_malformed (as_fields (tools.loads raw))
    text ← or_raise policy_snapshot_malformed (as_text (member "signature" fs))
    signature ← or_raise policy_snapshot_malformed (tools.decode_base64 text)
    payload ← or_raise policy_snapshot_malformed (as_fields (member "payload" fs))
    ok (record { payload = payload; signature = signature })

  -- `payload.get("format") == FORMAT`, which the true Boolean and a float of its value meet too.
  unfoldable pub is_format : Option Json → Bool
  is_format (some (int (pos n))) = n == format_version
  is_format (some (bool b)) = b
  is_format (some (float t)) = tools.float_is t format_version
  is_format _ = false

  -- `isinstance(revision, int) and revision >= 1`; the true Boolean is the integer 1.
  unfoldable pub revision_of : Option Json → Option ℕ
  revision_of (some (int (pos n))) = if n == 0 then none else some n
  revision_of (some (bool b)) = if b then some 1 else none
  revision_of _ = none

  -- `str(payload.get("created_at", ""))`
  abbrev pub created_in : Option Json → String
  created_in none = ""
  created_in (some (str t)) = t
  created_in (some j) = tools.str_of j

  abbrev pub validated : {A : Type 0} → (Json → Option A) → Option Json → Result SnapshotError A
  validated validate none = err policy_snapshot_invalid
  validated validate (some j) = or_raise policy_snapshot_invalid (validate j)

  -- The content of a payload whose signature is the key's.
  unfoldable pub content : PublicKey Raw → Fields → Result SnapshotError (Snapshot Deployment)
  content key payload = do
    deployment ← validated tools.deployment_of (member "deployment" payload)
    policy ← validated tools.policy_of (member "policy" payload)
    revision ← or_raise policy_snapshot_invalid (revision_of (member "revision" payload))
    require (is_text (tools.connection_digest deployment) (member "connection_digest" payload))
        policy_snapshot_invalid
    ok (record {
      revision = revision;
      connection_digest = tools.connection_digest deployment;
      deployment = deployment;
      policy = tools.dump_policy policy;
      created_at = created_in (member "created_at" payload);
      key_id = key.key_id;
    })

  unfoldable pub read_raw : PublicKey Raw → Raw → Result SnapshotError (Snapshot Deployment)
  read_raw key raw = do
    require (not (ltb max_snapshot_bytes (tools.size raw))) policy_snapshot_too_large
    e ← envelope_of raw
    require (key.verify e.signature (tools.canonical (obj e.payload)))
        policy_snapshot_signature_invalid
    require (is_format (member "format" e.payload)) policy_snapshot_format_unsupported
    content key e.payload

  -- `read`, with what loading the public key and opening the file give.
  unfoldable pub read :
      Option (PublicKey Raw) → Opened Raw → Result SnapshotError (Snapshot Deployment)
  read none file = err policy_trust_key_unavailable
  read (some key) missing = err policy_snapshot_missing
  read (some key) unreadable = err policy_snapshot_unreadable
  read (some key) (opened raw) = read_raw key raw
