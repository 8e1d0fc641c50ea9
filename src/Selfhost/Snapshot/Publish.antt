-- ===== src/Selfhost/Snapshot/Publish.antt =====
-- selfhost/snapshot.py: `SnapshotPublisher.publish`, which writes the history first and the current file
-- last.
use ai_security_gateway.Base.{
  ℕ, suc, String, Bool, true, false, ◌&&◌, not, Option, none, some, List, [], ◌∷◌, ltb, ◌==◌,
  str_eq, is_set, if◌then◌else◌,
}
use ai_security_gateway.Base.Result.{Result, ok, err}
use ai_security_gateway.Inspection.Json.{
  Json, null, bool, int, float, str, arr, obj, pos, negsuc, nil, cons, end, field, member,
}
use ai_security_gateway.Selfhost.Snapshot.{
  format_version, max_snapshot_bytes, Tools, PrivateKey, Directory,
}

-- Why `publish` raises: the policy's validation, a current payload that is no dict or has no revision,
-- the size, or the file system.
pub data PublishError : Type 0 where
  invalid_policy broken_current too_large os_error : PublishError

-- How the two writes end.
pub data Writes : Type 0 where
  both_written history_failed current_failed : Writes

-- `_latest`
unfoldable pub latest {ℓ} : {Raw : Type ℓ} → List (ℕ × Raw) → ℕ
latest [] = 0
latest ((n, raw) ∷ fs) = let m = latest fs in if ltb m n then n else m

-- The writing of a file of the history, in place of one of its number.
unfoldable pub with_file {ℓ} : {Raw : Type ℓ} → ℕ → Raw → List (ℕ × Raw) → List (ℕ × Raw)
with_file n raw [] = (n, raw) ∷ []
with_file n raw ((m, old) ∷ fs) = if m == n then (n, raw) ∷ fs else (m, old) ∷ with_file n raw fs

abbrev pub payload_in : Option Json → Option Json
payload_in (some (obj fs)) = member "payload" fs
payload_in _ = none

abbrev pub is_text : String → Option Json → Bool
is_text s (some (str t)) = str_eq t s
is_text s _ = false

module _ {Raw Deployment Policy : Type 0} (tools : Tools Raw Deployment Policy) where
  -- `_current_payload`
  unfoldable pub current_payload : Option Raw → Option Json
  current_payload none = none
  current_payload (some raw) = payload_in (tools.loads raw)

  -- The truth value of a decoded value.
  unfoldable pub is_true : Json → Bool
  is_true null = false
  is_true (bool b) = b
  is_true (int (pos n)) = not (n == 0)
  is_true (int (negsuc n)) = true
  is_true (float t) = not (tools.float_is t 0)
  is_true (str t) = is_set t
  is_true (arr nil) = false
  is_true (arr (cons j js)) = true
  is_true (obj end) = false
  is_true (obj (field k j fs)) = true

  abbrev pub same_policy : Json → Option Json → Bool
  same_policy policy none = false
  same_policy policy (some j) = tools.same j policy

  -- The revision of the current payload, where its content is the one to publish.
  unfoldable pub unchanged : String → Json → Option Json → Result PublishError (Option Json)
  unchanged digest policy none = ok none
  unchanged digest policy (some (obj end)) = ok none
  unchanged digest policy (some (obj (field k j fs))) =
      let payload = field k j fs in
      if is_text digest (member "connection_digest" payload)
        && same_policy policy (member "policy" payload)
      then elim (member "revision" payload) [ none ↦ err broken_current | some r ↦ ok (some r) ]
      else ok none
  unchanged digest policy (some j) = if is_true j then err broken_current else ok none

  -- The payload and the envelope, their members in the canonical order.
  unfoldable pub new_payload : PrivateKey Raw → Deployment → Json → String → ℕ → Json
  new_payload key deployment policy created_at revision = obj (
      field "connection_digest" (str (tools.connection_digest deployment)) (
        field "created_at" (str created_at) (
          field "deployment" (tools.dump_deployment deployment) (
            field "format" (int (pos format_version)) (
              field "key_id" (str key.key_id)
                (field "policy" policy (field "revision" (int (pos revision)) end)))))))

  unfoldable pub new_envelope : PrivateKey Raw → Json → Raw
  new_envelope key payload =
      let signature = tools.encode_base64 (key.sign (tools.canonical payload)) in
      tools.canonical (obj (field "payload" payload (field "signature" (str signature) end)))

  unfoldable pub written :
      Writes → ℕ → Raw → Directory Raw → Result PublishError Json × Directory Raw
  written history_failed revision envelope d = (err os_error, d)
  written current_failed revision envelope d =
      (err os_error, record d { history = with_file revision envelope d.history })
  written both_written revision envelope d = (
    ok (int (pos revision)),
    record { current = some envelope; history = with_file revision envelope d.history },
  )

  unfoldable pub publish_new :
      PrivateKey Raw
      → Writes
      → String
      → Deployment
      → Json
      → Directory Raw
      → Result PublishError Json × Directory Raw
  publish_new key writes created_at deployment policy d =
      let revision = suc (latest d.history) in
      let envelope = new_envelope key (new_payload key deployment policy created_at revision) in
      if ltb max_snapshot_bytes (tools.size envelope)
      then (err too_large, d)
      else written writes revision envelope d

  -- With what the comparison with the current payload gives.
  unfoldable pub publish_changed :
      Result PublishError (Option Json)
      → PrivateKey Raw
      → Writes
      → String
      → Deployment
      → Json
      → Directory Raw
      → Result PublishError Json × Directory Raw
  publish_changed (err e) key writes created_at deployment policy d = (err e, d)
  publish_changed (ok (some revision)) key writes created_at deployment policy d = (ok revision, d)
  publish_changed (ok none) key writes created_at deployment policy d =
      publish_new key writes created_at deployment policy d

  -- With what the validation of the policy gives.
  unfoldable pub publish_valid :
      Option Policy
      → PrivateKey Raw
      → Writes
      → String
      → Deployment
      → Directory Raw
      → Result PublishError Json × Directory Raw
  publish_valid none key writes created_at deployment d = (err invalid_policy, d)
  publish_valid (some p) key writes created_at deployment d =
      let policy = tools.dump_policy p in
      publish_changed
        (unchanged (tools.connection_digest deployment) policy (current_payload d.current)) key
        writes created_at deployment policy d

  -- `publish`
  unfoldable pub publish :
      PrivateKey Raw
      → Writes
      → String
      → Deployment
      → Json
      → Directory Raw
      → Result PublishError Json × Directory Raw
  publish key writes created_at deployment policy d =
      publish_valid (tools.policy_of policy) key writes created_at deployment d
