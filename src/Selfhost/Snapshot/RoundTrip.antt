-- ===== src/Selfhost/Snapshot/RoundTrip.antt =====
-- selfhost/snapshot.py: what the data plane reads after a publication, however the publication ends.
use ai_security_gateway.Base.{
  ℕ, suc, String, ◌≡◌, refl, ◌⊎◌, inl, inr, true, false, Option, none, some, ltb, Bool-cases, arith,
}
use text.Mathlib.TextPositions.{eq_refl}
use ai_security_gateway.Base.Result.{Result, ok, err}
use ai_security_gateway.Inspection.Json.{Json, int, str, obj, ℤ, pos, Fields, end, field, member}
use ai_security_gateway.Selfhost.Snapshot.{
  max_snapshot_bytes, Tools, PrivateKey, PublicKey, Directory, Snapshot,
}
use ai_security_gateway.Selfhost.Snapshot.Publish.{
  Writes, both_written, history_failed, current_failed, PublishError, latest, is_text, same_policy,
  current_payload, unchanged, new_payload, new_envelope, written, publish_new, publish_changed,
  publish_valid, publish,
}
use ai_security_gateway.Selfhost.Snapshot.Read.{
  Opened, missing, opened, envelope_of, is_format, revision_of, content, read_raw, read,
}

-- What the round trip needs of the code that is called: decoding gives what was encoded with its
-- members sorted, at every depth; the encoding does not depend on their order; a validated model reads
-- its own dump; base64 decodes an encoded signature; and the public key verifies the private key's signature.
pub record Laws {Raw Deployment Policy : Type 0} (tools : Tools Raw Deployment Policy)
    (key : PrivateKey Raw) (trusted : PublicKey Raw) : Type 0 where
  pub sorted : Fields → Fields
  pub value : Json → Json
  pub value_str : (t : String) → value (str t) ≡ str t
  pub value_int : (z : ℤ) → value (int z) ≡ int z
  pub value_obj : (fs : Fields) → value (obj fs) ≡ obj (sorted fs)
  pub member_sorted :
      (k : String) (fs : Fields) (j : Json)
      → member k fs ≡ some j
      → member k (sorted fs) ≡ some (value j)
  pub loads_canonical :
      (fs : Fields) → tools.loads (tools.canonical (obj fs)) ≡ some (obj (sorted fs))
  pub canonical_sorted :
      (fs : Fields) → tools.canonical (obj (sorted fs)) ≡ tools.canonical (obj fs)
  pub deployment_dump :
      (d : Deployment) → tools.deployment_of (value (tools.dump_deployment d)) ≡ some d
  pub policy_dump : (p : Policy) → tools.policy_of (value (tools.dump_policy p)) ≡ some p
  pub base64 :
      (r : Raw) → tools.decode_base64 (tools.encode_base64 (key.sign r)) ≡ some (key.sign r)
  pub verify_sign : (r : Raw) → trusted.verify (key.sign r) r ≡ true

module _ {Raw Deployment Policy : Type 0} (tools : Tools Raw Deployment Policy)
    (key : PrivateKey Raw) (trusted : PublicKey Raw) (laws : Laws tools key trusted) where
  -- The members of a new payload, and the snapshot that they are read as.
  abbrev fields_of : Deployment → Json → String → ℕ → Fields
  fields_of deployment policy created_at revision =
      field "connection_digest" (str (tools.connection_digest deployment)) (
        field "created_at" (str created_at) (
          field "deployment" (tools.dump_deployment deployment) (
            field "format" (int (pos 1)) (
              field "key_id" (str key.key_id)
                (field "policy" policy (field "revision" (int (pos revision)) end))))))

  abbrev pub published : Deployment → Policy → String → ℕ → Snapshot Deployment
  published deployment policy created_at revision = record {
    revision = revision;
    connection_digest = tools.connection_digest deployment;
    deployment = deployment;
    policy = tools.dump_policy policy;
    created_at = created_at;
    key_id = trusted.key_id;
  }

  content-published :
      (d : Deployment) (p : Policy) (t : String) (n : ℕ)
      → content tools trusted (laws.sorted (fields_of d (tools.dump_policy p) t (suc n)))
        ≡ ok (published d p t (suc n))
  unfolding content member revision_of
  content-published d p t n =
      let fs = fields_of d (tools.dump_policy p) t (suc n) in
      ground (
        arith,
        laws.member_sorted "deployment" fs (tools.dump_deployment d) refl,
        laws.deployment_dump d,
        laws.member_sorted "policy" fs (tools.dump_policy p) refl,
        laws.policy_dump p,
        laws.member_sorted "revision" fs (int (pos (suc n))) refl,
        laws.value_int (pos (suc n)),
        laws.member_sorted "connection_digest" fs (str (tools.connection_digest d)) refl,
        laws.value_str (tools.connection_digest d),
        eq_refl (tools.connection_digest d),
        laws.member_sorted "created_at" fs (str t) refl,
        laws.value_str t,
      )

  envelope_of-new_envelope :
      (fs : Fields)
      → envelope_of tools (new_envelope tools key (obj fs))
        ≡ ok (record { payload = laws.sorted fs; signature = key.sign (tools.canonical (obj fs)) })
  unfolding envelope_of new_envelope member
  envelope_of-new_envelope fs =
      let text = tools.encode_base64 (key.sign (tools.canonical (obj fs))) in
      let parts = field "payload" (obj fs) (field "signature" (str text) end) in
      ground (
        arith,
        laws.loads_canonical parts,
        laws.member_sorted "signature" parts (str text) refl,
        laws.value_str text,
        laws.base64 (tools.canonical (obj fs)),
        laws.member_sorted "payload" parts (obj fs) refl,
        laws.value_obj fs,
      )

  read_raw-new_envelope :
      (d : Deployment) (p : Policy) (t : String) (n : ℕ)
      → let payload = new_payload tools key d (tools.dump_policy p) t (suc n) in
        ltb max_snapshot_bytes (tools.size (new_envelope tools key payload)) ≡ false
        → read_raw tools trusted (new_envelope tools key payload) ≡ ok (published d p t (suc n))
  unfolding read_raw new_payload is_format member
  read_raw-new_envelope d p t n small =
      let fs = fields_of d (tools.dump_policy p) t (suc n) in
      ground (
        arith,
        small,
        envelope_of-new_envelope fs,
        laws.canonical_sorted fs,
        laws.verify_sign (tools.canonical (obj fs)),
        laws.member_sorted "format" fs (int (pos 1)) refl,
        laws.value_int (pos 1),
        content-published d p t n,
      )

  -- The current file, opened.
  abbrev pub file : Option Raw → Opened Raw
  file none = missing
  file (some raw) = opened raw

  -- The deployment and the validated policy are what the current file has already, under a number.
  abbrev pub IsCurrent : Deployment → Policy → Directory Raw → Json → Type 0
  IsCurrent deployment p d r =
      (fs : Fields) × (current_payload tools d.current ≡ some (obj fs))
      × (same_policy tools (tools.dump_policy p) (member "policy" fs) ≡ true)
      × (is_text (tools.connection_digest deployment) (member "connection_digest" fs) ≡ true)
      × (member "revision" fs ≡ some r)

  -- What a publication in a directory leaves for the data plane.
  abbrev pub Outcome :
      Deployment → Json → String → Directory Raw → Result PublishError Json × Directory Raw → Type 0
  Outcome deployment policy t d (err e, d') = d'.current ≡ d.current
  Outcome deployment policy t d (ok r, d') =
      ((d' ≡ d) × ((p : Policy) × (tools.policy_of policy ≡ some p) × IsCurrent deployment p d r))
      ⊎ ((p : Policy) × (tools.policy_of policy ≡ some p)
          × (r ≡ int (pos (suc (latest d.history))))
          × (read tools (some trusted) (file d'.current)
              ≡ ok (published deployment p t (suc (latest d.history)))))

  written-Outcome :
      (writes : Writes) (t : String) (deployment : Deployment) (policy : Json) (p : Policy)
      (d : Directory Raw) (envelope : Raw)
      → tools.policy_of policy ≡ some p
      → read_raw tools trusted envelope ≡ ok (published deployment p t (suc (latest d.history)))
      → Outcome deployment policy t d (written tools writes (suc (latest d.history)) envelope d)
  unfolding written read
  written-Outcome history_failed t deployment policy p d envelope valid e = refl
  written-Outcome current_failed t deployment policy p d envelope valid e = refl
  written-Outcome both_written t deployment policy p d envelope valid e = inr (p, valid, refl, e)

  publish_new-Outcome :
      (writes : Writes) (t : String) (deployment : Deployment) (policy : Json) (p : Policy)
      (d : Directory Raw)
      → tools.policy_of policy ≡ some p
      → Outcome deployment policy t d
          (publish_new tools key writes t deployment (tools.dump_policy p) d)
  unfolding publish_new written read
  publish_new-Outcome writes t deployment policy p d valid =
      let n = latest d.history in
      let envelope =
        new_envelope tools key (new_payload tools key deployment (tools.dump_policy p) t (suc n)) in
      elim (Bool-cases (ltb max_snapshot_bytes (tools.size envelope))) [
        | inl large ↦ rw large refl
        | inr small ↦ rw small (
            written-Outcome writes t deployment policy p d envelope valid
              (read_raw-new_envelope deployment p t n small))
      ]

  unchanged-IsCurrent :
      (deployment : Deployment) (policy r : Json) (payload : Option Json)
      → unchanged tools (tools.connection_digest deployment) policy payload ≡ ok (some r)
      → (fs : Fields) × (payload ≡ some (obj fs))
        × (same_policy tools policy (member "policy" fs) ≡ true)
        × (is_text (tools.connection_digest deployment) (member "connection_digest" fs) ≡ true)
        × (member "revision" fs ≡ some r)
  unfolding unchanged
  unchanged-IsCurrent deployment policy r payload h = ground arith

  publish_changed-Outcome :
      (before : Result PublishError (Option Json)) (writes : Writes) (t : String)
      (deployment : Deployment) (policy : Json) (p : Policy) (d : Directory Raw)
      → tools.policy_of policy ≡ some p
      → unchanged tools
          (tools.connection_digest deployment)
          (tools.dump_policy p)
          (current_payload tools d.current)
        ≡ before
      → Outcome deployment policy t d
          (publish_changed tools before key writes t deployment (tools.dump_policy p) d)
  unfolding publish_changed
  publish_changed-Outcome (err e) writes t deployment policy p d valid h = refl
  publish_changed-Outcome (ok none) writes t deployment policy p d valid h =
      publish_new-Outcome writes t deployment policy p d valid
  publish_changed-Outcome (ok (some r)) writes t deployment policy p d valid h = inl (
    refl,
    (
      p,
      valid,
      unchanged-IsCurrent deployment (tools.dump_policy p) r (current_payload tools d.current) h,
    ),
  )

  publish_valid-Outcome :
      (o : Option Policy) (writes : Writes) (t : String) (deployment : Deployment) (policy : Json)
      (d : Directory Raw)
      → tools.policy_of policy ≡ o
      → Outcome deployment policy t d (publish_valid tools o key writes t deployment d)
  unfolding publish_valid
  publish_valid-Outcome none writes t deployment policy d h = refl
  publish_valid-Outcome (some p) writes t deployment policy d h =
      publish_changed-Outcome _ writes t deployment policy p d h refl

  -- However a publication ends, the data plane reads a whole snapshot: where publish raises, the current
  -- file is as before; where it returns, the current file has the deployment's digest and a policy equal to the
  -- validated one, under that number, and the directory is as before, or the loader with the trusted key reads exactly the deployment and the
  -- validated policy, under the number after the last of the history.
  pub publish-Outcome :
      (writes : Writes) (t : String) (deployment : Deployment) (policy : Json) (d : Directory Raw)
      → Outcome deployment policy t d (publish tools key writes t deployment policy d)
  unfolding publish
  publish-Outcome writes t deployment policy d =
      publish_valid-Outcome (tools.policy_of policy) writes t deployment policy d refl
