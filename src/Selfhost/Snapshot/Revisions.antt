-- ===== src/Selfhost/Snapshot/Revisions.antt =====
-- selfhost/snapshot.py: the history over any publications.
use ai_security_gateway.Base.{
  ℕ, suc, ◌≤◌, String, ◌≡◌, refl, ◌∙◌, Option, none, some, List, [], ◌∷◌, ltb, ◌==◌, arith,
  Bool-cases, inl, inr, ap, ◌⊎◌, if◌then◌else◌,
}
use ai_security_gateway.Base.Result.{Result, ok, err}
use ai_security_gateway.Inspection.Json.{Json}
use ai_security_gateway.Selfhost.Snapshot.{max_snapshot_bytes, Tools, PrivateKey, Directory}
use ai_security_gateway.Selfhost.Snapshot.Publish.{
  Writes, both_written, history_failed, current_failed, PublishError, latest, with_file,
  new_payload, new_envelope, written, publish_new, publish_changed, publish_valid, publish,
}

-- The file of a number.
unfoldable pub file_at {ℓ} : {Raw : Type ℓ} → ℕ → List (ℕ × Raw) → Option Raw
file_at n [] = none
file_at n ((m, raw) ∷ fs) = if m == n then some raw else file_at n fs

file_at-le-latest :
    {Raw : Type 0} (n : ℕ) (h : List (ℕ × Raw)) (raw : Raw) → file_at n h ≡ some raw → n ≤ latest h
unfolding file_at latest
file_at-le-latest n [] raw e = ground arith
file_at-le-latest n ((m, old) ∷ fs) raw e = ground (arith, file_at-le-latest n fs raw)

file_at-with_file :
    {Raw : Type 0} (n k : ℕ) (new : Raw) (h : List (ℕ × Raw))
    → file_at n (with_file k new h) ≡ (if k == n then some new else file_at n h)
unfolding file_at with_file
file_at-with_file n k new [] = refl
file_at-with_file n k new ((m, old) ∷ fs) = ground (arith, file_at-with_file n k new fs)

-- A file under the number after the last leaves the others.
file_at-fresh :
    {Raw : Type 0} (n : ℕ) (new raw : Raw) (h : List (ℕ × Raw))
    → file_at n h ≡ some raw
    → file_at n (with_file (suc (latest h)) new h) ≡ some raw
file_at-fresh n new raw h e =
    ground (arith, file_at-le-latest n h raw e, file_at-with_file n (suc (latest h)) new h)

-- The arguments of a publication.
pub record Publication (Deployment : Type 0) : Type 0 where
  pub writes : Writes
  pub created_at : String
  pub deployment : Deployment
  pub policy : Json

module _ {Raw Deployment Policy : Type 0} (tools : Tools Raw Deployment Policy)
    (key : PrivateKey Raw) where
  -- The history after a publication is as before, or has one file more, under the number after the last.
  abbrev Adds : Directory Raw → Result PublishError Json × Directory Raw → Type 0
  Adds d (r, d') =
      (d'.history ≡ d.history)
      ⊎ ((envelope : Raw) × (d'.history ≡ with_file (suc (latest d.history)) envelope d.history))

  written-Adds :
      (writes : Writes) (d : Directory Raw) (envelope : Raw)
      → Adds d (written tools writes (suc (latest d.history)) envelope d)
  unfolding written
  written-Adds both_written d envelope = inr (envelope, refl)
  written-Adds history_failed d envelope = inl refl
  written-Adds current_failed d envelope = inr (envelope, refl)

  publish_new-Adds :
      (writes : Writes) (t : String) (deployment : Deployment) (policy : Json) (d : Directory Raw)
      → Adds d (publish_new tools key writes t deployment policy d)
  unfolding publish_new
  publish_new-Adds writes t deployment policy d =
      let n = suc (latest d.history) in
      let envelope = new_envelope tools key (new_payload tools key deployment policy t n) in
      elim (Bool-cases (ltb max_snapshot_bytes (tools.size envelope))) [
        | inl large ↦ rw large (inl refl)
        | inr small ↦ rw small (written-Adds writes d envelope)
      ]

  publish_changed-Adds :
      (before : Result PublishError (Option Json)) (writes : Writes) (t : String)
      (deployment : Deployment) (policy : Json) (d : Directory Raw)
      → Adds d (publish_changed tools before key writes t deployment policy d)
  unfolding publish_changed
  publish_changed-Adds (err e) writes t deployment policy d = inl refl
  publish_changed-Adds (ok none) writes t deployment policy d =
      publish_new-Adds writes t deployment policy d
  publish_changed-Adds (ok (some r)) writes t deployment policy d = inl refl

  publish_valid-Adds :
      (o : Option Policy) (writes : Writes) (t : String) (deployment : Deployment)
      (d : Directory Raw)
      → Adds d (publish_valid tools o key writes t deployment d)
  unfolding publish_valid
  publish_valid-Adds none writes t deployment d = inl refl
  publish_valid-Adds (some p) writes t deployment d = publish_changed-Adds _ writes t deployment _ d

  -- Publications one after another, however each ends.
  unfoldable pub publish_all : List (Publication Deployment) → Directory Raw → Directory Raw
  publish_all [] d = d
  publish_all (p ∷ ps) d =
      publish_all ps (publish tools key p.writes p.created_at p.deployment p.policy d).1

  publish-file_at :
      (p : Publication Deployment) (d : Directory Raw) (n : ℕ) (raw : Raw)
      → file_at n d.history ≡ some raw
      → file_at n (publish tools key p.writes p.created_at p.deployment p.policy d).1.history
        ≡ some raw
  unfolding publish
  publish-file_at p d n raw e =
      elim (publish_valid-Adds (tools.policy_of p.policy) p.writes p.created_at p.deployment d) [
        | inl same ↦ ap (file_at n) same ∙ e
        | inr (envelope, added) ↦ ap (file_at n) added ∙ file_at-fresh n envelope raw d.history e
      ]

  -- No publication changes a snapshot of the history: a file that is there keeps its number and its
  -- content over any publications, however each of them ends.
  pub publish_all-file_at :
      (ps : List (Publication Deployment)) (d : Directory Raw) (n : ℕ) (raw : Raw)
      → file_at n d.history ≡ some raw
      → file_at n (publish_all ps d).history ≡ some raw
  unfolding publish_all
  publish_all-file_at [] d n raw e = e
  publish_all-file_at (p ∷ ps) d n raw e =
      publish_all-file_at ps (publish tools key p.writes p.created_at p.deployment p.policy d).1 n
        raw (publish-file_at p d n raw e)
