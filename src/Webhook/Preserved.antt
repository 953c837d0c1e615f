-- ===== src/Webhook/Preserved.antt =====
-- What the calls that read secrets, or make one in a dry run, keep of the world.
use kube_image_keeper.Prelude.{
  ℕ, false, List, [], ◌∷◌, Option, none, some, is_some, Bool-cases, inl, inr,
}
use kube_image_keeper.Text.{Text, text_eq}
use kube_image_keeper.Errors.{Result, ok, err, is_not_found}
use kube_image_keeper.Effects.{Eff, pure, ◌>>=◌}
use kube_image_keeper.Effects.Laws.{Preserves, >>=-Preserves, attempt-Preserves}
use kube_image_keeper.Resources.{CredentialSecret}
use kube_image_keeper.Webhook.Alternatives.{SecretOwner, Secret, AlternativeImage}
use kube_image_keeper.Webhook.Rewrite.{
  Cluster, CachedAlternativeImage, load_secret, load_alternatives_secrets, with_secret,
  pod_pull_secrets, ensure_secret,
}

-- Every call but the write of a secret keeps this of the world.
pub record ReadsKeep {W : Type 0} (cluster : Cluster W) (I : W → Type 0) : Type 0 where
  pub list_cisms : Preserves I cluster.list_cluster_image_set_mirrors
  pub list_isms : (ns : Text) → Preserves I (cluster.list_image_set_mirrors ns)
  pub list_criss : Preserves I cluster.list_cluster_replicated_image_sets
  pub list_riss : (ns : Text) → Preserves I (cluster.list_replicated_image_sets ns)
  pub get_secret : (ns name : Text) → Preserves I (cluster.get_secret ns name)
  pub get_cached : (r : Text) (w : W) → I w → I (cluster.get_cached r w).1
  pub set_cached :
      (r : Text) (c : CachedAlternativeImage) (w : W) → I w → I (cluster.set_cached r c w)
  pub run_checks : (n : ℕ) (w : W) → I w → I (cluster.run_checks n w).1

module _ {W : Type 0} (cluster : Cluster W) (I : W → Type 0) (reads : ReadsKeep cluster I) where
  load_secret-Preserves :
      (image : AlternativeImage) (c : Option CredentialSecret)
      → Preserves I (load_secret cluster image c)
  unfolding load_secret
  load_secret-Preserves image none w i = i
  load_secret-Preserves image (some s) w i = elim (Bool-cases (is_some image.image_pull_secret)) [
    | inl k ↦ rw k i
    | inr k ↦ rw k (
        >>=-Preserves I (cluster.get_secret s.namespace s.name)
          (λ secret. pure (record image { image_pull_secret = some secret }))
          (reads.get_secret s.namespace s.name) (λ secret w i. i) w i)
  ]

  pub load-Preserves :
      (images : List AlternativeImage) → Preserves I (load_alternatives_secrets cluster images)
  unfolding load_alternatives_secrets
  load-Preserves [] = λ w i. i
  load-Preserves (image ∷ images) =
      >>=-Preserves I (load_secret cluster image image.credential_secret)
        (λ loaded. load_alternatives_secrets cluster images >>= λ rest. pure (loaded ∷ rest))
        (load_secret-Preserves image image.credential_secret)
        (λ loaded.
          >>=-Preserves I (load_alternatives_secrets cluster images) (λ rest. pure (loaded ∷ rest))
            (load-Preserves images) (λ rest w i. i))

  with_secret-Preserves :
      (rest : Eff W (List Secret)) (r : Result Secret)
      → Preserves I rest
      → Preserves I (with_secret cluster rest r)
  unfolding with_secret
  with_secret-Preserves rest (ok secret) h =
      >>=-Preserves I rest (λ secrets. pure (secret ∷ secrets)) h (λ secrets w i. i)
  with_secret-Preserves rest (err e) h = elim (Bool-cases (is_not_found e)) [
    | inl q ↦ rw q h
    | inr q ↦ rw q (λ w i. i)
  ]

  pub pull_secrets-Preserves :
      (ns : Text) (names : List Text) → Preserves I (pod_pull_secrets cluster ns names)
  unfolding pod_pull_secrets
  pull_secrets-Preserves ns [] = λ w i. i
  pull_secrets-Preserves ns (name ∷ names) =
      attempt-Preserves I (cluster.get_secret ns name)
        (with_secret cluster (pod_pull_secrets cluster ns names)) (reads.get_secret ns name)
        (λ r.
          with_secret-Preserves (pod_pull_secrets cluster ns names) r
            (pull_secrets-Preserves ns names))

  pub ensure_secret-Preserves :
      (hash : Text → Text) (ns : Text) (s : Secret) (owner : Option SecretOwner)
      → Preserves I (ensure_secret cluster hash ns s owner false)
  unfolding ensure_secret
  ensure_secret-Preserves hash ns s none w i = i
  ensure_secret-Preserves hash ns s (some owner) w i = elim (Bool-cases (text_eq ns s.namespace)) [
    | inl q ↦ rw q i
    | inr q ↦ rw q i
  ]
