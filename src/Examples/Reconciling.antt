-- ===== src/Examples/Reconciling.antt =====
-- The theorems on the reconcilers and the registry client at concrete inputs.
use kube_image_keeper.Prelude.{◌≡◌, refl, ◌⊎◌, ℕ, true, false, List, [], ◌∷◌, none, some, All}
use kube_image_keeper.Prelude.Int.{pos}
use kube_image_keeper.Text.{codes}
use kube_image_keeper.Pods.{lookup}
use kube_image_keeper.Resources.{Mirror, MatchingImage, get_credential_secret_for_image}
use kube_image_keeper.Resources.Prefixes.{
  AtMost, IsLongest, get_credential_secret_for_image-IsLongest,
}
use kube_image_keeper.Mirroring.Merge.{merge_previous_and_current_matching_images}
use kube_image_keeper.Mirroring.Remembered.{
  IsRemembered, merge_previous_and_current_matching_images-IsRemembered,
}
use kube_image_keeper.Mirroring.Loops.{Progress, clean_images}
use kube_image_keeper.Mirroring.Retention.{Accounted, clean_images-Accounted}
use kube_image_keeper.Registry.Client.{head}
use kube_image_keeper.Registry.Probe.{check_image_availability}
use kube_image_keeper.Registry.Verdicts.{Explained, check_image_availability-Explained}
use kube_image_keeper.Availability.Candidates.{monitoring_candidates_by_registry}
use kube_image_keeper.Availability.Fairness.{
  Leads, monitored_images, monitoring_candidates_by_registry-Leads,
}
use kube_image_keeper.Examples.Inputs.{
  value, exact, has_key, as_named, web_image, mirror, mirror_set, written, used_image,
}
use kube_image_keeper.Examples.Servers.{kube, availability, everything, remote}

-- An image with a mirror that was written.
abbrev mirrored_image : MatchingImage
mirrored_image = record used_image { mirrors = written ∷ [] }

unfoldable merged : List MatchingImage
unfolding merge_previous_and_current_matching_images as_named
merged =
    value
      (merge_previous_and_current_matching_images as_named (λ m. m) 9 [] everything (mirror ∷ []) []
        (mirrored_image ∷ []))
      []

merge_previous_and_current_matching_images-IsRemembered_example :
    All (IsRemembered (λ n. some 5) merged) (mirrored_image ∷ [])
unfolding merge_previous_and_current_matching_images as_named merged
merge_previous_and_current_matching_images-IsRemembered_example =
    merge_previous_and_current_matching_images-IsRemembered (λ n. some 5) as_named (λ m. m) 9 []
      everything (mirror ∷ []) [] (mirrored_image ∷ []) merged (λ P is h. h) ((refl, tt), tt) refl

-- An unused image whose retention has passed.
abbrev unused_image : MatchingImage
unused_image = record used_image { unused_since = some 2 }

unfoldable after_cleanup : (List MatchingImage × Progress) × ℕ
unfolding clean_images
after_cleanup =
    clean_images kube [] (mirror ∷ []) mirror_set.base.cleanup
      (record { requeue_after = pos 0; some_deletion_failed = false }) (unused_image ∷ []) 9

clean_images-Accounted_example :
    Accounted kube []
      (mirror ∷ [])
      mirror_set.base.cleanup
      after_cleanup.0.1.some_deletion_failed
      (unused_image ∷ [])
      9
      after_cleanup.0.0
      after_cleanup.1
unfolding after_cleanup
clean_images-Accounted_example =
    clean_images-Accounted kube [] (mirror ∷ []) mirror_set.base.cleanup
      (record { requeue_after = pos 0; some_deletion_failed = false }) (unused_image ∷ []) 9

monitoring_candidates_by_registry-Leads_example :
    Leads
      (lookup
        (codes "d")
        (monitoring_candidates_by_registry as_named exact has_key 0 (availability ∷ []) []))
      (monitored_images as_named (codes "d") exact has_key (availability ∷ []) [])
monitoring_candidates_by_registry-Leads_example =
    monitoring_candidates_by_registry-Leads as_named (codes "d") exact has_key (availability ∷ [])

check_image_availability-Explained_example :
    Explained (check_image_availability remote head web_image [] true 0).0
check_image_availability-Explained_example =
    check_image_availability-Explained remote head web_image [] true 0

abbrev secret_mirror : Mirror
secret_mirror = record mirror {
  credential_secret = some (record { name = codes "s"; namespace = codes "n" });
}

get_credential_secret_for_image-IsLongest_example :
    (AtMost (codes "r/p/web") 0 (secret_mirror ∷ [])
      × (get_credential_secret_for_image (secret_mirror ∷ []) (codes "r/p/web") ≡ none))
    ⊎ ((m : Mirror) × IsLongest (codes "r/p/web") (secret_mirror ∷ []) m
        × (get_credential_secret_for_image (secret_mirror ∷ []) (codes "r/p/web")
            ≡ m.credential_secret))
get_credential_secret_for_image-IsLongest_example =
    get_credential_secret_for_image-IsLongest (secret_mirror ∷ []) (codes "r/p/web")
