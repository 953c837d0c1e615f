-- ===== src/Availability/Mapper.antt =====
-- The pod mapper of SetupWithManager in clusterimagesetavailability_controller.go: the objects that a pod
-- asks to reconcile. Logs are left out.
use kube_image_keeper.Prelude.{
  Bool, false, not, ◌&&◌, List, [], contains_func, delete_func, if◌then◌else◌,
}
use kube_image_keeper.Text.{Text}
use kube_image_keeper.Errors.{Result, ok, err}
use kube_image_keeper.Pods.{keys, Pod}
use kube_image_keeper.Filters.{match, match_pod}
use kube_image_keeper.Mirroring.Names.{normalized_image_names_map_from_annotated_pod}
use kube_image_keeper.Availability.Monitored.{
  ClusterImageSetAvailability, availability_pod_matcher, availability_image_filter,
}
use kube_image_keeper.Availability.Check.{Settings}

module _ (settings : Settings) (pod : Pod) where
  unfoldable pub selects_image : ClusterImageSetAvailability → List Text → Bool
  unfolding availability_image_filter match
  selects_image cisa names =
      elim (availability_image_filter settings.compile settings.parse_selector cisa) [
        | err _ ↦ false
        | ok f ↦ contains_func names (λ n. match f n)
      ]

  unfoldable pub requested : List Text → ClusterImageSetAvailability → Bool
  unfolding availability_pod_matcher selects_image
  requested names cisa =
      elim (availability_pod_matcher settings.compile settings.parse_selector cisa) [
        | err _ ↦ false
        | ok matcher ↦ matcher pod && selects_image cisa names
      ]

  -- The objects that are asked to reconcile, of those that are listed.
  unfoldable pub map_pod :
      Result (List ClusterImageSetAvailability) → List ClusterImageSetAvailability
  unfolding match_pod requested normalized_image_names_map_from_annotated_pod keys
  map_pod (err _) = []
  map_pod (ok cisas) =
      if match_pod settings.global_pod_filter pod
      then (let names = keys (
            normalized_image_names_map_from_annotated_pod settings.parse_normalized settings.json
              pod) in
          delete_func cisas (λ c. not (requested names c)))
      else []
