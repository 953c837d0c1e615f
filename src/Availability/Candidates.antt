-- ===== src/Availability/Candidates.antt =====
-- monitoringCandidatesByRegistry: the image of each registry that is due next.
use kube_image_keeper.Prelude.{
  ℕ, suc, Bool, true, false, List, [], ◌∷◌, Option, none, some, ltb, if◌then◌else◌,
}
use kube_image_keeper.Text.{Text}
use kube_image_keeper.Errors.{Result, ok, err}
use kube_image_keeper.Pods.{StringMap, lookup, insert}
use kube_image_keeper.Filters.{Regexp, Selector}
use kube_image_keeper.Resources.{Time}
use kube_image_keeper.References.{Named, registry_and_path_from_reference}
use kube_image_keeper.Availability.Monitored.{
  MonitoredImage, ClusterImageSetAvailability, availability_pod_matcher, availability_image_filter,
}

pub record MonitoringCandidate : Type 0 where
  pub image_name : Text
  -- the pointer to an object of the list, as its index
  pub cisa : ℕ
  pub registry_last_monitor : Time
  pub last_monitor : Option Time

-- t.Before(u), false where one of them is nil
abbrev pub before : Option Time → Option Time → Bool
before (some t) (some u) = ltb t u
before _ _ = false

-- The candidate after one more image of its registry.
unfoldable pub consider : ℕ → MonitoredImage → Option MonitoringCandidate → MonitoringCandidate
consider cisa i none = record {
  image_name = i.image;
  cisa = cisa;
  registry_last_monitor = elim i.last_monitor [ none ↦ 0 | some t ↦ t ];
  last_monitor = i.last_monitor;
}
consider cisa i (some c) =
    let latest : Time = elim i.last_monitor [
      | none ↦ c.registry_last_monitor
      | some t ↦ if ltb c.registry_last_monitor t then t else c.registry_last_monitor
    ] in
    let due : Bool = elim i.last_monitor [
      | none ↦ true
      | some t ↦ before (some t) c.last_monitor
    ] in
    if due
    then record {
      image_name = i.image;
      cisa = cisa;
      registry_last_monitor = latest;
      last_monitor = i.last_monitor;
    }
    else record c { registry_last_monitor = latest }

module _ (parse_normalized : Text → Result Named) where
  -- The loop over the images of one object; an image that does not parse is passed over.
  unfoldable pub consider_images :
      ℕ → List MonitoredImage → StringMap MonitoringCandidate → StringMap MonitoringCandidate
  unfolding registry_and_path_from_reference consider lookup insert
  consider_images cisa [] candidates = candidates
  consider_images cisa (i ∷ is) candidates =
      consider_images cisa is (elim (registry_and_path_from_reference parse_normalized i.image) [
        | err _ ↦ candidates
        | ok (registry, _) ↦
            insert registry (consider cisa i (lookup registry candidates)) candidates
      ])

  module _ (compile : Text → Result Regexp) (parse : Text → Result Selector) where
    -- The outer loop; an object whose filter does not compile is passed over.
    unfoldable pub monitoring_candidates_by_registry :
        ℕ
        → List ClusterImageSetAvailability
        → StringMap MonitoringCandidate
        → StringMap MonitoringCandidate
    unfolding availability_pod_matcher availability_image_filter consider_images
    monitoring_candidates_by_registry n [] candidates = candidates
    monitoring_candidates_by_registry n (c ∷ cs) candidates =
        monitoring_candidates_by_registry (suc n) cs
          (elim (availability_pod_matcher compile parse c) [
            | err _ ↦ candidates
            | ok _ ↦ elim (availability_image_filter compile parse c) [
              | err _ ↦ candidates
              | ok _ ↦ consider_images n c.images candidates
            ]
          ])
