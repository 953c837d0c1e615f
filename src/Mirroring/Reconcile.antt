-- ===== src/Mirroring/Reconcile.antt =====
-- reconcile and enqueueForPod. The response to a written object is taken to be that object; events and
-- logs are left out.
use kube_image_keeper.Prelude.{
  Bool, false, not, ◌&&◌, ◌||◌, List, [], ◌∷◌, ◌++◌, contains_func, delete_func, if◌then◌else◌,
}
use kube_image_keeper.Prelude.Int.{ℤ, pos, ltb_ℤ}
use kube_image_keeper.Text.{Text, codes, text_eq, is_empty, contains_byte}
use kube_image_keeper.Errors.{Result, ok, err, message, is_not_found}
use kube_image_keeper.Effects.{Eff, pure, raise, lift, attempt, ◌>>=◌, ◌>>◌}
use kube_image_keeper.Pods.{StringMap, Pod}
use kube_image_keeper.Filters.{Regexp, Selector, Filter, match, PodFilter, match_pod}
use kube_image_keeper.Resources.{MatchingImage}
use kube_image_keeper.References.{Named}
use kube_image_keeper.Webhook.Admission.{Json}
use kube_image_keeper.Mirroring.Names.{
  normalized_image_names_from_pod, pods_in_use_images, pods_by_normalized_matching_images,
  get_all_mirror_prefixes,
}
use kube_image_keeper.Mirroring.Merge.{is_zero, merge_previous_and_current_matching_images}
use kube_image_keeper.Mirroring.Images.{
  MirrorObject, object_meta, mirror_spec, mirror_status, with_status, with_meta, object_pod_matcher,
  object_image_filter, Kube, clock,
}
use kube_image_keeper.Mirroring.Loops.{delete_all, Progress, clean_images, mirror_images}

-- What the reconcilers take from the libraries and the configuration.
pub record Settings : Type 0 where
  pub parse_normalized : Text → Result Named
  pub compile : Text → Result Regexp
  pub parse_selector : Text → Result Selector
  pub json : Json
  pub range_order : List MatchingImage → List MatchingImage
  pub global_pod_filter : PodFilter

abbrev pub image_set_mirror_finalizer : Text
image_set_mirror_finalizer = codes "kuik.enix.io/mirror-cleanup"

-- controllerutil.ContainsFinalizer, AddFinalizer and RemoveFinalizer
abbrev pub contains_finalizer : MirrorObject → Bool
contains_finalizer obj =
    contains_func (object_meta obj).finalizers (λ f. text_eq f image_set_mirror_finalizer)

abbrev pub set_finalizers : List Text → MirrorObject → MirrorObject
set_finalizers fs obj = with_meta (record (object_meta obj) { finalizers = fs }) obj

unfoldable pub add_finalizer : MirrorObject → MirrorObject
unfolding text_eq
add_finalizer obj =
    if contains_finalizer obj
    then obj
    else set_finalizers ((object_meta obj).finalizers ++ image_set_mirror_finalizer ∷ []) obj

unfoldable pub remove_finalizer : MirrorObject → MirrorObject
unfolding text_eq
remove_finalizer obj =
    set_finalizers
      (delete_func (object_meta obj).finalizers (λ f. text_eq f image_set_mirror_finalizer)) obj

-- The outcome of a reconciliation that ends without an error: ctrl.Result.
pub record Outcome : Type 0 where
  pub requeue_after : ℤ

abbrev pub settled : Outcome
settled = record { requeue_after = pos 0 }

-- The lines behind the loops.
unfoldable pub conclude : Progress → Bool → Result Outcome
conclude p some_mirror_failed =
    if p.some_deletion_failed
    then err (message (codes "one or more image(s) could not be deleted"))
    else if some_mirror_failed
    then err (message (codes "one or more image(s) could not be mirrored"))
    else if ltb_ℤ (pos 0) p.requeue_after
    then ok (record { requeue_after = p.requeue_after })
    else ok settled

-- The pods that a matcher and the global filter select.
unfoldable pub selected_pods : PodFilter → (Pod → Bool) → List Pod → List Pod
unfolding match_pod
selected_pods global matcher pods =
    delete_func pods (λ p. not (matcher p) || not (match_pod global p))

-- enqueueForPod for the listed objects: those that are asked to reconcile
module _ (settings : Settings) (pod : Pod) where
  unfoldable pub selects_image : MirrorObject → List Text → Bool
  unfolding object_image_filter contains_byte match
  selects_image obj names =
      elim (object_image_filter settings.compile settings.parse_selector obj) [
        | err _ ↦ false
        | ok f ↦ contains_func names (λ n. not (contains_byte n b'@') && match f n)
      ]

  unfoldable pub requested : MirrorObject → Bool
  unfolding object_pod_matcher selects_image normalized_image_names_from_pod
  requested obj = elim (object_pod_matcher settings.compile settings.parse_selector obj) [
    | err _ ↦ false
    | ok matcher ↦
        matcher pod
        && selects_image obj (normalized_image_names_from_pod settings.parse_normalized pod)
  ]

  unfoldable pub enqueue_for_pod : Result (List MirrorObject) → List MirrorObject
  unfolding requested match_pod
  enqueue_for_pod (err _) = []
  enqueue_for_pod (ok objs) =
      if match_pod settings.global_pod_filter pod
      then delete_func objs (λ obj. not (requested obj))
      else []

module _ {W D : Type 0} (settings : Settings) (kube : Kube W D) where
  -- An object that is being deleted.
  unfoldable pub reconcile_deleted : MirrorObject → Eff W Outcome
  unfolding delete_all remove_finalizer
  reconcile_deleted obj =
      if contains_finalizer obj
      then (do
        delete_all kube (object_meta obj).namespace (mirror_spec obj).mirrors (mirror_status obj)
        kube.retry_on_conflict (
            attempt kube.get_object λ r. elim r [
              | ok fresh ↦ kube.update (remove_finalizer fresh)
              | err e ↦ if is_not_found e then pure obj else raise e
            ])
        pure settled)
      else pure settled

  ensure_finalizer : MirrorObject → Eff W MirrorObject
  unfolding add_finalizer
  ensure_finalizer obj =
      if contains_finalizer obj
      then pure obj
      else kube.retry_on_conflict (do fresh ← kube.get_object; kube.update (add_finalizer fresh))

  -- The status that the pods ask for, and the pods of each image.
  unfoldable pub merge_status :
      Filter
      → StringMap (List Text)
      → List Pod
      → MirrorObject
      → Eff W (List MatchingImage × StringMap Pod)
  unfolding merge_previous_and_current_matching_images pods_in_use_images
      pods_by_normalized_matching_images
  merge_status f prefixes pods obj = do
    now ← clock kube
    let by_image = pods_by_normalized_matching_images settings.parse_normalized f prefixes pods []
    images ← lift (
        merge_previous_and_current_matching_images settings.parse_normalized settings.range_order
          now (pods_in_use_images settings.parse_normalized settings.json pods) f
          (mirror_spec obj).mirrors by_image (mirror_status obj))
    pure (images, by_image)

  no_progress : Progress
  no_progress = record { requeue_after = pos 0; some_deletion_failed = false }

  -- The two loops, with the status written before each.
  unfoldable pub apply_status : MirrorObject → List MatchingImage × StringMap Pod → Eff W Outcome
  unfolding clean_images mirror_images conclude no_progress
  apply_status obj (images, by_image) = do
    kube.patch_status obj (with_status images obj)
    (cleaned, progress) ← λ w.
        let (r, w') =
          clean_images kube (object_meta obj).namespace (mirror_spec obj).mirrors
            (mirror_spec obj).cleanup no_progress images w in
        (ok r, w')
    kube.patch_status (with_status images obj) (with_status cleaned obj)
    (_, failed) ←
        mirror_images kube (object_meta obj).namespace (mirror_spec obj).mirrors
          (with_status cleaned obj) by_image [] false cleaned
    lift (conclude progress failed)

  reconcile_selected : MirrorObject → (Pod → Bool) → Filter → List Pod → Eff W Outcome
  unfolding selected_pods ensure_finalizer get_all_mirror_prefixes merge_status apply_status
  reconcile_selected stored matcher f all_pods = do
    obj ← ensure_finalizer stored
    cisms ← kube.list_cluster_image_set_mirrors
    isms ← kube.list_image_set_mirrors
    merged ←
        merge_status f
          (get_all_mirror_prefixes (is_empty (object_meta stored).namespace) cisms isms)
          (selected_pods settings.global_pod_filter matcher all_pods) obj
    apply_status obj merged

  -- A filter that does not compile ends the reconciliation without an error.
  unfoldable pub reconcile_live : MirrorObject → Eff W Outcome
  unfolding object_pod_matcher object_image_filter reconcile_selected
  reconcile_live obj = do
    pods ← kube.list_pods (object_meta obj).namespace
    elim (object_pod_matcher settings.compile settings.parse_selector obj) [
      | err _ ↦ pure settled
      | ok matcher ↦ elim (object_image_filter settings.compile settings.parse_selector obj) [
        | err _ ↦ pure settled
        | ok f ↦ reconcile_selected obj matcher f pods
      ]
    ]

  unfoldable pub reconcile : Eff W Outcome
  unfolding reconcile_deleted reconcile_live
  reconcile = attempt kube.get_object λ r. elim r [
    | err e ↦ if is_not_found e then pure settled else raise e
    | ok obj ↦
        if is_zero (object_meta obj).deletion_timestamp
        then reconcile_live obj
        else reconcile_deleted obj
  ]
