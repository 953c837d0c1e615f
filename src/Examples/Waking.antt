-- ===== src/Examples/Waking.antt =====
-- The theorems on the events of pods at concrete inputs.
use kube_image_keeper.Prelude.{
  ◌≡◌, refl, subst, ◌⊎◌, inl, inr, Bool, false, if◌then◌else◌, [], ◌∷◌, ◌++◌, Any, Bool-cases,
}
use kube_image_keeper.Text.{Text, codes, text_eq, contains_byte}
use kube_image_keeper.Errors.{Result, ok, err, message, ok-injective}
use kube_image_keeper.Pods.{Pod}
use kube_image_keeper.Filters.{Filter, compile_pod_filter, compile_include_exclude_filter}
use kube_image_keeper.References.{Named, named_text}
use kube_image_keeper.Mirroring.Images.{namespaced, object_pod_matcher, object_image_filter}
use kube_image_keeper.Mirroring.Reconcile.{Settings as MirrorSettings, enqueue_for_pod}
use kube_image_keeper.Mirroring.Wakeup.{wanted, seen, enqueue_for_pod-wanted}
use kube_image_keeper.Availability.Monitored.{availability_pod_matcher}
use kube_image_keeper.Availability.Mapper.{map_pod}
use kube_image_keeper.Availability.Wakeup.{IsIdle, map_pod-IsIdle}
use kube_image_keeper.Examples.Inputs.{
  value, exact, has_key, as_named, web_image, web_container, mirror_set, web_pod,
}
use kube_image_keeper.Webhook.Admission.{original_images}
use kube_image_keeper.Webhook.Defaulting.{default_pod}
use kube_image_keeper.Webhook.Tracked.{IsTracked, default_pod-IsTracked}
use kube_image_keeper.Examples.Annotations.{json, unmarshal-marshal}
use kube_image_keeper.Examples.Admitting.{libraries, cluster, routing, admitted, fails_for}
use kube_image_keeper.Examples.Servers.{remote, availability, everything}
use kube_image_keeper.Examples.Monitoring.{mirror_settings, settings, monitor}

-- A parser that knows one image.
unfoldable only_web_image : Text → Result Named
unfolding text_eq
only_web_image t =
    if text_eq t web_image
    then ok (record { domain = codes "d"; remainder = codes "web" })
    else err (message t)

abbrev web_settings : MirrorSettings
web_settings = record mirror_settings { parse_normalized = only_web_image }

only_web_image-bare :
    (t : Text) (n : Named)
    → only_web_image t ≡ ok n
    → contains_byte t b'@' ≡ false
    → contains_byte (named_text n) b'@' ≡ false
unfolding only_web_image contains_byte
only_web_image-bare t n = elim (Bool-cases (text_eq t web_image)) [
  | inl q ↦
      rw q (λ h _. subst (λ m. contains_byte (named_text m) b'@' ≡ false) (ok-injective h) refl)
  | inr q ↦ rw q (λ h _. cc)
]

unfoldable set_matcher : Pod → Bool
unfolding object_pod_matcher has_key exact as_named compile_pod_filter
set_matcher = value (object_pod_matcher exact has_key (namespaced mirror_set)) (λ p. false)

unfoldable set_filter : Filter
unfolding object_image_filter has_key exact as_named compile_include_exclude_filter
set_filter = value (object_image_filter exact has_key (namespaced mirror_set)) everything

enqueue_for_pod-wanted_example :
    Any
      (λ o. o ≡ namespaced mirror_set)
      (enqueue_for_pod web_settings web_pod (ok (namespaced mirror_set ∷ [])))
    ⊎ (wanted web_settings set_filter [] (seen web_settings set_matcher ([] ++ web_pod ∷ []))
        ≡ wanted web_settings set_filter [] (seen web_settings set_matcher ([] ++ [])))
unfolding object_pod_matcher object_image_filter has_key exact as_named compile_pod_filter
    compile_include_exclude_filter set_matcher set_filter
enqueue_for_pod-wanted_example =
    enqueue_for_pod-wanted web_settings web_pod (namespaced mirror_set) only_web_image-bare
      set_matcher set_filter [] (namespaced mirror_set ∷ []) [] [] refl refl (inl refl)

unfoldable every_pod : Pod → Bool
unfolding availability_pod_matcher has_key exact as_named compile_pod_filter
    compile_include_exclude_filter
every_pod = value (availability_pod_matcher exact has_key availability) (λ p. false)

map_pod-IsIdle_example :
    Any (λ c. c ≡ availability) (map_pod settings web_pod (ok (availability ∷ [])))
    ⊎ IsIdle settings web_pod availability remote monitor [] [] every_pod
unfolding availability_pod_matcher has_key exact as_named compile_pod_filter
    compile_include_exclude_filter every_pod
map_pod-IsIdle_example =
    map_pod-IsIdle settings web_pod availability remote monitor [] [] every_pod (availability ∷ [])
      refl (inl refl)

abbrev web_name : Named
web_name = record { domain = codes "d"; remainder = codes "web" }

default_pod-IsTracked_example : IsTracked libraries cluster routing admitted web_name
unfolding default_pod original_images contains_byte json exact has_key as_named admitted
    compile_pod_filter compile_include_exclude_filter fails_for
default_pod-IsTracked_example =
    default_pod-IsTracked libraries cluster routing unmarshal-marshal web_pod false 0 admitted
      web_container (tt, tt) refl (inl refl) refl web_name refl refl
