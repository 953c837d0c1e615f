-- ===== src/Availability/Outcomes.antt =====
-- What a check changes of a monitored image.
use kube_image_keeper.Prelude.{◌≡◌, refl, List, [], Option, some}
use kube_image_keeper.Errors.{Error, Result, ok, err}
use kube_image_keeper.Resources.{Time}
use kube_image_keeper.Pods.{Pod}
use kube_image_keeper.Webhook.Alternatives.{Secret}
use kube_image_keeper.Registry.Client.{Remote}
use kube_image_keeper.Registry.Probe.{
  ImageAvailabilityStatus, invalid_auth, unavailable_secret, check_image_availability,
}
use kube_image_keeper.Availability.Monitored.{
  MonitoredImage, RegistryMonitoring, resolve_digest_enabled,
}
use kube_image_keeper.Availability.Check.{
  Monitor, Settings, set_verdict, settle_invalid, settle, without_secret, check_with,
  check_resolved, perform_check,
}

-- What a check at a time leaves and sets of an image.
pub record IsCheckOf (image : MonitoredImage) (now : Time) (checked : MonitoredImage) : Type 0 where
  pub name : checked.image ≡ image.image
  pub unused_since : checked.unused_since ≡ image.unused_since
  pub original : checked.original ≡ image.original
  pub last_monitor : checked.last_monitor ≡ some now

set_verdict-IsCheckOf :
    (image : MonitoredImage) (now : Time) (s : ImageAvailabilityStatus) (e : Option Error)
    → image.last_monitor ≡ some now
    → IsCheckOf image now (set_verdict image s e)
set_verdict-IsCheckOf image now s e h = record {
  name = refl;
  unused_since = refl;
  original = refl;
  last_monitor = h;
}

settle_invalid-IsCheckOf :
    (image : MonitoredImage) (now : Time) (s : ImageAvailabilityStatus) (e : Option Error)
    → image.last_monitor ≡ some now
    → IsCheckOf image now (settle_invalid image s e)
unfolding settle_invalid
settle_invalid-IsCheckOf image now unavailable_secret e h = record {
  name = refl;
  unused_since = refl;
  original = refl;
  last_monitor = h;
}
settle_invalid-IsCheckOf image now _ e h = set_verdict-IsCheckOf image now invalid_auth e h

settle-IsCheckOf :
    (image : MonitoredImage) (now : Time) (v : ImageAvailabilityStatus × Option Error)
    → image.last_monitor ≡ some now
    → IsCheckOf image now (settle image v)
unfolding settle
settle-IsCheckOf image now (invalid_auth, e) h = settle_invalid-IsCheckOf image now image.status e h
settle-IsCheckOf image now (s, e) h = set_verdict-IsCheckOf image now s e h

module _ {W K D : Type 0} (settings : Settings) (remote : Remote W K D) (monitor : Monitor W)
    (config : RegistryMonitoring) (pods : List Pod) where
  check_with-IsCheckOf :
      (now : Time) (image : MonitoredImage) (secrets : List Secret) (w : W)
      → IsCheckOf image now (check_with settings remote monitor config now image secrets w).0
  unfolding check_with
  check_with-IsCheckOf now image secrets w =
      let timed : MonitoredImage = record image { last_monitor = some now } in
      let s =
        settle-IsCheckOf timed now
          (check_image_availability remote config.method image.image secrets
            (resolve_digest_enabled config) w).0
          refl in
      record {
        name = s.name;
        unused_since = s.unused_since;
        original = s.original;
        last_monitor = s.last_monitor;
      }

  check_resolved-IsCheckOf :
      (now : Time) (image : MonitoredImage) (r : Result (List Secret) × W)
      → IsCheckOf image now (check_resolved settings remote monitor config now image r).0
  unfolding check_resolved without_secret
  check_resolved-IsCheckOf now image (ok secrets, w) = check_with-IsCheckOf now image secrets w
  check_resolved-IsCheckOf now image (err e, w) =
      let s = check_with-IsCheckOf now (without_secret image e) [] w in
      record {
        name = s.name;
        unused_since = s.unused_since;
        original = s.original;
        last_monitor = s.last_monitor;
      }

  -- A check sets the time of the last check to that of the clock, and keeps the name of the image, since
  -- when it is unused and whether it is an original image, whatever the registry and the secrets say.
  pub perform_check-IsCheckOf :
      (image : MonitoredImage) (w : W)
      → IsCheckOf image
          (monitor.now w).0
          (perform_check settings remote monitor config pods image w).0
  unfolding perform_check
  perform_check-IsCheckOf image w = check_resolved-IsCheckOf (monitor.now w).0 image _
