-- ===== src/Registry/Probe.antt =====
-- internal/registry/availability.go and ratelimit.go: the check of an image's availability.
use kube_image_keeper.Prelude.{
  Bool, true, false, ◌||◌, List, ◌∷◌, ◌++◌, Option, none, some, if◌then◌else◌, ◌==◌,
}
use kube_image_keeper.Text.{Text, codes, has_prefix}
use kube_image_keeper.Errors.{Error, message, wrap, ok, err}
use kube_image_keeper.Webhook.Alternatives.{Secret}
use kube_image_keeper.Registry.Client.{
  transport_status_code, HttpMethod, get, head, Remote, read_descriptor,
}

pub data ImageAvailabilityStatus : Type 0 where
  scheduled available image_not_found unreachable invalid_auth unavailable_secret quota_exceeded :
      ImageAvailabilityStatus

-- IsRateLimited, of the header `ratelimit-remaining`
unfoldable pub is_rate_limited : Text → Bool
unfolding has_prefix
is_rate_limited remaining = has_prefix remaining (codes "0;")

-- availabilityFromError
unfoldable pub availability_from_error : Error → ImageAvailabilityStatus × Option Error
unfolding transport_status_code
availability_from_error e =
    let code = transport_status_code e in
    if code == 429
    then (quota_exceeded, some (wrap (codes "rate limit exceeded") e))
    else if code == 404
    then (image_not_found, some (wrap (codes "image not found") e))
    else if (code == 401) || (code == 403)
    then (invalid_auth, some (wrap (codes "authentication failed") e))
    else (unreachable, some (wrap (codes "registry unreachable") e))

abbrev pub rate_limited : ImageAvailabilityStatus × Option Error
rate_limited = (quota_exceeded, some (message (codes "rate limit exceeded")))

abbrev pub is_head : HttpMethod → Bool
is_head get = false
is_head head = true

-- The error of the request by digest.
unfoldable pub digest_error :
    HttpMethod → Text → Text → Error → ImageAvailabilityStatus × Option Error
unfolding transport_status_code availability_from_error
digest_error method reference digest e =
    let code = transport_status_code e in
    if code == 404
    then (
      image_not_found,
      some (
          wrap
            (codes "tag/digest inconsistency: "
              ++ reference
              ++ codes " resolves to digest "
              ++ digest
              ++ codes " but the registry does not serve that manifest")
            e),
    )
    else if ((code == 405) || (code == 501))
    then (if is_head method then (available, none) else availability_from_error e)
    else availability_from_error e

module _ {W K D : Type 0} (remote : Remote W K D) where
  -- checkDigestPath, for a descriptor that is not nil
  unfoldable pub check_digest_path :
      HttpMethod → Text → D → List Secret → W → (ImageAvailabilityStatus × Option Error) × W
  unfolding read_descriptor is_rate_limited digest_error
  check_digest_path method reference desc pull_secrets w = elim (remote.parse_reference reference) [
    | err e ↦ ((unreachable, some (wrap (codes "could not parse reference") e)), w)
    | ok ref ↦
        if ref.is_digest
        then ((available, none), w)
        else (let (r, w') =
              read_descriptor remote method (ref.repository ++ b'@' ∷ remote.digest desc)
                pull_secrets w in
            if is_rate_limited (remote.ratelimit_remaining w') then (rate_limited, w') else elim r [
              | ok _ ↦ ((available, none), w')
              | err e ↦ (digest_error method reference (remote.digest desc) e, w')
            ])
  ]

  -- CheckImageAvailability
  unfoldable pub check_image_availability :
      HttpMethod → Text → List Secret → Bool → W → (ImageAvailabilityStatus × Option Error) × W
  unfolding read_descriptor is_rate_limited availability_from_error check_digest_path
  check_image_availability method reference pull_secrets resolve_digest w =
      let (r, w') = read_descriptor remote method reference pull_secrets w in
      if is_rate_limited (remote.ratelimit_remaining w') then (rate_limited, w') else elim r [
        | err e ↦ (availability_from_error e, w')
        | ok desc ↦
            if resolve_digest
            then check_digest_path method reference desc pull_secrets w'
            else ((available, none), w')
      ]
