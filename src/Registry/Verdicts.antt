-- ===== src/Registry/Verdicts.antt =====
-- Which verdicts CheckImageAvailability reaches.
use kube_image_keeper.Prelude.{
  ◌≡◌, Bool, true, false, not, List, Option, is_some, inl, inr, ◌∷◌, ◌++◌, arith,
}
use kube_image_keeper.Text.{Text}
use kube_image_keeper.Errors.{Error, Result-cases}
use kube_image_keeper.Webhook.Alternatives.{Secret}
use kube_image_keeper.Registry.Client.{HttpMethod, Remote, read_descriptor}
use kube_image_keeper.Registry.Probe.{
  ImageAvailabilityStatus, available, availability_from_error, digest_error, check_digest_path,
  check_image_availability,
}

abbrev pub is_available : ImageAvailabilityStatus → Bool
is_available available = true
is_available _ = false

-- An error comes with every verdict but the good one.
abbrev pub Explained : ImageAvailabilityStatus × Option Error → Type 0
Explained v = is_some v.1 ≡ not (is_available v.0)

availability_from_error-Explained : (e : Error) → Explained (availability_from_error e)
unfolding availability_from_error
availability_from_error-Explained e = ground arith

availability_from_error-unavailable :
    (e : Error) → is_available (availability_from_error e).0 ≡ false
unfolding availability_from_error
availability_from_error-unavailable e = ground arith

digest_error-Explained :
    (method : HttpMethod) (reference digest : Text) (e : Error)
    → Explained (digest_error method reference digest e)
unfolding digest_error
digest_error-Explained method reference digest e = grind (arith, availability_from_error-Explained)

module _ {W K D : Type 0} (remote : Remote W K D) (method : HttpMethod) (reference : Text)
    (pull_secrets : List Secret) where
  check_digest_path-Explained :
      (desc : D) (w : W)
      → Explained (check_digest_path remote method reference desc pull_secrets w).0
  unfolding check_digest_path
  check_digest_path-Explained desc w = elim (Result-cases (remote.parse_reference reference)) [
    | inr (e, q) ↦ ground (arith, q)
    | inl (ref, q) ↦
        let r =
          (read_descriptor remote method (ref.repository ++ b'@' ∷ remote.digest desc) pull_secrets
            w).0 in
        elim (Result-cases r) [
          | inl (d, q') ↦ ground (arith, q, q')
          | inr (e, q') ↦
              ground (arith, q, q', digest_error-Explained method reference (remote.digest desc) e)
        ]
  ]

  -- A check reports an error exactly when its status is not that the image is available, on every
  -- path: a rate limit, a failed request, and the second request by digest.
  pub check_image_availability-Explained :
      (resolve_digest : Bool) (w : W)
      → Explained (check_image_availability remote method reference pull_secrets resolve_digest w).0
  unfolding check_image_availability
  check_image_availability-Explained resolve_digest w =
      grind (arith, availability_from_error-Explained, check_digest_path-Explained)

  -- An image that is found available with the request by digest is found available without it.
  check_image_availability-stricter :
      (w : W)
      → is_available (check_image_availability remote method reference pull_secrets true w).0.0
        ≡ true
      → is_available (check_image_availability remote method reference pull_secrets false w).0.0
        ≡ true
  unfolding check_image_availability
  check_image_availability-stricter w h = grind (arith, availability_from_error-unavailable)
