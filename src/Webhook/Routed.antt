-- ===== src/Webhook/Routed.antt =====
-- The search for the image of a container as a whole: rank the candidates, load their secrets, take the
-- first that can be pulled.
use kube_image_keeper.Prelude.{
  ◌≡◌, refl, sym, ap, ◌∙◌, ◌⊎◌, ℕ, ◌<◌, true, false, List, [], ◌∷◌, length, Option, none, some,
  is_some, Any, Bool-cases, inl, inr,
}
use kube_image_keeper.Errors.{Result, ok, err, ok-injective}
use kube_image_keeper.Effects.{Eff, ◌>>=◌, pure, lift}
use kube_image_keeper.Effects.Laws.{>>=-ok}
use kube_image_keeper.Resources.{CredentialSecret, ImageSetMirror, ReplicatedImageSet}
use kube_image_keeper.Webhook.Alternatives.{Secret, AlternativeImage, Container}
use kube_image_keeper.Webhook.Candidates.{build_alternatives_list}
use kube_image_keeper.Webhook.Ranking.{IsRanked, build_alternatives_list-IsRanked}
use kube_image_keeper.Webhook.Best.{first_available, find_best_alternative-first_available}
use kube_image_keeper.Webhook.Rewrite.{
  Cluster, Routing, CachedAlternativeImage, load_secret, load_alternatives_secrets,
}
use kube_image_keeper.Webhook.Defaulting.{Libraries, check_built, search_best}

module _ {W : Type 0} (cluster : Cluster W) where
  -- From one world to the next, the image is as it was, where it needs no secret or has one; or it has the
  -- secret that its credentials name.
  abbrev pub IsLoaded :
      AlternativeImage → Option CredentialSecret → W → AlternativeImage → W → Type 0
  IsLoaded image none w loaded w' = (loaded ≡ image) × (w' ≡ w)
  IsLoaded image (some s) w loaded w' =
      ((is_some image.image_pull_secret ≡ true) × (loaded ≡ image) × (w' ≡ w))
      ⊎ ((secret : Secret) × (is_some image.image_pull_secret ≡ false)
          × (cluster.get_secret s.namespace s.name w ≡ (ok secret, w'))
          × (loaded ≡ record image { image_pull_secret = some secret }))

  -- So are all images, one after the other.
  abbrev pub AllLoaded : List AlternativeImage → W → List AlternativeImage → W → Type 0
  AllLoaded [] w loaded w' = (loaded ≡ []) × (w' ≡ w)
  AllLoaded (i ∷ is) w loaded w' =
      (l : AlternativeImage) × (v : W) × (rest : List AlternativeImage) × IsLoaded i
        i.credential_secret w l v
      × AllLoaded is v rest w'
      × (loaded ≡ l ∷ rest)

  secret_loaded :
      (image loaded : AlternativeImage) (p : Result Secret × W) (read : Eff W Secret) (w : W)
      → read w ≡ p
      → ((read >>= λ secret. pure (record image { image_pull_secret = some secret })) w).0
        ≡ ok loaded
      → (secret : Secret) × (read w
          ≡ (ok secret, ((read >>= λ s. pure (record image { image_pull_secret = some s })) w).1))
        × (loaded ≡ record image { image_pull_secret = some secret })
  secret_loaded image loaded (ok secret, v) read w q h =
      let e = rw q at h in rw q (secret, refl, sym (ok-injective e))
  secret_loaded image loaded (err e, v) read w q h = let refused = rw q at h in cc

  load_secret-IsLoaded :
      (image : AlternativeImage) (c : Option CredentialSecret) (w : W) (loaded : AlternativeImage)
      → (load_secret cluster image c w).0 ≡ ok loaded
      → IsLoaded image c w loaded (load_secret cluster image c w).1
  unfolding load_secret
  load_secret-IsLoaded image none w loaded h = (sym (ok-injective h), refl)
  load_secret-IsLoaded image (some s) w loaded h =
      elim (Bool-cases (is_some image.image_pull_secret)) [
        | inl q ↦ rw q (inl (refl, sym (ok-injective (rw q at h)), refl))
        | inr q ↦
            let (secret, read, e) =
              secret_loaded image loaded _ (cluster.get_secret s.namespace s.name) w refl
                (rw q at h) in
            rw q (inr (secret, refl, read, e))
      ]

  load-AllLoaded :
      (images loaded : List AlternativeImage) (w : W)
      → (load_alternatives_secrets cluster images w).0 ≡ ok loaded
      → AllLoaded images w loaded (load_alternatives_secrets cluster images w).1
  unfolding load_alternatives_secrets
  load-AllLoaded [] loaded w h = (sym (ok-injective h), refl)
  load-AllLoaded (i ∷ is) loaded w h =
      let (l, q, next) = >>=-ok (load_secret cluster i i.credential_secret) _ w loaded h in
      let v = (load_secret cluster i i.credential_secret w).1 in
      let (rest, q', last) = >>=-ok (load_alternatives_secrets cluster is) _ v loaded next in
      rw (q, q')
        (
          l,
          v,
          rest,
          load_secret-IsLoaded i i.credential_secret w l q,
          load-AllLoaded is rest v q',
          sym (ok-injective last),
        )

module _ {W : Type 0} (libs : Libraries) (cluster : Cluster W) (routing : Routing)
    (mirrors : List ImageSetMirror) (replicated : List ReplicatedImageSet) (c : Container)
    (pull_secrets : List Secret) where
  -- The candidates are ranked, their secrets are loaded from this world on, and the image that was found is
  -- the first of several whose check succeeds, checked in the world behind the last secret.
  pub record IsRouted (w : W) (result : CachedAlternativeImage) : Type 0 where
    pub built : Container
    pub ranked :
        IsRanked libs.parse_normalized libs.compile libs.parse_selector mirrors replicated
          routing.honor_priorities_on_always_image_pull_policy c built
    pub images : List AlternativeImage
    pub secrets_read : W
    pub loaded : AllLoaded cluster built.images w images secrets_read
    pub first :
        1 < length images
        → result.alternative_image
          ≡ first_available
              (cluster.run_checks (length images) secrets_read).0.check
              pull_secrets
              images
    pub counted : result.alternatives_count ≡ length built.alternatives

  check_built-first :
      (built : Container) (images : List AlternativeImage)
      → ((n : ℕ) (w : W) (j : ℕ) → j < n → Any (λ i. i ≡ j) (cluster.run_checks n w).0.schedule)
      → (w : W) (result : CachedAlternativeImage)
      → (check_built libs cluster routing c built pull_secrets images w).0 ≡ ok result
      → (1 < length images
          → result.alternative_image
            ≡ first_available (cluster.run_checks (length images) w).0.check pull_secrets images)
        × (result.alternatives_count ≡ length built.alternatives)
  unfolding check_built
  check_built-first built images ends w result h =
      let found = ok-injective h in
      let checks = (cluster.run_checks (length images) w).0 in
      (
        λ several.
            ap (λ (r : CachedAlternativeImage). r.alternative_image) (sym found)
            ∙ find_best_alternative-first_available checks.check pull_secrets checks.schedule
                (record built { images = images }) (ends (length images) w) several,
        ap (λ (r : CachedAlternativeImage). r.alternatives_count) (sym found),
      )

  -- Where every check that is started ends, the search for the image of a container that has none yet, if
  -- it ends without an error, ranks the candidates of the container, reads one after the other the secrets
  -- that their credentials name, where an image has none yet, and from the checks that it starts behind
  -- these reads finds, among at least two images, the first that can be pulled.
  pub search_best-IsRouted :
      (w : W) (result : CachedAlternativeImage)
      → c.images ≡ []
      → c.alternatives ≡ []
      → ((n : ℕ) (w : W) (j : ℕ) → j < n → Any (λ i. i ≡ j) (cluster.run_checks n w).0.schedule)
      → (search_best libs cluster routing mirrors replicated c pull_secrets w).0 ≡ ok result
      → IsRouted w result
  unfolding search_best
  search_best-IsRouted w result no_images none_seen ends h =
      let (built, q, rest) =
        >>=-ok
          (lift (
            build_alternatives_list libs.parse_normalized libs.compile libs.parse_selector mirrors
              replicated routing.honor_priorities_on_always_image_pull_policy c))
          _ w result h in
      let (images, q', last) =
        >>=-ok (load_alternatives_secrets cluster built.images) _ w result rest in
      let world = (load_alternatives_secrets cluster built.images w).1 in
      let (first, counted) = check_built-first built images ends world result last in
      record {
        built = built;
        ranked =
            build_alternatives_list-IsRanked libs.parse_normalized libs.compile libs.parse_selector
              mirrors replicated routing.honor_priorities_on_always_image_pull_policy c built
              no_images none_seen q;
        images = images;
        secrets_read = world;
        loaded = load-AllLoaded cluster built.images images w q';
        first = first;
        counted = counted;
      }
