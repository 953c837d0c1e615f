-- ===== src/Examples/Starting.antt =====
-- The start of the program and its metrics at concrete inputs.
use mathlib.Core.List.Perm
use kube_image_keeper.Prelude.{
  ◌≡◌, refl, inl, inr, ℕ, true, false, Bool-cases, All, if◌then◌else◌, List, [], ◌∷◌, ◌++◌, length,
}
use kube_image_keeper.Text.{codes, is_empty}
use kube_image_keeper.Errors.{Result, ok, err, message}
use kube_image_keeper.Effects.{pure}
use kube_image_keeper.Filters.{compile_pod_filter}
use kube_image_keeper.Histogram.{validate}
use kube_image_keeper.Configuration.{Config, Platform, default_config}
use kube_image_keeper.Reporting.Totals.{entries}
use kube_image_keeper.Reporting.Collectors.{images, collect_images_metric}
use kube_image_keeper.Reporting.Samples.{IsConsistent, collect_images_metric-IsConsistent}
use kube_image_keeper.Setup.Loading.{Koanf}
use kube_image_keeper.Setup.Startup.{Flags, default_flags, Component, Manager, main}
use kube_image_keeper.Setup.Logged.{Logs}
use kube_image_keeper.Setup.Started.{IsServable, IsStarted, main-IsStarted}
use kube_image_keeper.Examples.Inputs.{has_key, as_named}
use kube_image_keeper.Examples.Servers.{availability}
use kube_image_keeper.Examples.Admitting.{libraries}
use kube_image_keeper.Examples.Composing.{orders}
use kube_image_keeper.Examples.Reports.{floats, epoch_text}

collect_images_metric-IsConsistent_example :
    IsConsistent {F = ℕ} images
      (collect_images_metric as_named (λ m. m) (ok (availability ∷ availability ∷ [])))
      (length (entries as_named epoch_text (availability ∷ availability ∷ [])))
collect_images_metric-IsConsistent_example =
    collect_images_metric-IsConsistent ℕ as_named epoch_text (λ m. m)
      (availability ∷ availability ∷ []) (λ counts. Perm.refl counts)

-- A library that holds the configuration itself, and a file that is missing.
abbrev koanf : Koanf (List (Component ℕ)) ℕ (Config ℕ)
koanf = record {
  stat = λ path w. (err (message path), w);
  is_not_exist = λ e. true;
  load_struct = ok;
  load_file = λ k path. pure k;
  unmarshal = ok;
}

-- The validation by tags.
unfoldable each_tagged : List Platform → Result (Unit {0})
each_tagged [] = ok tt
each_tagged (p ∷ ps) = if is_empty p.architecture then err (message []) else each_tagged ps

unfoldable tags_hold : List Platform → Result (Unit {0})
unfolding each_tagged
tags_hold [] = err (message [])
tags_hold (p ∷ ps) = each_tagged (p ∷ ps)

each_tagged-All :
    (ps : List Platform)
    → each_tagged ps ≡ ok tt
    → All (λ (p : Platform). is_empty p.architecture ≡ false) ps
unfolding each_tagged
each_tagged-All [] = λ h. tt
each_tagged-All (p ∷ ps) = elim (Bool-cases (is_empty p.architecture)) [
  | inl q ↦ rw q (λ h. cc)
  | inr q ↦ rw q (λ h. (refl, each_tagged-All ps h))
]

tags_hold-IsServable : (cfg : Config ℕ) → tags_hold cfg.platforms ≡ ok tt → IsServable cfg
unfolding tags_hold
tags_hold-IsServable cfg = go cfg.platforms
  where
    go :
        (ps : List Platform)
        → tags_hold ps ≡ ok tt
        → (¬ (ps ≡ [])) × All (λ (p : Platform). is_empty p.architecture ≡ false) ps
    go [] h = cc
    go (p ∷ ps) h = ((λ e. cc), each_tagged-All (p ∷ ps) h)

-- A manager whose world is the list of the components.
abbrev manager : Manager (List (Component ℕ)) ℕ
manager = record {
  validate_struct = λ cfg. tags_hold cfg.platforms;
  new_cert_watcher = λ cert key. pure tt;
  new_manager = λ options. pure tt;
  getenv = λ name. [];
  add = λ c w. (ok tt, w ++ c ∷ []);
  start = pure tt;
}

logs : Logs koanf manager (λ w. w)
logs = record {
  adds = λ c w h. refl;
  stat = λ path cs w h. h;
  load_file = λ k path cs w h. h;
  new_cert_watcher = λ cert key cs w h. h;
  new_manager = λ options cs w h. h;
  start = λ cs w h. h;
}

abbrev flags : Flags
flags = record default_flags {
  metrics_cert = record default_flags.metrics_cert { path = codes "certs" };
}

main-IsStarted_example :
    IsStarted libraries floats koanf (λ m e. m) manager orders (λ w. w) flags []
unfolding main tags_hold default_flags default_config validate compile_pod_filter has_key
main-IsStarted_example =
    main-IsStarted libraries floats koanf (λ m e. m) manager orders (λ w. w) logs
      (λ s f c h k l. (s ∷ [], refl, tt)) (λ a b c h k l. (a ∷ [], refl, tt)) tags_hold-IsServable
      flags [] refl
