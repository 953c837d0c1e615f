-- ===== src/Setup/Logged.antt =====
-- The components that are registered at the start-up, as a log that the world holds.
use mathlib.Core.List.{append_assoc, append-nil}
use kube_image_keeper.Prelude.{
  ◌≡◌, sym, ap, ◌∙◌, ℕ, List, [], ◌∷◌, ◌++◌, Option, none, some, Bool-cases, inl, inr,
}
use kube_image_keeper.Text.{Text}
use kube_image_keeper.Errors.{Result, ok, err, Result-cases}
use kube_image_keeper.Effects.{Eff, pure, lift, ◌>>=◌, ◌>>◌, run_all}
use kube_image_keeper.Effects.Laws.{Preserves, >>=-Preserves, attempt-Preserves}
use kube_image_keeper.Histogram.{Floats, validate}
use kube_image_keeper.Configuration.{default_config}
use kube_image_keeper.Setup.Loading.{
  Koanf, load_provider, load_from, load_default, load_found, load,
}
use kube_image_keeper.Setup.Startup.{
  Flags, ManagerOptions, Component, Manager, no_error, cert_files, manager_options, new_watcher,
  prepare,
}

abbrev pub flatten : {F : Type 0} → List (List (Component F)) → List (Component F)
flatten [] = []
flatten (cs ∷ css) = cs ++ flatten css

module _ {W F : Type 0} (log : W → List (Component F)) where
  -- The action, which ends with a value, appends the components to the log.
  abbrev pub Adds : Eff W (Unit {0}) → List (Component F) → Type 0
  Adds m cs = (w : W) → (m w).0 ≡ ok tt → log (m w).1 ≡ log w ++ cs

  pure-Adds : Adds (pure tt) []
  pure-Adds w h = sym (append-nil (log w))

  >>-Adds :
      (m n : Eff W (Unit {0})) (cs ds : List (Component F))
      → Adds m cs
      → Adds n ds
      → Adds (m >> n) (cs ++ ds)
  >>-Adds m n cs ds p q w = elim (Result-cases (m w).0) [
    | inl (u, e) ↦ rw e (λ h. q (m w).1 h ∙ ap (λ l. l ++ ds) (p w e) ∙ append_assoc (log w) cs ds)
    | inr (e, k) ↦ rw k (λ h. cc)
  ]

  -- The actions, each with the components that it appends.
  abbrev pub AllAdds : List (Eff W (Unit {0})) → List (List (Component F)) → Type 0
  AllAdds [] [] = Unit
  AllAdds (m ∷ ms) (cs ∷ css) = Adds m cs × AllAdds ms css
  AllAdds _ _ = ⊥

  pub run_all-Adds :
      (ms : List (Eff W (Unit {0}))) (css : List (List (Component F)))
      → AllAdds ms css
      → Adds (run_all ms) (flatten css)
  unfolding run_all
  run_all-Adds [] [] h = pure-Adds
  run_all-Adds [] (cs ∷ css) h = absurd h
  run_all-Adds (m ∷ ms) [] h = absurd h
  run_all-Adds (m ∷ ms) (cs ∷ css) h =
      >>-Adds m (run_all ms) cs (flatten css) h.0 (run_all-Adds ms css h.1)

  pub lift-Adds :
      {A : Type 0} (r : Result A) (a : A) (f : A → Eff W (Unit {0})) (cs : List (Component F))
      → r ≡ ok a
      → Adds (f a) cs
      → Adds (lift r >>= f) cs
  lift-Adds r a f cs q h = rw q h

  -- The action leaves the log as it is.
  abbrev pub Quiet : {A : Type 0} → Eff W A → Type 0
  Quiet m = (cs : List (Component F)) → Preserves (λ w. log w ≡ cs) m

  lift-Quiet : {A : Type 0} (r : Result A) → Quiet (lift r)
  lift-Quiet r cs w h = h

  >>=-Quiet :
      {A B : Type 0} (m : Eff W A) (f : A → Eff W B)
      → Quiet m
      → ((a : A) → Quiet (f a))
      → Quiet (m >>= f)
  >>=-Quiet m f h k cs = >>=-Preserves (λ w. log w ≡ cs) m f (h cs) (λ a. k a cs)

-- What is read of the log: the registration of a component appends it, and nothing else is written.
pub record Logs {W F K : Type 0} (koanf : Koanf W F K) (manager : Manager W F)
    (log : W → List (Component F)) : Type 0 where
  pub adds : (c : Component F) → Adds log (manager.add c) (c ∷ [])
  pub stat : (path : Text) → Quiet log (koanf.stat path)
  pub load_file : (k : K) (path : Text) → Quiet log (koanf.load_file k path)
  pub new_cert_watcher : (cert key : Text) → Quiet log (manager.new_cert_watcher cert key)
  pub new_manager : (options : ManagerOptions) → Quiet log (manager.new_manager options)
  pub start : Quiet log manager.start

module _ {W F K : Type 0} (floats : Floats F) (koanf : Koanf W F K) (decimal : ℕ → ℕ → F)
    (manager : Manager W F) (log : W → List (Component F)) (logs : Logs koanf manager log) where
  load_provider-Quiet :
      (provider : Option Text) (k : K) → Quiet log (load_provider koanf decimal provider k)
  unfolding load_provider
  load_provider-Quiet none k cs = λ w h. h
  load_provider-Quiet (some path) k cs = logs.load_file k path cs

  load_from-Quiet : (provider : Option Text) → Quiet log (load_from koanf decimal provider)
  unfolding load_from
  load_from-Quiet provider =
      >>=-Quiet log (lift (koanf.load_struct (default_config decimal))) _
        (lift-Quiet log (koanf.load_struct (default_config decimal)))
        (λ k.
          >>=-Quiet log (load_provider koanf decimal provider k) _ (load_provider-Quiet provider k)
            (λ l. lift-Quiet log (koanf.unmarshal l)))

  load_found-Quiet :
      (path : Text) (r : Result (Unit {0})) → Quiet log (load_found koanf decimal path r)
  unfolding load_found load_default
  load_found-Quiet path (ok u) cs = load_from-Quiet (some path) cs
  load_found-Quiet path (err e) cs = elim (Bool-cases (koanf.is_not_exist e)) [
    | inl q ↦ rw q (load_from-Quiet none cs)
    | inr q ↦ rw q (λ w h. h)
  ]

  load-Quiet : (path : Text) → Quiet log (load koanf decimal path)
  unfolding load
  load-Quiet path cs =
      attempt-Preserves (λ w. log w ≡ cs) (koanf.stat path) (load_found koanf decimal path)
        (logs.stat path cs) (λ r. load_found-Quiet path r cs)

  new_watcher-Quiet : (files : Option (Text × Text)) → Quiet log (new_watcher manager files)
  unfolding new_watcher
  new_watcher-Quiet none cs = λ w h. h
  new_watcher-Quiet (some (cert, key)) cs = logs.new_cert_watcher cert key cs

  pub prepare-Quiet : (flags : Flags) → Quiet log (prepare floats koanf decimal manager flags)
  unfolding prepare
  prepare-Quiet flags =
      >>=-Quiet log (load koanf decimal flags.config_path) _ (load-Quiet flags.config_path) (λ cfg.
        >>=-Quiet log (lift (manager.validate_struct cfg)) _
          (lift-Quiet log (manager.validate_struct cfg))
          (λ _.
            >>=-Quiet log
              (lift (no_error (validate floats cfg.image_last_monitor_age_minutes.legacy))) _
              (lift-Quiet log
                (no_error (validate floats cfg.image_last_monitor_age_minutes.legacy)))
              (λ _.
                >>=-Quiet log (new_watcher manager (cert_files flags.webhook_cert)) _
                  (new_watcher-Quiet (cert_files flags.webhook_cert))
                  (λ _.
                    >>=-Quiet log (new_watcher manager (cert_files flags.metrics_cert)) _
                      (new_watcher-Quiet (cert_files flags.metrics_cert))
                      (λ _.
                        >>=-Quiet log (manager.new_manager (manager_options flags)) _
                          (logs.new_manager (manager_options flags)) (λ _ cs w h. h))))))
