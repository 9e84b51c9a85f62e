-- ===== src/Startup/Launched.antt =====
-- cmd/cmd/run.go: the start after the driver: the controller, the informers and the goroutines.
use device_network.Prelude.{◌≡◌, refl, ap, sym, subst, true, false, [], ◌∷◌, ◌++◌, String}
use device_network.Prelude.Triples.{Triple, then, wrapping, modifying, calling}
use device_network.Startup.{
  network_informer, node_informer, slice_informer, device_informer, Action, requested, handled,
  started, waited_for_cache, launched, waited_for_end, resolver, device_cache,
  device_network_controller, nri_plugin, Actions, Outside, act, attempt,
  new_device_network_controller, start_informers, launch_parts, run_with_driver,
}
use device_network.Startup.Ordered.{
  same_informer, starts_plugin, stops_plugin, has, allowed, IsOrdered,
}
use device_network.Startup.Driven.{IsReady, IsDriven}

-- The plugin runs, and all was in order.
pub record IsRunning (h : Actions) : Type 0 where
  pub ordered : IsOrdered h
  pub plugin_runs : has starts_plugin h ≡ true
  pub plugin_not_stopped : has stops_plugin h ≡ false

running :
    (a : Action) (h : Actions)
    → allowed a h ≡ true
    → starts_plugin a ≡ false
    → stops_plugin a ≡ false
    → IsRunning h
    → IsRunning (a ∷ h)
unfolding IsOrdered has
running a h may one two r = record {
  ordered = (may, r.ordered);
  plugin_runs = rw one (r.plugin_runs);
  plugin_not_stopped = rw two (r.plugin_not_stopped);
}

-- What is done after the driver was started, latest first.
abbrev with_controller : Actions
with_controller =
    handled device_informer
    ∷ handled network_informer
    ∷ requested node_informer
    ∷ requested network_informer
    ∷ []

abbrev with_informers : Actions
with_informers =
    waited_for_cache slice_informer
    ∷ waited_for_cache node_informer
    ∷ waited_for_cache network_informer
    ∷ started slice_informer
    ∷ started node_informer
    ∷ started network_informer
    ∷ with_controller

abbrev pub with_parts : Actions
with_parts =
    launched nri_plugin
    ∷ launched device_network_controller
    ∷ launched device_cache
    ∷ launched resolver
    ∷ with_informers

module _ (o : Outside) (driver_name node_name : String) where
  -- These actions were done after the driver was started.
  pub record Since (l h : Actions) : Type 0 where
    pub start : Actions
    pub split : h ≡ l ++ start
    pub driven : IsDriven o driver_name node_name start
    pub is_running : IsRunning h

  extended :
      (l : Actions) (a : Action) (h : Actions)
      → ((t : Actions) → IsReady t → allowed a (l ++ t) ≡ true)
      → starts_plugin a ≡ false
      → stops_plugin a ≡ false
      → Since l h
      → Since (a ∷ l) (a ∷ h)
  extended l a h may one two s = record {
    start = s.start;
    split = ap (λ x. a ∷ x) s.split;
    driven = s.driven;
    is_running =
        running a h (subst (λ x. allowed a x ≡ true) (sym s.split) (may s.start s.driven.ready)) one
          two s.is_running;
  }

  attempt-Since :
      (l : Actions) (a : Action) (message : String)
      → ((t : Actions) → IsReady t → allowed a (l ++ t) ≡ true)
      → starts_plugin a ≡ false
      → stops_plugin a ≡ false
      → Triple IsRunning (Since l) (attempt o a message) (Since (a ∷ l))
  attempt-Since l a message may one two =
      calling _ _ message (λ h s. (extended l a h may one two s).is_running)
        (λ h s. extended l a h may one two s)

  act-Since :
      (l : Actions) (a : Action)
      → ((t : Actions) → IsReady t → allowed a (l ++ t) ≡ true)
      → starts_plugin a ≡ false
      → stops_plugin a ≡ false
      → Triple IsRunning (Since l) (act a) (Since (a ∷ l))
  act-Since l a may one two =
      modifying _ (λ h s. (extended l a h may one two s).is_running)
        (λ h s. extended l a h may one two s)

  new_device_network_controller-Triple :
      Triple IsRunning (Since []) (new_device_network_controller o) (Since with_controller)
  unfolding new_device_network_controller allowed has same_informer
  new_device_network_controller-Triple = then (act-Since _ _ (λ t r. refl) refl refl) (
      then (act-Since _ _ (λ t r. refl) refl refl) (
        then (attempt-Since _ _ _ (λ t r. rw (r.network_waits) refl) refl refl) (
          attempt-Since _ _ _ (λ t r. rw (r.device_requested) (rw (r.device_waits) refl)) refl
            refl)))

  start_informers-Triple :
      Triple IsRunning (Since with_controller) start_informers (Since with_informers)
  unfolding start_informers allowed has same_informer
  start_informers-Triple = then (act-Since _ _ (λ t r. refl) refl refl) (
      then (act-Since _ _ (λ t r. refl) refl refl) (
        then (act-Since _ _ (λ t r. rw (r.slice_requested) refl) refl refl) (
          then (act-Since _ _ (λ t r. refl) refl refl) (
            then (act-Since _ _ (λ t r. refl) refl refl) (act-Since _ _ (λ t r. refl) refl refl)))))

  launch_parts-Triple : Triple IsRunning (Since with_informers) launch_parts (Since with_parts)
  unfolding launch_parts allowed has same_informer
  launch_parts-Triple = then (act-Since _ _ (λ t r. rw (r.plugin_runs) refl) refl refl) (
      then (act-Since _ _ (λ t r. rw (r.plugin_runs) refl) refl refl) (
        then (act-Since _ _ (λ t r. rw (r.plugin_runs) refl) refl refl)
          (act-Since _ _ (λ t r. rw (r.plugin_runs) refl) refl refl)))

  pub run_with_driver-Triple :
      Triple IsRunning (Since []) (run_with_driver o) (Since (waited_for_end ∷ with_parts))
  unfolding run_with_driver allowed
  run_with_driver-Triple = then (wrapping _ new_device_network_controller-Triple) (
      then start_informers-Triple
        (then launch_parts-Triple (act-Since _ _ (λ t r. refl) refl refl)))
