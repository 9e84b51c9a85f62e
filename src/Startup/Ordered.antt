-- ===== src/Startup/Ordered.antt =====
-- cmd/cmd/run.go: the order of the start: what must have been done before an action, and what must
-- not.
use device_network.Prelude.{◌≡◌, Bool, true, false, not, ◌&&◌, ◌||◌, [], ◌∷◌}
use device_network.Startup.{
  Informer, network_informer, node_informer, slice_informer, device_informer, Action, requested,
  indexed, handled, started_plugin, started, waited_for_cache, launched, stopped_plugin, Actions,
}

unfoldable pub same_informer : Informer → Informer → Bool
same_informer network_informer network_informer = true
same_informer node_informer node_informer = true
same_informer slice_informer slice_informer = true
same_informer device_informer device_informer = true
same_informer _ _ = false

abbrev pub requests : Informer → Action → Bool
requests i (requested j) = same_informer i j
requests i _ = false

abbrev pub starts : Informer → Action → Bool
starts i (started j) = same_informer i j
starts i _ = false

abbrev pub waits_for_cache : Informer → Action → Bool
waits_for_cache i (waited_for_cache j) = same_informer i j
waits_for_cache i _ = false

abbrev pub starts_plugin : Action → Bool
starts_plugin (started_plugin driver_name node_name) = true
starts_plugin _ = false

abbrev pub stops_plugin : Action → Bool
stops_plugin stopped_plugin = true
stops_plugin _ = false

unfoldable pub has : (Action → Bool) → Actions → Bool
has test [] = false
has test (a ∷ h) = test a || has test h

-- Indexers and handlers are added to informers that are requested and do not run yet; a factory starts what was
-- requested; the parts are launched after the waits for the informers' caches, with the plugin there; the plugin is
-- stopped once.
unfoldable pub allowed : Action → Actions → Bool
allowed (indexed i) h = has (requests i) h && not (has (starts i) h)
allowed (handled i) h = has (requests i) h && not (has (starts i) h)
allowed (started i) h = has (requests i) h
allowed (waited_for_cache i) h = has (starts i) h
allowed (launched p) h =
    (has (waits_for_cache network_informer) h
      && (has (waits_for_cache node_informer) h && has (waits_for_cache slice_informer) h))
    && has starts_plugin h
allowed stopped_plugin h = has starts_plugin h && not (has stops_plugin h)
allowed _ h = true

unfoldable pub IsOrdered : Actions → Type 0
IsOrdered [] = Unit
IsOrdered (a ∷ h) = (allowed a h ≡ true) × IsOrdered h
