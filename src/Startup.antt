-- ===== src/Startup.antt =====
-- cmd/cmd/run.go, with the constructors that it calls (pkg/resolver/resolver.go: NewResolver,
-- pkg/driver/driver.go: Start, Stop, pkg/controllers/devicenetwork/devicenetwork.go:
-- NewDeviceNetworkController): the start of the program. What is done is recorded, latest first; what the
-- goroutines do is modelled elsewhere.
pub mod Ordered
pub mod Prepared
pub mod Driven
pub mod Launched
pub mod Runs
use device_network.Prelude.{ℕ, String, Bool, true, false, Option, none, some, List, [], ◌∷◌}
use device_network.Prelude.Results.{Result, ok, err, panic, unfinished}
use device_network.Prelude.Exec.{Exec, ◌>>=◌, ◌>>◌, pure, modify, gets, guarded, wrapped}

-- The informers: of the three factories, and of the device cache.
pub data Informer : Type 0 where
  network_informer node_informer slice_informer device_informer : Informer

pub data Client : Type 0 where
  device_network_client kube_client : Client

-- What runs in a goroutine.
pub data Part : Type 0 where
  resolver device_cache device_network_controller nri_plugin : Part

pub data Action : Type 0 where
  read_config : Action
  made_client : Client → Action
  -- `Informer()` or `Lister()`: the factory will start this informer.
  requested : Informer → Action
  indexed handled : Informer → Action
  made_directory : String → Action
  -- The driver's name, and the node's.
  started_plugin : String → String → Action
  asked_registration : Action
  started : Informer → Action
  -- `WaitForCacheSync`, whose answer is not looked at.
  waited_for_cache : Informer → Action
  launched : Part → Action
  -- `<-ctx.Done()`
  waited_for_end : Action
  stopped_plugin : Action

abbrev pub Actions : Type 0
Actions = List Action

pub record Outside : Type 0 where
  -- Whether a call succeeds.
  pub succeeds : Actions → Action → Bool
  -- `RegistrationStatus().PluginRegistered`, if there is a status.
  pub registration_status : Actions → Option Bool
  -- path/filepath: Join
  pub join : List String → String
  -- k8s.io/apimachinery/pkg/util/wait: PollUntilContextTimeout
  pub poll_until : Exec Actions Bool → Exec Actions (Unit {0})

pub record RunOptions : Type 0 where
  pub plugin_name : String
  pub plugin_index : String
  pub pod_network_kind : String
  pub dra_driver_name : String
  pub node_name : String
  pub verbosity : ℕ

-- The defaults of the flags.
pub new_run_options : RunOptions
new_run_options = record {
  plugin_name = "devicenetwork";
  plugin_index = "";
  pod_network_kind = "devicenetwork-io-devicenetwork";
  dra_driver_name = "devicenetwork.io";
  node_name = "";
  verbosity = 0;
}

abbrev pub act : Action → Exec Actions (Unit {0})
act a = modify (λ h. a ∷ h)

-- `NewDeviceCache`: it has no error.
unfoldable pub new_device_cache : Exec Actions (Unit {0})
new_device_cache = act (requested device_informer)

unfoldable pub start_informers : Exec Actions (Unit {0})
start_informers = do
  act (started network_informer)
  act (started node_informer)
  act (started slice_informer)
  act (waited_for_cache network_informer)
  act (waited_for_cache node_informer)
  act (waited_for_cache slice_informer)

unfoldable pub launch_parts : Exec Actions (Unit {0})
launch_parts = do
  act (launched resolver)
  act (launched device_cache)
  act (launched device_network_controller)
  act (launched nri_plugin)

-- `defer draDriver.Stop()`
unfoldable pub stop_driver : Actions → Actions
stop_driver h = stopped_plugin ∷ h

abbrev pub stopping : Exec Actions (Unit {0}) → Exec Actions (Unit {0})
stopping m h = let (r, t) = m h in (r, stop_driver t)

module _ (o : Outside) where
  abbrev pub attempt : Action → String → Exec Actions (Unit {0})
  attempt a message = do r ← gets (λ h. o.succeeds h a); act a; guarded r message

  unfoldable pub new_resolver : Exec Actions (Unit {0})
  new_resolver = do
    act (requested slice_informer)
    act (requested network_informer)
    attempt (indexed slice_informer) "failed to add indexer for PodNetworkKind"

  -- The condition of the poll.
  unfoldable pub is_registered : Exec Actions Bool
  is_registered = do
    act asked_registration
    status ← gets o.registration_status
    elim status [ none ↦ pure false | some registered ↦ pure registered ]

  unfoldable pub start_driver : String → String → Exec Actions (Unit {0})
  start_driver driver_name node_name = do
    attempt (made_directory (o.join ("/var/lib/kubelet/plugins/" ∷ driver_name ∷ [])))
        "failed to create plugin path"
    attempt (started_plugin driver_name node_name) "start kubelet plugin"
    o.poll_until is_registered

  unfoldable pub new_device_network_controller : Exec Actions (Unit {0})
  new_device_network_controller = do
    act (requested network_informer)
    act (requested node_informer)
    attempt (handled network_informer) "failed to add event handler"
    attempt (handled device_informer) "failed to add event handler"

  -- From the deferred `Stop` on.
  unfoldable pub run_with_driver : Exec Actions (Unit {0})
  run_with_driver = do
    wrapped "failed to create device network controller" new_device_network_controller
    start_informers
    launch_parts
    act waited_for_end

  unfoldable pub run : RunOptions → Exec Actions (Unit {0})
  run ro = do
    attempt read_config "failed to InClusterConfig"
    attempt (made_client device_network_client) "failed to NewForConfig"
    attempt (made_client kube_client) "failed to NewForConfig"
    wrapped "failed to create device cache" new_device_cache
    wrapped "failed to create resolver" new_resolver
    wrapped "failed to dra.Start" (start_driver ro.dra_driver_name ro.node_name)
    stopping run_with_driver
