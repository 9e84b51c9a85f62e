-- ===== src/Nri/Process.antt =====
-- pkg/nri/process.go: the configuration of a pod's claims.
use device_network.Prelude.{
  String, ◌==◌, Bool, true, false, Option, none, some, List, [], ◌∷◌, if◌then◌else◌,
}
use device_network.Prelude.Results.{Result, ok, err, panic, unfinished}
use device_network.Prelude.Exec.{◌>>=◌, ◌>>◌, pure, wrapped, required_ptr}
use device_network.Prelude.Dict.{lookup}
use device_network.Kubernetes.{ResourceClaim, AllocatedDeviceStatus, RawExtension}
use device_network.Api.{get_device_type}
use device_network.Platform.{Platform, Sys, History}
use device_network.Configurators.{Configurators}

-- The channel `done` of a process: nil before its goroutine has begun, then open, then closed.
pub data Done : Type 0 where
  unset opened closed : Done

pub record ConfigurationProcess : Type 0 where
  pub pod_network_namespace : String
  -- The claims that are not configured yet.
  pub claims : List ResourceClaim
  pub done : Done
  -- The field `cancel` is set.
  pub cancel : Bool
  -- The goroutine's context is cancelled.
  pub cancelled : Bool

unfoldable pub new_configuration_process : String → List ResourceClaim → ConfigurationProcess
new_configuration_process namespace claims = record {
  pod_network_namespace = namespace;
  claims = claims;
  done = unset;
  cancel = false;
  cancelled = false;
}

unfoldable pub is_done : ConfigurationProcess → Bool
is_done cp = elim cp.done [ unset ↦ true | opened ↦ false | closed ↦ true ]

-- The first part of `terminate`: the context is cancelled, if there is one.
unfoldable pub request_stop : ConfigurationProcess → ConfigurationProcess
request_stop cp =
    if cp.cancel
    then record cp { cancel = false; cancelled = true }
    else record cp { cancel = false }

-- `<-done` returns: the channel is nil, so that there is no wait, or closed.
unfoldable pub may_proceed : ConfigurationProcess → Bool
unfolding is_done
may_proceed cp = is_done cp

abbrev raw_of : Option RawExtension → Option String
raw_of none = none
raw_of (some r) = r.raw

-- `run`, at its start: the context and the channel are made.
unfoldable pub begin_run : ConfigurationProcess → ConfigurationProcess
begin_run cp = record cp { done = opened; cancel = true; cancelled = false }

-- The deferred end of `run`: the channel is closed, then `terminate` finds it closed.
unfoldable pub end_run : ConfigurationProcess → ConfigurationProcess
unfolding request_stop
end_run cp = request_stop (record cp { done = closed })

-- The process goes on with the claims that are left.
abbrev pub after_claim :
    ConfigurationProcess → List ResourceClaim → Result (Unit {0}) → Result ConfigurationProcess
after_claim cp rest (ok a) = ok (record cp { claims = rest })
after_claim cp rest (err e) = ok (record cp { claims = rest })
after_claim cp rest panic = panic
after_claim cp rest unfinished = unfinished

module _ (p : Platform) (driver_name : String) (configurators : Configurators) where
  -- One device of a claim.
  unfoldable pub configure_device : String → AllocatedDeviceStatus → Sys (Unit {0})
  configure_device namespace status = do
    raw ← required_ptr (raw_of status.status_data) "device status data is nil for device in claim"
    content ← required_ptr (p.unmarshal raw) "failed to unmarshal allocated device status data"
    dc ←
        required_ptr content.device_configuration
          "device configuration is nil in resource claim device status data"
    configurator ←
        required_ptr (lookup (get_device_type dc) configurators)
          "no configurator found for device type"
    r ← wrapped "failed to configure device" (configurator.configure namespace (some status))
    pure tt

  -- The loop over the devices of a claim: the first error ends it.
  unfoldable pub configure_devices : String → List AllocatedDeviceStatus → Sys (Unit {0})
  configure_devices namespace [] = pure tt
  configure_devices namespace (status ∷ rest) =
      let others = configure_devices namespace rest in
      if status.driver == driver_name
      then (do configure_device namespace status; others)
      else others

  unfoldable pub configure_resource_claim : String → ResourceClaim → Sys (Unit {0})
  configure_resource_claim namespace claim = configure_devices namespace claim.devices

  -- One round of the loop over the claims: an error is logged only, a panic ends the program.
  unfoldable pub run_claim :
      ConfigurationProcess
      → ResourceClaim
      → List ResourceClaim
      → History
      → Result ConfigurationProcess × History
  run_claim cp claim rest h =
      let (r, t) = configure_resource_claim cp.pod_network_namespace claim h in
      (after_claim cp rest r, t)
