-- ===== src/Examples/Configured.antt =====
-- Devices are configured, and supported, on the example.
use device_network.Prelude.{String, Option, none, some, [], ◌∷◌, ◌≡◌, refl, true, ◌↔◌}
use device_network.Prelude.Results.{ok}
use device_network.Prelude.Dict.{lookup}
use device_network.Kubernetes.{AllocatedDeviceStatus, no_network_data}
use device_network.Api.{get_device_type, get_macvlan, device_type_host_device, device_type_macvlan}
use device_network.Platform.{
  History, opened_ns, closed_ns, found_link, moved_link, added_link, mode_bridge,
}
use device_network.Platform.Calls.{IsBalanced}
use device_network.Configurators.HostDevice
use device_network.Configurators.HostDevice.Configures as HostDeviceConfigures
use device_network.Configurators.HostDevice.Configures.{configure_host_device-IsBalanced}
use device_network.Configurators.HostDevice.Support.{IsMovable, is_supported-HostDevice}
use device_network.Configurators.Macvlan
use device_network.Configurators.Macvlan.Configures as MacvlanConfigures
use device_network.Configurators.Macvlan.Configures.{
  configure_macvlan-IsConfigured, configure_macvlan-IsBalanced,
}
use device_network.Configurators.Macvlan.Support.{mode_of, IsMode, is_supported-Macvlan}
use device_network.Examples.Data.{platform, eth0, whole, shared}

abbrev status_of : String → AllocatedDeviceStatus
status_of raw = record {
  driver = "driver";
  pool = "node0";
  device = "device";
  share_id = none;
  conditions = [];
  status_data = some (record { raw = some raw });
  network_data = some (record no_network_data { interface_name = "eth0" });
}

abbrev host_device : HostDevice.HostDevice
host_device = record { sysfs_net_root = ""; common_configurator = none }

abbrev macvlan : Macvlan.Macvlan
macvlan = record { common_configurator = none }

abbrev moved : History
moved = closed_ns 3 ∷ moved_link 2 3 ∷ found_link "eth0" ∷ opened_ns "/ns" ∷ []

configure_host_device-IsBalanced_example :
    IsBalanced platform "/ns" []
      (HostDevice.configure platform host_device "/ns" (some (status_of "whole")) []).1
configure_host_device-IsBalanced_example =
    configure_host_device-IsBalanced platform host_device "/ns" (status_of "whole") []

abbrev linked : History
linked =
    closed_ns 3
    ∷ added_link (record { name = "eth0"; parent_index = 2; namespace = 3; mode = mode_bridge })
    ∷ opened_ns "/ns"
    ∷ []

links :
    Macvlan.configure platform macvlan "/ns" (some (status_of "shared")) []
    ≡ (ok (some (status_of "shared")), linked)
unfolding Macvlan.configure Macvlan.add_link Macvlan.macvlan_mode_map lookup get_device_type
    get_macvlan
links = refl

configure_macvlan-IsConfigured_example :
    (◌≡◌ {A = Option AllocatedDeviceStatus} (some (status_of "shared")) (some (status_of "shared")))
    × MacvlanConfigures.IsConfigured platform "/ns" (status_of "shared") [] linked
configure_macvlan-IsConfigured_example =
    configure_macvlan-IsConfigured platform macvlan "/ns" (status_of "shared") []
      {out = some (status_of "shared")} {t = linked} links

configure_macvlan-IsBalanced_example :
    IsBalanced platform "/ns" []
      (Macvlan.configure platform macvlan "/ns" (some (status_of "shared")) []).1
configure_macvlan-IsBalanced_example =
    configure_macvlan-IsBalanced platform macvlan "/ns" (status_of "shared") []

is_supported-HostDevice_example :
    (HostDevice.is_supported (some eth0) (some whole) ≡ ok true)
    ↔ ((get_device_type whole ≡ device_type_host_device) × IsMovable eth0.spec)
is_supported-HostDevice_example = is_supported-HostDevice eth0 whole

is_supported-Macvlan_example : (Macvlan.is_supported (some eth0) (some shared) ≡ ok true) ↔ (
    (get_device_type shared ≡ device_type_macvlan)
    × IsMode (mode_of shared.macvlan)
    × (eth0.spec.link_layer_type ≡ "ether")
    × (eth0.spec.master_index ≡ 0))
is_supported-Macvlan_example = is_supported-Macvlan eth0 shared
