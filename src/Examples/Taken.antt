-- ===== src/Examples/Taken.antt =====
-- What the published devices take of their counters, and what they resolve to, on the example.
use device_network.Prelude.{none, [], ◌∷◌, ◌≡◌, refl, inl, inr, ◌≢◌, arith}
use device_network.Kubernetes.{Device}
use device_network.Prelude.Dict.{lookup, insert}
use device_network.Prelude.{contains, include}
use device_network.Host.Cache.{list, apply_selectors}
use device_network.Configurators.HostDevice
use device_network.Configurators.Macvlan
use device_network.Cmd.{device_configurators}
use device_network.Api.{get_device_type, get_macvlan}
use device_network.Reconciler.{
  get_resources, publish_networks, publish_configurations, publish_configuration, publish_devices,
  expose, add_exposed, finish_device, device_name, applies_to_node, list_devices,
  device_for_selector, device_for_configuration, insert_devices, or_none, shared_counters,
}
use device_network.Reconciler.Origin.{Origin}
use device_network.Examples.Data.{
  reconciler, node, networks, network, eth0, eth1, whole, shared, all, platform, whole_eth0,
  shared_eth1,
}
use device_network.Reconciler.Exclusive.{exclusive, consumed, consumed-macvlan, takes}

abbrev empty : Device
empty = record {
  name = "";
  attributes = [];
  capacity = [];
  consumes_counters = [];
  allow_multiple_allocations = none;
}

of_whole : Origin reconciler node networks whole_eth0
unfolding get_resources publish_networks publish_configurations publish_configuration
    publish_devices expose add_exposed finish_device device_name applies_to_node list_devices
    device_for_selector device_for_configuration insert_devices or_none shared_counters list
    apply_selectors lookup insert device_configurators Macvlan.is_supported Macvlan.supports_device
    Macvlan.exposed_device Macvlan.configurator HostDevice.is_supported HostDevice.supports_device
    HostDevice.exposed_device HostDevice.configurator get_device_type get_macvlan
    Macvlan.macvlan_mode_map contains include
of_whole = record {
  network = network;
  configuration = whole;
  host = eth0;
  configurator = HostDevice.configurator platform _;
  exposed = record whole_eth0 { name = ""; attributes = [] };
  of_network = inl refl;
  of_configuration = inl refl;
  is_selected = record {
    selector = all;
    listed = inl refl;
    referred = inl refl;
    applies = refl;
    selects = inl refl;
  };
  of_type = refl;
  supported = refl;
  exposes = refl;
  finished = refl;
}

of_shared : Origin reconciler node networks shared_eth1
unfolding get_resources publish_networks publish_configurations publish_configuration
    publish_devices expose add_exposed finish_device device_name applies_to_node list_devices
    device_for_selector device_for_configuration insert_devices or_none shared_counters list
    apply_selectors lookup insert device_configurators Macvlan.is_supported Macvlan.supports_device
    Macvlan.exposed_device Macvlan.configurator HostDevice.is_supported HostDevice.supports_device
    HostDevice.exposed_device HostDevice.configurator get_device_type get_macvlan
    Macvlan.macvlan_mode_map contains include
of_shared = record {
  network = network;
  configuration = shared;
  host = eth1;
  configurator = Macvlan.configurator platform _;
  exposed = record shared_eth1 { name = ""; attributes = [] };
  of_network = inl refl;
  of_configuration = inr (inl refl);
  is_selected = record {
    selector = all;
    listed = inl refl;
    referred = inl refl;
    applies = refl;
    selects = inr (inl refl);
  };
  of_type = refl;
  supported = refl;
  exposes = refl;
  finished = refl;
}

exclusive_example : of_shared.host.name ≢ of_whole.host.name
unfolding get_device_type of_whole
exclusive_example =
    exclusive platform reconciler node networks refl whole_eth0 (shared_eth1 ∷ []) of_whole refl
      (unfold consumed takes lookup in omega arith) shared_eth1 (inl refl) of_shared

consumed-macvlan_example : consumed "eth1" (shared_eth1 ∷ shared_eth1 ∷ []) ≡ 2
unfolding get_device_type of_shared
consumed-macvlan_example =
    consumed-macvlan platform reconciler node networks refl "eth1" (shared_eth1 ∷ shared_eth1 ∷ [])
      ((of_shared, refl, refl), ((of_shared, refl, refl), tt))
