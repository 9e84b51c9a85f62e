-- ===== src/Examples/Network.antt =====
-- A concrete host with two devices, and a network.
use device_network.Prelude.{ℕ, String, false, none, some, [], ◌∷◌}
use device_network.Api.{
  DeviceNetwork, DeviceConfiguration, DeviceSelector, device_type_macvlan, macvlan_mode_bridge,
}
use device_network.Host
use device_network.Host.Cache.{DeviceCache}
use device_network.Host.Rdma.{FileSystem, entries}

abbrev pub no_files : FileSystem
no_files = record { join = λ parts. ""; read_dir = λ path. entries [] }

-- An Ethernet device with neither parent nor master.
abbrev pub ethernet : String → ℕ → Host.Device
ethernet name index = record {
  name = name;
  spec = record {
    interface_name = name;
    interface_index = index;
    rdma_capable = false;
    parent_index = 0;
    master_index = 0;
    link_layer_type = "ether";
    device_type = "device";
  };
}

abbrev pub eth0 : Host.Device
eth0 = ethernet "eth0" 2

abbrev pub eth1 : Host.Device
eth1 = ethernet "eth1" 3

abbrev pub cache : DeviceCache
cache = record {
  snapshot = ("eth0", eth0) ∷ ("eth1", eth1) ∷ [];
  store = ("eth0", eth0) ∷ ("eth1", eth1) ∷ [];
  broadcast = [];
}

abbrev pub whole : DeviceConfiguration
whole = record {
  name = "whole";
  device_selectors = "all" ∷ [];
  device_type = none;
  macvlan = none;
  host_device = none;
}

abbrev pub shared : DeviceConfiguration
shared = record {
  name = "shared";
  device_selectors = "all" ∷ [];
  device_type = some device_type_macvlan;
  macvlan = some (record { mode = some macvlan_mode_bridge });
  host_device = none;
}

abbrev pub all : DeviceSelector
all = record { name = "all"; selectors = []; node_selector = none }

abbrev pub network : DeviceNetwork
network = record {
  name = "blue";
  spec = record {
    device_selectors = all ∷ [];
    device_configurations = whole ∷ shared ∷ [];
    network_interface_configuration = record { ipam = [] };
  };
}
