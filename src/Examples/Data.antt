-- ===== src/Examples/Data.antt =====
-- A concrete system, reconciler, driver and claim, on which the theorems are applied.
use device_network.Prelude.{String, ◌==◌, true, false, Option, none, some, List, [], ◌∷◌}
use device_network.Prelude.Results.{Result, ok, err}
use device_network.Prelude.Dict.{Dict}
use device_network.Kubernetes.{
  Node, ResourceClaim, Device, DeviceAttribute, DeviceRequestAllocationResult,
}
use device_network.Api.{DeviceNetwork, StandardAttributes}
use device_network.Host.Filter.{Cel, truth}
use device_network.Platform.{Platform, IpNet}
use device_network.Cmd.{device_configurators}
use device_network.Resolver
use device_network.Driver.{Driver, NodeState}
use device_network.Reconciler.{Reconciler, DriverResources}
pub use device_network.Examples.Network.{
  no_files, ethernet, eth0, eth1, cache, whole, shared, all, network,
}
use device_network.Examples.Codec.{encode, decode}

-- An expression of CEL that is true of every device; no other compiles.
abbrev pub always : Cel
always = record {
  Env = Unit {0};
  Ast = Unit {0};
  Program = Unit {0};
  new_env = λ vars. ok tt;
  compile = λ env e. (elim (e == "true") [ true ↦ ok tt | false ↦ err "undeclared reference" ]);
  program = λ env ast. ok tt;
  context_eval = λ p vars. ok (truth true);
}

abbrev pub net : IpNet
net = record { ip = 10 ∷ 0 ∷ 0 ∷ 0 ∷ []; mask = 255 ∷ 255 ∷ 255 ∷ 0 ∷ [] }

-- A system on which every call succeeds.
abbrev pub platform : Platform
platform = record {
  int_n = λ h. 7;
  ns_from_path = λ h path. some 3;
  files = λ h. no_files;
  rdma_link_by_name = λ h name. some 1;
  rdma_link_set_ns_fd = λ h link ns. true;
  link_by_name = λ h name. some 2;
  link_set_ns_fd = λ h link ns. true;
  link_add = λ h link. true;
  apply_status = λ h name namespace devices manager. some (record {
    uid = "uid";
    name = name;
    namespace = namespace;
    reserved_for = "pod" ∷ [];
    allocation = none;
    devices = devices;
  });
  set_status_condition = λ cs c. c ∷ cs;
  marshal = λ x. encode x.pod_network x.device_configuration x.device;
  unmarshal = decode;
  parse_cidr = λ s. some net;
  mask_size = λ mask. (24, 32);
  ip_string = λ ip. "";
  decimal = λ n. "24";
  hex = λ bytes. "";
  rounds = 1;
}

abbrev pub attributes : StandardAttributes
attributes = record { pod_network = "podNetwork"; pod_network_kind = "podNetworkKind" }

abbrev pub reconciler : Reconciler
reconciler = record {
  pod_network_kind = "DeviceNetwork";
  device_cache = cache;
  device_configurators = device_configurators platform;
  attributes = attributes;
  cel = always;
  match_node_selector_terms = λ node ns. ok true;
  device_order = λ ds. ds;
  entry_order = λ m. m;
  name_order = λ names. names;
}

abbrev pub node : Node
node = record { name = "node0" }

abbrev pub result_of : String → DeviceRequestAllocationResult
result_of device = record {
  request = "net";
  driver = "driver";
  pool = "node0";
  device = device;
  share_id = none;
}

abbrev pub attributes_of : String → String → String → Dict DeviceAttribute
attributes_of type name host =
    ("devicenetwork.io/deviceType", record { string_value = some type })
    ∷ ("podNetwork", record { string_value = some "blue" })
    ∷ ("podNetworkKind", record { string_value = some "DeviceNetwork" })
    ∷ ("devicenetwork.io/deviceConfiguration", record { string_value = some name })
    ∷ ("devicenetwork.io/hostDeviceName", record { string_value = some host })
    ∷ []

abbrev pub whole_device : String → String → Device
whole_device name host = record {
  name = name;
  attributes = attributes_of "HostDevice" "whole" host;
  capacity = [];
  consumes_counters =
      record { counter_set = host; counters = ("mutual-exclusion", 65536) ∷ [] } ∷ [];
  allow_multiple_allocations = some false;
}

abbrev pub shared_device : String → String → Device
shared_device name host = record {
  name = name;
  attributes = attributes_of "Macvlan" "shared" host;
  capacity =
      (
        "devicenetwork.io/maxVirtualInterfaces",
        record {
          value = 65535;
          request_policy = some (record { default = some 1; valid_values = 1 ∷ [] });
        },
      )
      ∷ [];
  consumes_counters = record { counter_set = host; counters = ("mutual-exclusion", 1) ∷ [] } ∷ [];
  allow_multiple_allocations = some true;
}

abbrev pub whole_eth0 : Device
whole_eth0 = whole_device "blue-whole-eth0" "eth0"

abbrev pub shared_eth1 : Device
shared_eth1 = shared_device "blue-shared-eth1" "eth1"

-- What the node publishes.
abbrev pub devices : List Device
devices =
    whole_eth0
    ∷ whole_device "blue-whole-eth1" "eth1"
    ∷ shared_device "blue-shared-eth0" "eth0"
    ∷ shared_eth1
    ∷ []

abbrev pub resources : DriverResources
resources = record {
  pools =
      (
        "node0",
        record { devices = devices; shared_counters = [] }
            ∷ record {
              devices = [];
              shared_counters =
                  record { name = "eth1"; counters = ("mutual-exclusion", 65536) ∷ [] }
                  ∷ record { name = "eth0"; counters = ("mutual-exclusion", 65536) ∷ [] }
                  ∷ [];
            }
            ∷ [],
      )
      ∷ [];
}

abbrev pub networks : List DeviceNetwork
networks = network ∷ []

-- A resolver that answers for the result that it is asked for.
abbrev answer : Option DeviceRequestAllocationResult → Result (Option Resolver.Device)
answer result = ok (
    some (record {
      device_request_allocation_result = result;
      device_network = some network;
      device_configuration = some whole;
      exposed_device = some whole_eth0;
      host_device = some eth0;
    }))

abbrev pub driver : Driver
driver = record {
  pod_network_kind = "DeviceNetwork";
  driver_name = "driver";
  device_configurators = device_configurators platform;
  get_device = answer;
}

-- Two results of an allocation, one for another driver.
abbrev pub results : List DeviceRequestAllocationResult
results = record (result_of "gpu0") { driver = "gpu" } ∷ result_of "blue-whole-eth0" ∷ []

abbrev pub claim : ResourceClaim
claim = record {
  uid = "uid";
  name = "claim";
  namespace = "default";
  reserved_for = "pod" ∷ [];
  allocation = some results;
  devices = [];
}

abbrev pub start : NodeState
start = record { history = []; pod_resource_store = record { pod_resources = [] } }
