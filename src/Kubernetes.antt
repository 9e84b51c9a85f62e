-- ===== src/Kubernetes.antt =====
-- The parts of the Kubernetes API types (k8s.io/api, k8s.io/apimachinery) that the repository reads
-- or writes. They are declared outside the repository: these records hold the fields that it names.
-- A pointer is an `Option`, a slice a list (nil is the empty list), a map a dictionary.
use device_network.Prelude.{ℕ, String, Bool, Option, none, List, []}
use device_network.Prelude.Dict.{Dict}

-- resource.k8s.io/v1, the attributes, the capacity and the counters of an exposed device. A quantity
-- is its number.
pub record DeviceAttribute : Type 0 where
  pub string_value : Option String

pub record CapacityRequestPolicy : Type 0 where
  pub default : Option ℕ
  pub valid_values : List ℕ

pub record DeviceCapacity : Type 0 where
  pub value : ℕ
  pub request_policy : Option CapacityRequestPolicy

pub record DeviceCounterConsumption : Type 0 where
  pub counter_set : String
  pub counters : Dict ℕ

pub record Device : Type 0 where
  pub name : String
  pub attributes : Dict DeviceAttribute
  pub capacity : Dict DeviceCapacity
  pub consumes_counters : List DeviceCounterConsumption
  pub allow_multiple_allocations : Option Bool

pub record CounterSet : Type 0 where
  pub name : String
  pub counters : Dict ℕ

pub record ResourceSlice : Type 0 where
  pub driver : String
  pub pool : String
  pub devices : List Device

-- resource.k8s.io/v1, a claim and its status.
pub record DeviceRequestAllocationResult : Type 0 where
  pub request : String
  pub driver : String
  pub pool : String
  pub device : String
  pub share_id : Option String

pub record NetworkDeviceData : Type 0 where
  pub interface_name : String
  pub ips : List String
  pub hardware_address : String

-- metav1.Condition, without the time that the caller of the API fills in.
pub record Condition : Type 0 where
  pub type : String
  pub status : String
  pub reason : String
  pub message : String

-- `raw` is the JSON text of a `runtime.RawExtension`.
pub record RawExtension : Type 0 where
  pub raw : Option String

pub record AllocatedDeviceStatus : Type 0 where
  pub driver : String
  pub pool : String
  pub device : String
  pub share_id : Option String
  pub conditions : List Condition
  pub status_data : Option RawExtension
  pub network_data : Option NetworkDeviceData

pub record ResourceClaim : Type 0 where
  pub uid : String
  pub name : String
  pub namespace : String
  pub reserved_for : List String
  pub allocation : Option (List DeviceRequestAllocationResult)
  pub devices : List AllocatedDeviceStatus

-- core/v1, a node selector.
pub record NodeSelectorRequirement : Type 0 where
  pub key : String
  pub operator : String
  pub values : List String

pub record NodeSelectorTerm : Type 0 where
  pub match_expressions : List NodeSelectorRequirement
  pub match_fields : List NodeSelectorRequirement

pub record NodeSelector : Type 0 where
  pub node_selector_terms : List NodeSelectorTerm

pub record Node : Type 0 where
  pub name : String

-- A network interface with no address yet.
abbrev pub no_network_data : NetworkDeviceData
no_network_data = record { interface_name = ""; ips = []; hardware_address = "" }

-- `&resourcev1.Device{}` with its maps made.
abbrev pub empty_device : Device
empty_device = record {
  name = "";
  attributes = [];
  capacity = [];
  consumes_counters = [];
  allow_multiple_allocations = none;
}
