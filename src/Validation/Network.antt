-- ===== src/Validation/Network.antt =====
-- apis/v1alpha1/validation/validation.go: validation of a DeviceNetwork.
pub mod Accepts
pub mod Names
use Prim.Native.String.{len}
use device_network.Prelude.{
  String, ◌==◌, false, Option, none, some, List, [], ◌∷◌, ◌++◌, is_empty, ltb, if◌then◌else◌,
  contains, include,
}
use device_network.Kubernetes.{NodeSelector}
use device_network.Api.{
  Selector, CelDeviceSelector, DeviceSelector, DeviceConfiguration, DeviceNetworkSpec,
  DeviceNetwork, get_device_type, device_type_host_device, device_type_macvlan,
  device_selector_max_size, device_configuration_max_size, selector_per_device_selector_max_size,
  selector_per_device_configuration_max_size, cel_selector_expression_max_length,
}
use device_network.Validation.{
  FieldPath, child, ErrorList, field_error, required, forbidden, invalid, not_found, too_long,
  nonneg, validate_set, validate_slice,
}
use device_network.Validation.Kubernetes.{LabelValidators, validate_node_selector}

-- The sets that the two loops collect.
list_selector_names_from : List String → List DeviceSelector → List String
list_selector_names_from names [] = names
list_selector_names_from names (s ∷ ss) = list_selector_names_from (include s.name names) ss

pub list_selector_names : List DeviceSelector → List String
list_selector_names ss = list_selector_names_from [] ss

insert_all : List String → List String → List String
insert_all names [] = names
insert_all names (n ∷ ns) = insert_all (include n names) ns

list_used_selector_names_from : List String → List DeviceConfiguration → List String
list_used_selector_names_from names [] = names
list_used_selector_names_from names (c ∷ cs) =
    list_used_selector_names_from (insert_all names c.device_selectors) cs

pub list_used_selector_names : List DeviceConfiguration → List String
list_used_selector_names cs = list_used_selector_names_from [] cs

pub validate_cel_selector : CelDeviceSelector → FieldPath → ErrorList
validate_cel_selector cel path =
    if ltb cel_selector_expression_max_length (len cel.expression)
    then field_error too_long (child "expression" ∷ path) "" ∷ []
    else []

-- `selector.CEL` is required.
cel_errors : Option CelDeviceSelector → FieldPath → ErrorList
cel_errors none path = field_error required path "" ∷ []
cel_errors (some cel) path = validate_cel_selector cel path

pub validate_selector : Selector → FieldPath → ErrorList
validate_selector selector path = cel_errors selector.cel (child "cel" ∷ path)

-- A name that a configuration refers to.
validate_reference : List String → String → FieldPath → ErrorList
validate_reference selectors name path =
    if contains name selectors then [] else field_error not_found path name ∷ []

forbid {ℓ} : {A : Type ℓ} → Option A → FieldPath → String → ErrorList
forbid none path detail = []
forbid (some a) path detail = field_error forbidden path detail ∷ []

-- The switch on the device type.
device_type_errors : DeviceConfiguration → FieldPath → ErrorList
device_type_errors dc path =
    if get_device_type dc == device_type_host_device
    then forbid dc.macvlan (child "macvlan" ∷ path)
        "macvlan configuration is not allowed when deviceType is HostDevice"
    else (if get_device_type dc == device_type_macvlan
        then forbid dc.host_device (child "hostDevice" ∷ path)
            "hostDevice configuration is not allowed when deviceType is Macvlan"
        else field_error invalid (child "deviceType" ∷ path) "unsupported device type" ∷ [])

pub validate_device_configuration : List String → DeviceConfiguration → FieldPath → ErrorList
validate_device_configuration selectors dc path =
    (if is_empty dc.device_selectors
      then field_error required (child "deviceSelectors" ∷ path)
          "must reference at least one device selector"
        ∷ []
      else [])
    ++ (validate_set dc.device_selectors (nonneg selector_per_device_configuration_max_size)
          (validate_reference selectors) (λ name. name) (child "deviceSelectors" ∷ path) []
        ++ device_type_errors dc path)

module _ (v : LabelValidators) where
  node_selector_errors : Option NodeSelector → FieldPath → ErrorList
  node_selector_errors none path = []
  node_selector_errors (some ns) path =
      validate_node_selector v ns false (child "nodeSelector" ∷ path)

  pub validate_device_selector : List String → DeviceSelector → FieldPath → ErrorList
  validate_device_selector used_selectors ds path =
      (if contains ds.name used_selectors
        then []
        else field_error forbidden path
            "device selector must be referenced by at least one device configuration"
          ∷ [])
      ++ (validate_slice ds.selectors (nonneg selector_per_device_selector_max_size)
            validate_selector (child "selectors" ∷ path) []
          ++ node_selector_errors ds.node_selector path)

  pub validate_device_network_spec : DeviceNetworkSpec → FieldPath → ErrorList
  validate_device_network_spec spec path =
      (if is_empty spec.device_selectors
        then field_error forbidden (child "deviceSelectors" ∷ path)
            "must have at least one device selector"
          ∷ []
        else [])
      ++ (validate_set spec.device_selectors (nonneg device_selector_max_size)
            (validate_device_selector (list_used_selector_names spec.device_configurations))
            (λ s. s.name) (child "deviceSelectors" ∷ path) []
          ++ ((if is_empty spec.device_configurations
                then field_error forbidden (child "deviceConfigurations" ∷ path)
                    "must have at least one device configuration"
                  ∷ []
                else [])
              ++ validate_set spec.device_configurations (nonneg device_configuration_max_size)
                  (validate_device_configuration (list_selector_names spec.device_selectors))
                  (λ c. c.name) (child "deviceConfigurations" ∷ path) []))

  pub validate_device_network : DeviceNetwork → ErrorList
  validate_device_network dn = validate_device_network_spec dn.spec (child "spec" ∷ [])
