-- ===== src/Validation/Network/Accepts.antt =====
-- apis/v1alpha1/validation/validation.go: which DeviceNetworks pass validation.
use Prim.Native.String.{len}
use device_network.Prelude.{
  ◌≤◌, String, ◌≡◌, ◌≢◌, ◌↔◌, ◌⊎◌, Option, none, some, List, [], map, length, All, Distinct, In,
}
use device_network.Kubernetes.{NodeSelector}
use device_network.Api.{
  CelDeviceSelector, DeviceSelector, DeviceConfiguration, DeviceNetworkSpec, get_device_type,
  device_type_host_device, device_type_macvlan,
}
use device_network.Validation.{FieldPath}
use device_network.Validation.Kubernetes.{LabelValidators}
use device_network.Validation.Kubernetes.Accepts.{IsNodeSelector}
use device_network.Validation.Network.Names.{selector_names, used_names}

-- A selector is a CEL expression of at most 10 KiB.
abbrev pub IsCel : Option CelDeviceSelector → Type 0
IsCel none = ⊥
IsCel (some cel) = len cel.expression ≤ 10240

-- The settings agree with the device type.
abbrev pub HasMatchingType : DeviceConfiguration → Type 0
HasMatchingType dc =
    ((get_device_type dc ≡ device_type_host_device) × (dc.macvlan ≡ none))
    ⊎ ((get_device_type dc ≡ device_type_macvlan) × (dc.host_device ≡ none))

-- A configuration over the selectors of its network.
abbrev pub IsConfiguration : List DeviceSelector → DeviceConfiguration → Type 0
IsConfiguration ss dc =
    (dc.device_selectors ≢ [])
    × (((length dc.device_selectors ≤ 4)
          × All (λ name. In name (selector_names ss)) dc.device_selectors
          × Distinct (map (λ name. name) dc.device_selectors))
        × HasMatchingType dc)

module _ (v : LabelValidators) (IsLabelName : String → Type 0)
    (label_name_iff : (s : String) (p : FieldPath)
      → (v.validate_label_name s p ≡ []) ↔ IsLabelName s) where
  abbrev pub IsOptionalNodeSelector : Option NodeSelector → Type 0
  IsOptionalNodeSelector none = Unit
  IsOptionalNodeSelector (some ns) = IsNodeSelector v IsLabelName label_name_iff ns

  -- A selector, given the configurations of its network.
  abbrev pub IsDeviceSelector : List DeviceConfiguration → DeviceSelector → Type 0
  IsDeviceSelector cs ds =
      In ds.name (used_names cs)
      × (((length ds.selectors ≤ 1) × All (λ s. IsCel s.cel) ds.selectors)
          × IsOptionalNodeSelector ds.node_selector)

  -- A valid specification, in the source's words: see the theorem below.
  abbrev pub IsSpec : DeviceNetworkSpec → Type 0
  IsSpec spec =
      (spec.device_selectors ≢ [])
      × (((length spec.device_selectors ≤ 4)
            × All (IsDeviceSelector spec.device_configurations) spec.device_selectors
            × Distinct (selector_names spec.device_selectors))
          × ((spec.device_configurations ≢ [])
              × ((length spec.device_configurations ≤ 4)
                  × All (IsConfiguration spec.device_selectors) spec.device_configurations
                  × Distinct (map (λ c. c.name) spec.device_configurations))))
