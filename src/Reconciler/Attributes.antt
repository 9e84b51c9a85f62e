-- ===== src/Reconciler/Attributes.antt =====
-- pkg/controllers/devicenetwork/reconciler.go: the attributes of a published device read back.
use device_network.Prelude.{◌≡◌, some, [], ◌∷◌, Distinct, contains, arith, eq_refl}
use device_network.Prelude.Dict.{lookup, lookup-insert}
use device_network.Kubernetes
use device_network.Api.{
  DeviceNetwork, DeviceConfiguration, StandardAttributes, attribute_device_configuration,
  attribute_host_device_name,
}
use device_network.Host
use device_network.Resolver.{string_of}
use device_network.Reconciler.{Reconciler, finish_device}

-- The four attributes that are read have different names.
abbrev pub AreDistinct : StandardAttributes → Type 0
AreDistinct a = Distinct (
    a.pod_network ∷ a.pod_network_kind ∷ attribute_device_configuration ∷ attribute_host_device_name
    ∷ [])

pub finished_attributes :
    (r : Reconciler) (n : DeviceNetwork) (dc : DeviceConfiguration) (host : Host.Device)
    (d : Kubernetes.Device)
    → AreDistinct r.attributes
    → let a = (finish_device r n dc host d).attributes in
      (string_of (lookup r.attributes.pod_network a) ≡ some n.name)
      × (string_of (lookup r.attributes.pod_network_kind a) ≡ some r.pod_network_kind)
      × (string_of (lookup attribute_device_configuration a) ≡ some dc.name)
      × (string_of (lookup attribute_host_device_name a) ≡ some host.name)
unfolding finish_device contains
finished_attributes r n dc host d u = (
  simp lookup-insert (ground (arith, eq_refl r.attributes.pod_network)),
  simp lookup-insert (ground (arith, eq_refl r.attributes.pod_network_kind)),
  simp lookup-insert (ground (arith, eq_refl attribute_device_configuration)),
  simp lookup-insert (ground (arith, eq_refl attribute_host_device_name)),
)
