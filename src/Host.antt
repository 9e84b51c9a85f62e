-- ===== src/Host.antt =====
-- pkg/host: the devices of the host (types.go), their selection by CEL (filter.go) and their RDMA
-- devices (rdma.go). The kind of an object is a constant and is left out, and so is all of the
-- metadata but the name. The kernel's interface indices are never negative.
pub mod Filter
pub mod Rdma
pub mod Cache
use device_network.Prelude.{
  ℕ, String, ◌==◌, eq_iff, ◌≡◌, refl, ◌↔◌, Bool, true, false, ◌&&◌, eqb, arith, List,
}

pub record DeviceSpec : Type 0 where
  pub interface_name : String
  pub interface_index : ℕ
  pub rdma_capable : Bool
  pub parent_index : ℕ
  pub master_index : ℕ
  pub link_layer_type : String
  pub device_type : String

pub record Device : Type 0 where
  pub name : String
  pub spec : DeviceSpec

pub record DeviceList : Type 0 where
  pub items : List Device

-- Go's `==` on two specifications.
same_bool : Bool → Bool → Bool
same_bool true b = b
same_bool false true = false
same_bool false false = true

unfoldable pub same_spec : DeviceSpec → DeviceSpec → Bool
unfolding same_bool
same_spec a b =
    a.interface_name == b.interface_name
    && (eqb a.interface_index b.interface_index
        && (same_bool a.rdma_capable b.rdma_capable
            && (eqb a.parent_index b.parent_index
                && (eqb a.master_index b.master_index
                    && (a.link_layer_type == b.link_layer_type
                        && a.device_type == b.device_type)))))

pub same_spec_refl : (a : DeviceSpec) → same_spec a a ≡ true
unfolding same_spec
same_spec_refl a = ground (
  arith,
  eq_iff a.interface_name a.interface_name,
  eq_iff a.link_layer_type a.link_layer_type,
  eq_iff a.device_type a.device_type,
)

pub eq_of_same_spec : (a b : DeviceSpec) → same_spec a b ≡ true → a ≡ b
unfolding same_spec
eq_of_same_spec a b h = ground (
  arith,
  eq_iff a.interface_name b.interface_name,
  eq_iff a.link_layer_type b.link_layer_type,
  eq_iff a.device_type b.device_type,
)
