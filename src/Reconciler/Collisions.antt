-- ===== src/Reconciler/Collisions.antt =====
-- pkg/controllers/devicenetwork/reconciler.go: names of published devices that collide.
use Prim.Native.String.{◌++◌ as concat}
use text.Mathlib.TextLemmas.{append_assoc}
use device_network.Prelude.{String, ◌≡◌}
use device_network.Reconciler.{device_name}

-- A dash in a name can move: the device d of the configuration c in the network a-b is published under the name of
-- the device d of the configuration b-c in the network a.
pub device_name-concat :
    (a b c d : String)
    → device_name (concat a (concat "-" b)) c d ≡ device_name a (concat b (concat "-" c)) d
unfolding device_name
device_name-concat a b c d = simp append_assoc
