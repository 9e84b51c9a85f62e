-- ===== src/Store.antt =====
-- pkg/store/memory.go: the claims of each pod, kept between Prepare and the start of the sandbox.
-- Every method holds the mutex for its whole body, so a call is one step on the map.
pub mod History
use device_network.Prelude.{
  String, ◌==◌, Bool, true, false, Option, none, some, List, [], ◌∷◌, ◌++◌, if◌then◌else◌,
}
use device_network.Prelude.Dict.{Dict, lookup, insert, erase}
use device_network.Kubernetes.{ResourceClaim}

pub record Memory : Type 0 where
  pub pod_resources : Dict (List ResourceClaim)

pub new_memory : Memory
new_memory = record { pod_resources = [] }

-- Indexing a map of slices gives the nil slice on a missing key.
abbrev or_nil : Option (List ResourceClaim) → List ResourceClaim
or_nil none = []
or_nil (some cs) = cs

-- The inner loop of `Add`.
unfoldable pub is_stored : ResourceClaim → List ResourceClaim → Bool
is_stored claim [] = false
is_stored claim (stored ∷ rest) = if claim.uid == stored.uid then true else is_stored claim rest

-- The test `exists` and the loop under it.
abbrev is_held : ResourceClaim → Option (List ResourceClaim) → Bool
is_held claim none = false
is_held claim (some stored) = is_stored claim stored

unfoldable pub add : Memory → String → ResourceClaim → Memory
add m pod_uid claim = if is_held claim (lookup pod_uid m.pod_resources) then m else record m {
  pod_resources =
      insert pod_uid (or_nil (lookup pod_uid m.pod_resources) ++ claim ∷ []) m.pod_resources;
}

unfoldable pub get : Memory → String → List ResourceClaim
get m pod_uid = or_nil (lookup pod_uid m.pod_resources)

pub delete : Memory → String → Memory
delete m pod_uid = record m { pod_resources = erase pod_uid m.pod_resources }
