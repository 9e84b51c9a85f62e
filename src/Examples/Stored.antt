-- ===== src/Examples/Stored.antt =====
-- Claims are stored, on a short history of calls.
use device_network.Prelude.{String, none, List, [], ◌∷◌, ◌≡◌}
use device_network.Kubernetes.{ResourceClaim}
use device_network.Store.{new_memory, get}
use device_network.Store.History.{Call, adds, deletes, run, recall, get-run}

abbrev claim_of : String → ResourceClaim
claim_of uid = record {
  uid = uid;
  name = "claim";
  namespace = "default";
  reserved_for = [];
  allocation = none;
  devices = [];
}

-- A claim twice, another pod's, and a deletion before the last one.
abbrev calls : List Call
calls =
    adds "pod" (claim_of "a")
    ∷ adds "pod" (claim_of "a")
    ∷ adds "other" (claim_of "b")
    ∷ deletes "pod"
    ∷ adds "pod" (claim_of "c")
    ∷ []

get-run_example : get (run new_memory calls) "pod" ≡ recall "pod" [] calls
get-run_example = get-run "pod" calls
