-- ===== src/Workqueue.antt =====
-- k8s.io/client-go/util/workqueue: the rate-limiting queues of the device cache and of the DeviceNetwork
-- controller. The package is a parameter: its operations, and what its documentation says of them.
use device_network.Prelude.{String, ◌≡◌, ◌⊎◌}

-- The outcome of `Get`: it waits for an item, the queue is shut down, or it takes an item.
pub data Got (Q : Type 0) : Type 0 where
  blocked shutdown : Got Q
  item : String → Q → Got Q

pub record Workqueue (Q : Type 0) : Type 0 where
  pub add : String → Q → Q
  pub get : Q → Got Q
  pub done : String → Q → Q
  pub forget : String → Q → Q
  pub add_rate_limited : String → Q → Q
  -- Time passes: delayed items are added.
  pub elapse : Q → Q

-- What the queue's users rely on. A key is awaited when it is queued, delayed, or to be queued again at
-- its `Done`; it is held from `Get` to `Done`.
pub record IsWorkqueue {Q : Type 0} (w : Workqueue Q) : Type 1 where
  pub IsOpen : Q → Type 0
  pub Awaits : Q → String → Type 0
  -- Nothing is held, or this key alone.
  pub IsFree : Q → Type 0
  pub Holds : Q → String → Type 0
  -- Add: the key is awaited, and no key is lost.
  pub add-IsOpen : (k : String) (q : Q) → IsOpen q → IsOpen (w.add k q)
  pub add-Awaits : (k : String) (q : Q) → IsOpen q → Awaits (w.add k q) k
  pub add_keeps : (k j : String) (q : Q) → Awaits q j → Awaits (w.add k q) j
  pub add_only : (k j : String) (q : Q) → Awaits (w.add k q) j → (j ≡ k) ⊎ Awaits q j
  -- Get: it takes an awaited key, which is held then, and no other is lost.
  pub get-IsOpen : (k : String) (q r : Q) → w.get q ≡ item k r → IsOpen q → IsOpen r
  pub get_keeps : (k j : String) (q r : Q) → w.get q ≡ item k r → Awaits q j → (j ≡ k) ⊎ Awaits r j
  pub get_only : (k j : String) (q r : Q) → w.get q ≡ item k r → Awaits r j → Awaits q j
  pub get_takes : (k : String) (q r : Q) → w.get q ≡ item k r → Awaits q k
  pub get-Holds : (k : String) (q r : Q) → w.get q ≡ item k r → IsFree q → Holds r k
  -- AddRateLimited: as Add, after a delay.
  pub add_rate_limited-IsOpen : (k : String) (q : Q) → IsOpen q → IsOpen (w.add_rate_limited k q)
  pub add_rate_limited-Awaits : (k : String) (q : Q) → IsOpen q → Awaits (w.add_rate_limited k q) k
  pub add_rate_limited_keeps :
      (k j : String) (q : Q) → Awaits q j → Awaits (w.add_rate_limited k q) j
  pub add_rate_limited_only :
      (k j : String) (q : Q) → Awaits (w.add_rate_limited k q) j → (j ≡ k) ⊎ Awaits q j
  pub add_rate_limited-Holds : (k j : String) (q : Q) → Holds q j → Holds (w.add_rate_limited k q) j
  -- Forget and Done lose no key, and Done frees the queue of the key.
  pub forget-IsOpen : (k : String) (q : Q) → IsOpen q → IsOpen (w.forget k q)
  pub forget_keeps : (k j : String) (q : Q) → Awaits q j → Awaits (w.forget k q) j
  pub forget_only : (k j : String) (q : Q) → Awaits (w.forget k q) j → Awaits q j
  pub forget-Holds : (k j : String) (q : Q) → Holds q j → Holds (w.forget k q) j
  pub done-IsOpen : (k : String) (q : Q) → IsOpen q → IsOpen (w.done k q)
  pub done_keeps : (k j : String) (q : Q) → Awaits q j → Awaits (w.done k q) j
  pub done_only : (k j : String) (q : Q) → Awaits (w.done k q) j → Awaits q j
  pub done-IsFree : (k : String) (q : Q) → Holds q k → IsFree (w.done k q)
  -- Time loses and invents no key; when it has passed, an awaited key can be taken from a free queue.
  pub elapse-IsOpen : (q : Q) → IsOpen q → IsOpen (w.elapse q)
  pub elapse_keeps : (j : String) (q : Q) → Awaits q j → Awaits (w.elapse q) j
  pub elapse_only : (j : String) (q : Q) → Awaits (w.elapse q) j → Awaits q j
  pub elapse-IsFree : (q : Q) → IsFree q → IsFree (w.elapse q)
  pub get_ready :
      (j : String) (q : Q)
      → IsOpen q
      → IsFree q
      → Awaits q j
      → (k : String) × (r : Q) × (w.get (w.elapse q) ≡ item k r)
