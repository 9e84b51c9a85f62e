-- ===== src/Controller/Rounds.antt =====
-- pkg/controllers/devicenetwork/devicenetwork.go: one round of the worker, and the retry of a failure.
use device_network.Prelude.{String, ◌≡◌}
use device_network.Prelude.Results.{Result, ok, err}
use device_network.Workqueue.{Workqueue, IsWorkqueue}
use device_network.Controller.{idle, State, Reach}
use device_network.Controller.Reconciled.{IsLatest}

module _ {Q : Type 0} (w : Workqueue Q) (laws : IsWorkqueue w) where
  open laws use {
    IsOpen, Awaits, IsFree, Holds, get-IsOpen, get-Holds, elapse-IsOpen, elapse-IsFree, get_ready,
    forget-IsOpen, forget-Holds, done-IsOpen, done-IsFree, done_keeps, add_rate_limited-IsOpen,
    add_rate_limited-Awaits, add_rate_limited-Holds, get_takes,
  }

  -- The state after a round: the worker can begin another.
  pub record IsServed (s t : State Q) (r : Result (Unit {0})) : Type 1 where
    pub run : Reach w s t
    pub is_idle : t.worker ≡ idle
    pub is_open : IsOpen t.queue
    pub is_free : IsFree t.queue
    pub same_inputs : t.inputs ≡ s.inputs
    pub latest : r ≡ ok tt → IsLatest t.inputs t.node t.published
    pub retried : (e : String) → r ≡ err e → Awaits t.queue "Event"
