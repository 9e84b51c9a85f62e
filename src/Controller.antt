-- ===== src/Controller.antt =====
-- pkg/controllers/devicenetwork/devicenetwork.go: the queue of the DeviceNetwork controller and its worker,
-- of which the program runs one. The informers' stores are the inputs: they change, and the handlers
-- of a change of a DeviceNetwork or of a device run later; a change of the node has no handler. An
-- informer also runs the handlers of its objects when it resyncs.
-- A Reconcile reads its inputs at one moment.
pub mod Latest
pub mod Reconciled
pub mod Rounds
use device_network.Prelude.{ℕ, suc, String, ◌≡◌, some, List, []}
use device_network.Prelude.Results.{Result, ok, err, panic, unfinished}
use device_network.Kubernetes.{Node}
use device_network.Api.{DeviceNetwork}
use device_network.Reconciler.{Reconciler, DriverResources, reconcile}
use device_network.Workqueue.{Workqueue, Got, item}

-- What Reconcile reads besides the node: the lister's answer, and the reconciler with its device cache.
pub record Inputs : Type 1 where
  pub reconciler : Reconciler
  pub device_networks : Result (List DeviceNetwork)

-- Where the worker stands in `processNextWorkItem`.
pub data Worker : Type 0 where
  idle : Worker
  fetched : String → Worker
  reconciled : String → Result (Unit {0}) → Worker

module _ {Q : Type 0} (w : Workqueue Q) where
  unfoldable pub on_event : Q → Q
  on_event q = w.add "Event" q

  -- The end of `processNextWorkItem`, its deferred `Done` included.
  unfoldable pub finish_item : Result (Unit {0}) → String → Q → Q
  finish_item (ok u) key q = w.done key (w.forget key q)
  finish_item (err e) key q = w.done key (w.add_rate_limited key q)
  finish_item panic key q = w.done key q
  finish_item unfinished key q = w.done key q

-- A panic ends the program.
abbrev pub Returns : Result (Unit {0}) → Type 0
Returns (ok u) = Unit
Returns (err e) = Unit
Returns panic = ⊥
Returns unfinished = ⊥

pub record State (Q : Type 0) : Type 1 where
  pub inputs : Inputs
  pub node : Result Node
  -- The node that the last Reconcile read.
  pub node_read : Result Node
  -- The changes whose handlers have not run.
  pub unheard : ℕ
  pub queue : Q
  pub worker : Worker
  -- The publications, latest first.
  pub published : List DriverResources

-- The worker reconciles with the present inputs; the publication may succeed or fail.
unfoldable pub reconcile_now :
    {Q : Type 0} → State Q → String → (DriverResources → Result (Unit {0})) → State Q
reconcile_now s key publish =
    let (r, published) =
      reconcile s.inputs.reconciler s.node s.inputs.device_networks (some publish) s.published in
    record s { node_read = s.node; worker = reconciled key r; published = published }

module _ {Q : Type 0} (w : Workqueue Q) where
  pub data Step (s : State Q) : State Q → Type 1 where
    changes : (i : Inputs) → Step s (record s { inputs = i; unheard = suc s.unheard })
    node_changes : (n : Result Node) → Step s (record s { node = n })
    hears :
        (n : ℕ) → s.unheard ≡ suc n → Step s (record s { unheard = n; queue = on_event w s.queue })
    resyncs : Step s (record s { queue = on_event w s.queue })
    elapses : Step s (record s { queue = w.elapse s.queue })
    fetches :
        (key : String) (q : Q)
        → s.worker ≡ idle
        → w.get s.queue ≡ item key q
        → Step s (record s { queue = q; worker = fetched key })
    reconciles :
        (key : String) (publish : DriverResources → Result (Unit {0}))
        → s.worker ≡ fetched key
        → Step s (reconcile_now s key publish)
    finishes :
        (key : String) (r : Result (Unit {0}))
        → s.worker ≡ reconciled key r
        → Returns r
        → Step s (record s { queue = finish_item w r key s.queue; worker = idle })

  pub data Reach (s : State Q) : State Q → Type 1 where
    here : Reach s s
    next : {t u : State Q} → Reach s t → Step t u → Reach s u
