-- ===== src/Host/Cache/Worker.antt =====
-- pkg/host/cache.go: the queue of the device cache, with its worker, of which the program runs one, and the
-- poll of the host's NICs. A round of the worker is one step.
use device_network.Prelude.{String, Bool, true, false, Option, none, some, List, [], ◌∷◌}
use device_network.Prelude.Results.{Result, ok, err, panic, unfinished}
use device_network.Host.Rdma.{FileSystem}
use device_network.Host.Cache.{DeviceCache, LinkByName, Outcome, sync_device}
use device_network.Workqueue.{Workqueue, Got, blocked, shutdown, item}

pub record Caching (Q : Type 0) : Type 0 where
  pub cache : DeviceCache
  pub queue : Q

module _ {Q : Type 0} (w : Workqueue Q) where
  -- After the sync, the deferred `Done` included; a panic goes on.
  unfoldable pub after_sync :
      String → Q → Result (Unit {0}) × DeviceCache → Option (Bool × Caching Q)
  after_sync key q (ok u, dc) =
      some (true, record { cache = dc; queue = w.done key (w.forget key q) })
  after_sync key q (err e, dc) =
      some (true, record { cache = dc; queue = w.done key (w.add_rate_limited key q) })
  after_sync key q (panic, dc) = none
  after_sync key q (unfinished, dc) = none

  module _ (fs : FileSystem) (sysfs_net_root : String) (link_by_name : String → LinkByName)
      (o : Outcome) where
    unfoldable pub process_got : Caching Q → Got Q → Option (Bool × Caching Q)
    unfolding after_sync
    process_got s blocked = none
    process_got s shutdown = some (false, s)
    process_got s (item key q) =
        after_sync key q (sync_device fs sysfs_net_root link_by_name o key s.cache)

    -- Whether the worker goes on, and the state; none when it waits in `Get`, or panics.
    unfoldable pub process_next_work_item : Caching Q → Option (Bool × Caching Q)
    unfolding process_got
    process_next_work_item s = process_got s (w.get s.queue)

  unfoldable pub add_all : List String → Q → Q
  add_all [] q = q
  add_all (name ∷ names) q = add_all names (w.add name q)

  -- `none` is an error of `ghw.Network`; otherwise the names of the NICs.
  unfoldable pub poll_devices : Option (List String) → Caching Q → Caching Q
  unfolding add_all
  poll_devices none s = s
  poll_devices (some names) s = record s { queue = add_all names s.queue }
