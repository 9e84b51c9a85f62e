-- ===== src/Examples/Queued.antt =====
-- A workqueue that keeps its keys in a list, and the controller's theorems on it.
use device_network.Prelude.{
  String, ◌≡◌, refl, sym, ap, subst, inl, inr, ◌∙◌, Option, none, some, List, [], ◌∷◌, In,
}
use device_network.Prelude.Results.{Result, ok, err}
use device_network.Reconciler.{DriverResources, reconcile, publish_all}
use device_network.Workqueue.{Workqueue, IsWorkqueue, Got, blocked, item}
use device_network.Controller.{
  idle, fetched, reconciled, State, Inputs, Reach, here, next, hears, fetches, reconciles, finishes,
  on_event, finish_item, reconcile_now,
}
use device_network.Controller.Latest.{rest-IsLatest}
use device_network.Controller.Reconciled.{IsLatest}
use device_network.Examples.Data.{reconciler, node, networks, resources}
use device_network.Examples.Published.{runs}

pub record Keys : Type 0 where
  pub awaited : List String
  pub held : Option String

abbrev enqueue : String → Keys → Keys
enqueue k q = record q { awaited = k ∷ q.awaited }

abbrev pub take : List String → Option String → Got Keys
take [] held = blocked
take (k ∷ ks) none = item k (record { awaited = ks; held = some k })
take (k ∷ ks) (some h) = blocked

abbrev pub keys : Workqueue Keys
keys = record {
  add = enqueue;
  get = λ q. take q.awaited q.held;
  done = λ k q. record q { held = none };
  forget = λ k q. q;
  add_rate_limited = enqueue;
  elapse = λ q. q;
}

abbrev key_of : Got Keys → String
key_of (item k r) = k
key_of _ = ""

abbrev rest_of : Got Keys → Keys
rest_of (item k r) = r
rest_of _ = record { awaited = []; held = none }

pub record Took (awaited : List String) (held : Option String) (k : String) (r : Keys)
    : Type 0 where
  pub queued : awaited ≡ k ∷ r.awaited
  pub taken : r.held ≡ some k

cons : {x y : String} {xs ys : List String} → x ≡ y → xs ≡ ys → x ∷ xs ≡ y ∷ ys
cons a b = cc

pub took :
    (awaited : List String) (held : Option String) (k : String) (r : Keys)
    → take awaited held ≡ item k r
    → Took awaited held k r
took [] held k r e = absurd (cc)
took (j ∷ js) (some h) k r e = absurd (cc)
took (j ∷ js) none k r e =
    let same = ap key_of e in
    record {
      queued = cons same (ap (λ g. (rest_of g).awaited) e);
      taken = sym (ap (λ g. (rest_of g).held) e) ∙ ap some same;
    }

pub ready :
    (awaited : List String) (held : Option String) (j : String)
    → held ≡ none
    → In j awaited
    → (k : String) × (r : Keys) × (take awaited held ≡ item k r)
ready [] held j e i = elim i [ ]
ready (x ∷ xs) (some h) j e i = absurd (cc)
ready (x ∷ xs) none j e i = (x, record { awaited = xs; held = some x }, refl)

unfoldable pub keys-IsWorkqueue : IsWorkqueue keys
keys-IsWorkqueue = record {
  IsOpen = λ q. Unit;
  Awaits = λ q k. In k q.awaited;
  IsFree = λ q. q.held ≡ none;
  Holds = λ q k. q.held ≡ some k;
  add-IsOpen = λ k q o. tt;
  add-Awaits = λ k q o. inl refl;
  add_keeps = λ k j q i. inr i;
  add_only = λ k j q i. i;
  get-IsOpen = λ k q r e o. tt;
  get_keeps = λ k j q r e i. subst (In j) (took q.awaited q.held k r e).queued i;
  get_only = λ k j q r e i. subst (In j) (sym (took q.awaited q.held k r e).queued) (inr i);
  get_takes = λ k q r e. subst (In k) (sym (took q.awaited q.held k r e).queued) (inl refl);
  get-Holds = λ k q r e f. (took q.awaited q.held k r e).taken;
  add_rate_limited-IsOpen = λ k q o. tt;
  add_rate_limited-Awaits = λ k q o. inl refl;
  add_rate_limited_keeps = λ k j q i. inr i;
  add_rate_limited_only = λ k j q i. i;
  add_rate_limited-Holds = λ k j q h. h;
  forget-IsOpen = λ k q o. tt;
  forget_keeps = λ k j q i. i;
  forget_only = λ k j q i. i;
  forget-Holds = λ k j q h. h;
  done-IsOpen = λ k q o. tt;
  done_keeps = λ k j q i. i;
  done_only = λ k j q i. i;
  done-IsFree = λ k q h. refl;
  elapse-IsOpen = λ q o. tt;
  elapse_keeps = λ j q i. i;
  elapse_only = λ j q i. i;
  elapse-IsFree = λ q f. f;
  get_ready = λ j q o f i. ready q.awaited q.held j f i;
}

abbrev publish : DriverResources → Result (Unit {0})
publish r = ok tt

abbrev inputs : Inputs
inputs = record { reconciler = reconciler; device_networks = ok networks }

-- The example's node starts with a DeviceNetwork that is not heard of.
abbrev started : State Keys
started = record {
  inputs = inputs;
  node = ok node;
  node_read = err "not read";
  unheard = 1;
  queue = record { awaited = []; held = none };
  worker = idle;
  published = [];
}

abbrev heard : State Keys
heard = record started { unheard = 0; queue = enqueue "Event" started.queue }

abbrev begun : State Keys
begun = record heard {
  queue = record { awaited = []; held = some "Event" };
  worker = fetched "Event";
}

abbrev finished : State Keys
finished = record begun {
  node_read = ok node;
  queue = record { awaited = []; held = none };
  worker = idle;
  published = resources ∷ [];
}

reconciled_now : reconcile_now begun "Event" publish ≡ record begun {
  node_read = ok node;
  worker = reconciled "Event" (ok tt);
  published = resources ∷ [];
}
unfolding reconcile_now reconcile publish_all
reconciled_now = rw runs refl

run : Reach keys started finished
unfolding on_event finish_item
run =
    next
      (subst (Reach keys started) reconciled_now (
        next (next (next here (hears 0 refl)) (fetches "Event" _ refl refl))
          (reconciles "Event" publish refl)))
      (finishes "Event" (ok tt) refl tt)

rest-IsLatest_example : IsLatest inputs (ok node) (resources ∷ [])
unfolding keys-IsWorkqueue
rest-IsLatest_example =
    rest-IsLatest keys keys-IsWorkqueue started finished 0 tt (λ j i. elim i [ ]) refl refl run
      (record { all_heard = refl; none_awaited = λ i. elim i [ ]; is_idle = refl })
