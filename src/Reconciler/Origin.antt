-- ===== src/Reconciler/Origin.antt =====
-- pkg/controllers/devicenetwork/reconciler.go: where the published devices come from: the
-- invariant of the loops of `getResources`.
use device_network.Prelude.{
  String, ◌≡◌, refl, sym, subst, Bool, true, Option, none, some, List, [], ◌∷◌, inl, inr, arith,
  Bool-cases, if◌then◌else◌, contains, contains-include, eq_iff, Distinct, include-Distinct, In,
  All, All-append, All-intro, All-map,
}
use device_network.Prelude.Results.{Result, ok, err, panic, unfinished, ◌>>=◌, >>=-eq-ok}
use device_network.Prelude.Dict.{Dict, lookup, insert, All-insert, All-lookup}
use device_network.Kubernetes.{Device, Node}
use device_network.Api.{DeviceNetwork, DeviceConfiguration, DeviceSelector, get_device_type}
use device_network.Host
use device_network.Configurators.{Configurator}
use device_network.Reconciler.{
  Reconciler, Published, applies_to_node, list_devices, device_for_selector, insert_devices,
  or_none, device_for_configuration, finish_device, or_skip, expose, add_exposed, publish_devices,
}

module _ (r : Reconciler) (node : Node) where
  -- The devices that a selector gives on this node.
  pub record IsSelection (selectors : List DeviceSelector) (e : String × List Host.Device)
      : Type 0 where
    pub selector : DeviceSelector
    pub listed : In selector selectors
    pub name : selector.name ≡ e.0
    pub applies : applies_to_node r node selector.node_selector ≡ true
    pub devices : list_devices r node selector ≡ e.1

  -- A selector of the network, that the configuration names and that applies to the node, lists
  -- the host device.
  pub record IsSelected (network : DeviceNetwork) (dc : DeviceConfiguration) (host : Host.Device)
      : Type 0 where
    pub selector : DeviceSelector
    pub listed : In selector network.spec.device_selectors
    pub referred : In selector.name dc.device_selectors
    pub applies : applies_to_node r node selector.node_selector ≡ true
    pub selects : In host (list_devices r node selector)

  -- Where a published device comes from.
  pub record Origin (networks : List DeviceNetwork) (device : Device) : Type 0 where
    pub network : DeviceNetwork
    pub configuration : DeviceConfiguration
    pub host : Host.Device
    pub configurator : Configurator
    pub exposed : Device
    pub of_network : In network networks
    pub of_configuration : In configuration network.spec.device_configurations
    pub is_selected : IsSelected network configuration host
    pub of_type : lookup (get_device_type configuration) r.device_configurators ≡ some configurator
    pub supported : configurator.is_supported (some host) (some configuration) ≡ ok true
    pub exposes : configurator.exposed_device (some host) none ≡ ok (some exposed)
    pub finished : device ≡ finish_device r network configuration host exposed

  pub device_for_selector-IsSelection :
      (selectors : List DeviceSelector) (m : Dict (List Host.Device)) (rest : List DeviceSelector)
      → All (λ s. In s selectors) rest
      → All (IsSelection selectors) m
      → All (IsSelection selectors) (device_for_selector r node m rest)
  unfolding device_for_selector
  device_for_selector-IsSelection selectors m [] l h = h
  device_for_selector-IsSelection selectors m (s ∷ rest) l h =
      device_for_selector-IsSelection selectors
        (if applies_to_node r node s.node_selector
          then insert s.name (list_devices r node s) m
          else m)
        rest l.1
        (elim (Bool-cases (applies_to_node r node s.node_selector)) [
          | inl e ↦ rw e (
              All-insert (IsSelection selectors) s.name _ m
                (record { selector = s; listed = l.0; name = refl; applies = e; devices = refl }) h)
          | inr e ↦ rw e h
        ])

  module _ (network : DeviceNetwork) (dc : DeviceConfiguration) where
    abbrev IsChosen : String × Host.Device → Type 0
    IsChosen e = IsSelected network dc e.1

    insert_devices-IsChosen :
        (m : Dict Host.Device) (devices : List Host.Device)
        → All (IsSelected network dc) devices
        → All IsChosen m
        → All IsChosen (insert_devices m devices)
    unfolding insert_devices
    insert_devices-IsChosen m [] l h = h
    insert_devices-IsChosen m (d ∷ devices) l h =
        insert_devices-IsChosen (insert d.name d m) devices l.1
          (All-insert IsChosen d.name d m l.0 h)

    of_selection :
        (name : String) (o : Option (List Host.Device))
        → In name dc.device_selectors
        → ((devices : List Host.Device)
            → o ≡ some devices
            → IsSelection network.spec.device_selectors (name, devices))
        → All (IsSelected network dc) (or_none o)
    unfolding or_none
    of_selection name none i h = tt
    of_selection name (some devices) i h = All-intro _ devices λ host in_devices.
        let s = h devices refl in
        record {
          selector = s.selector;
          listed = s.listed;
          referred = subst (λ n. In n dc.device_selectors) (sym s.name) i;
          applies = s.applies;
          selects = subst (λ ds. In host ds) (sym s.devices) in_devices;
        }

    pub device_for_configuration-IsChosen :
        (by_selector : Dict (List Host.Device)) (m : Dict Host.Device) (names : List String)
        → All (IsSelection network.spec.device_selectors) by_selector
        → All (λ n. In n dc.device_selectors) names
        → All IsChosen m
        → All IsChosen (device_for_configuration by_selector m names)
    unfolding device_for_configuration
    device_for_configuration-IsChosen by_selector m [] b l h = h
    device_for_configuration-IsChosen by_selector m (name ∷ names) b l h =
        device_for_configuration-IsChosen by_selector
          (insert_devices m (or_none (lookup name by_selector))) names b l.1
          (insert_devices-IsChosen m _
            (of_selection name (lookup name by_selector) l.0 (λ devices e.
              All-lookup (IsSelection network.spec.device_selectors) name by_selector e b))
            h)

-- What the loops keep: each device has its origin, whose host device has a counter set, once.
pub record IsTracked (r : Reconciler) (node : Node) (networks : List DeviceNetwork)
    (acc : Published) : Type 0 where
  pub origins :
      All
        (λ d. (o : Origin r node networks d) × (contains o.host.name acc.counter_sets ≡ true))
        acc.devices
  pub counted_once : Distinct acc.counter_sets

or_skip-eq-some :
    {A : Type 0} (m : Result (Option A)) {a : A} → or_skip m ≡ ok (some a) → m ≡ ok (some a)
or_skip-eq-some (ok a) h = h
or_skip-eq-some (err e) h = cc
or_skip-eq-some panic h = cc
or_skip-eq-some unfinished h = cc

-- A device is exposed only when it is supported.
expose-eq-some :
    (c : Configurator) (dc : DeviceConfiguration) (host : Host.Device) {d : Device}
    → expose c dc host ≡ ok (some d)
    → (c.is_supported (some host) (some dc) ≡ ok true)
      × (c.exposed_device (some host) none ≡ ok (some d))
unfolding expose
expose-eq-some c dc host h = ground (
  arith,
  or_skip-eq-some
      (c.is_supported (some host) (some dc) >>= λ (b : Bool).
        if b then c.exposed_device (some host) none else ok none)
      h,
)

module _ (r : Reconciler) (node : Node) (networks : List DeviceNetwork) where
  module _ (network : DeviceNetwork) (n : In network networks) (dc : DeviceConfiguration)
      (c : In dc network.spec.device_configurations) (configurator : Configurator)
      (t : lookup (get_device_type dc) r.device_configurators ≡ some configurator) where
    add_exposed-IsTracked :
        (host : Host.Device) (o : Option Device) (acc : Published)
        → IsSelected r node network dc host
        → expose configurator dc host ≡ ok o
        → IsTracked r node networks acc
        → IsTracked r node networks (add_exposed r network dc host o acc)
    unfolding add_exposed
    add_exposed-IsTracked host none acc s e h = h
    add_exposed-IsTracked host (some d) acc s e h =
        let (yes_, exp) = expose-eq-some configurator dc host e in
        record {
          origins =
              All-append _ acc.devices _
                (All-map _ acc.devices
                  (λ x (o, counted). (
                    o,
                    ground
                        (arith, contains-include o.host.name host.name acc.counter_sets, counted),
                  ))
                  h.origins)
                (
                  (
                    record {
                      network = network;
                      configuration = dc;
                      host = host;
                      configurator = configurator;
                      exposed = d;
                      of_network = n;
                      of_configuration = c;
                      is_selected = s;
                      of_type = t;
                      supported = yes_;
                      exposes = exp;
                      finished = refl;
                    },
                    ground (
                      arith,
                      contains-include host.name host.name acc.counter_sets,
                      eq_iff host.name host.name,
                    ),
                  ),
                  tt,
                );
          counted_once = include-Distinct host.name acc.counter_sets h.counted_once;
        }

    pub publish_devices-IsTracked :
        (m : Dict Host.Device) (acc : Published) {out : Published}
        → All (λ e. IsSelected r node network dc e.1) m
        → IsTracked r node networks acc
        → publish_devices r network configurator dc m acc ≡ ok out
        → IsTracked r node networks out
    unfolding publish_devices
    publish_devices-IsTracked [] acc l h e = subst (IsTracked r node networks) (cc) h
    publish_devices-IsTracked ((key, host) ∷ m) acc l h e =
        let (o, exp, rest) = >>=-eq-ok (expose configurator dc host) _ e in
        publish_devices-IsTracked m (add_exposed r network dc host o acc) l.1
          (add_exposed-IsTracked host o acc l.0 exp h) rest
