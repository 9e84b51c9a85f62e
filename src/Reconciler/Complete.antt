-- ===== src/Reconciler/Complete.antt =====
-- pkg/controllers/devicenetwork/reconciler.go: which devices `getResources` publishes, exactly.
use device_network.Prelude.{
  String, ◌≡◌, refl, sym, subst, ◌↔◌, some, List, [], ◌∷◌, inl, inr, Option-cases, Distinct, In,
  All, All-at, All-intro, All-In, map,
}
use device_network.Prelude.Results.{ok, >>=-eq-ok}
use device_network.Prelude.Dict.{Dict, lookup, All-lookup}
use device_network.Kubernetes.{Device, Node}
use device_network.Api.{DeviceNetwork, DeviceConfiguration, DeviceSelector, get_device_type}
use device_network.Host
use device_network.Reconciler.{
  Reconciler, Published, DriverResources, list_devices, device_for_selector,
  device_for_configuration, or_none, expose, publish_configuration, publish_configurations,
  publish_networks, get_resources,
}
use device_network.Reconciler.Origin.{
  IsSelection, IsSelected, Origin, device_for_selector-IsSelection,
}
use device_network.Reconciler.Resources.{get_resources-Origin}
use device_network.Reconciler.Pools.{pool_devices, get_resources-made}
use device_network.Reconciler.Chosen.{
  lookup-In, device_for_selector-lookup, IsOne, device_for_configuration-In,
}
use device_network.Reconciler.Grows.{
  Grows, publish_devices-In, publish_configurations-Grows, publish_networks-Grows,
}

-- What the inputs are like: the walk over a map shows all its entries, the selectors of a network have
-- different names, and host devices of one name are one.
pub record IsRegular (r : Reconciler) (node : Node) (networks : List DeviceNetwork) : Type 0 where
  pub shows_only :
      (m : Dict Host.Device) (e : String × Host.Device) → In e (r.entry_order m) → In e m
  pub shows_all :
      (m : Dict Host.Device) (e : String × Host.Device) → In e m → In e (r.entry_order m)
  pub selector_names :
      All
        (λ (n : DeviceNetwork).
          Distinct (map (λ (s : DeviceSelector). s.name) n.spec.device_selectors))
        networks
  pub host_names :
      (s t : DeviceSelector) (d e : Host.Device)
      → In d (list_devices r node s)
      → In e (list_devices r node t)
      → d.name ≡ e.name
      → d ≡ e

module _ (r : Reconciler) (node : Node) (networks : List DeviceNetwork)
    (regular : IsRegular r node networks) where
  expose-Origin :
      {device : Device} (o : Origin r node networks device)
      → expose o.configurator o.configuration o.host ≡ ok (some o.exposed)
  unfolding expose
  expose-Origin o = rw (o.supported) (rw (o.exposes) refl)

  module _ (network : DeviceNetwork) (dc : DeviceConfiguration) (host : Host.Device)
      (chosen : IsSelected r node network dc host)
      (names : Distinct (map (λ (s : DeviceSelector). s.name) network.spec.device_selectors)) where
    abbrev selections : Dict (List Host.Device)
    selections = device_for_selector r node [] network.spec.device_selectors

    selections-IsOne : (name : String) → IsOne host (or_none (lookup name selections))
    unfolding IsOne or_none
    selections-IsOne name = elim (Option-cases (lookup name selections)) [
      | inl e ↦ rw e tt
      | inr (devices, e) ↦
          let s = All-lookup (IsSelection r node network.spec.device_selectors) name selections e (
            device_for_selector-IsSelection r node network.spec.device_selectors []
              network.spec.device_selectors (All-In network.spec.device_selectors) tt) in
          rw e (
            All-intro _ devices λ d i same.
              regular.host_names s.selector chosen.selector d host
                (subst (λ ds. In d ds) (sym s.devices) i) chosen.selects same)
    ]

    -- The host device is among those that the configuration walks over.
    walked :
        In
          (host.name, host)
          (r.entry_order (device_for_configuration selections [] dc.device_selectors))
    unfolding or_none
    walked =
        let found =
          device_for_selector-lookup r node network.spec.device_selectors [] chosen.selector names
            chosen.listed chosen.applies in
        regular.shows_all _ _ (
          lookup-In host.name _ (
            device_for_configuration-In host selections selections-IsOne dc.device_selectors []
              chosen.selector.name chosen.referred (rw found chosen.selects)))

  -- A configuration that the loops come to publishes its device, and the loops keep it.
  published_by_configurations :
      {device : Device} (o : Origin r node networks device)
      → (dcs : List DeviceConfiguration) (acc : Published) {out : Published}
      → Distinct (map (λ (s : DeviceSelector). s.name) o.network.spec.device_selectors)
      → In o.configuration dcs
      → publish_configurations r o.network
          (device_for_selector r node [] o.network.spec.device_selectors)
          dcs
          acc
        ≡ ok out
      → In device out.devices
  unfolding publish_configurations publish_configuration Grows
  published_by_configurations o [] acc names i e = elim i [ ]
  published_by_configurations {device} o (dc ∷ dcs) acc names (inl same) e =
      let (next, one, rest) =
        >>=-eq-ok
          (publish_configuration r o.network
            (device_for_selector r node [] o.network.spec.device_selectors) dc
            (lookup (get_device_type dc) r.device_configurators) acc)
          _ e in
      publish_configurations-Grows r o.network _ dcs next rest device (
        subst (λ d. In d next.devices) (sym o.finished)
          (publish_devices-In r o.network o.configurator o.configuration _ acc o.host.name o.host
            o.exposed (rw o.of_type at (rw (← same) at one))
            (walked o.network o.configuration o.host o.is_selected names) (expose-Origin o)))
  published_by_configurations o (dc ∷ dcs) acc names (inr i) e =
      let (next, one, rest) =
        >>=-eq-ok
          (publish_configuration r o.network
            (device_for_selector r node [] o.network.spec.device_selectors) dc
            (lookup (get_device_type dc) r.device_configurators) acc)
          _ e in
      published_by_configurations o dcs next names i rest

  published_by_networks :
      {device : Device} (o : Origin r node networks device)
      → (ns : List DeviceNetwork) (acc : Published) {out : Published}
      → Distinct (map (λ (s : DeviceSelector). s.name) o.network.spec.device_selectors)
      → In o.network ns
      → publish_networks r node ns acc ≡ ok out
      → In device out.devices
  unfolding publish_networks Grows
  published_by_networks o [] acc names i e = elim i [ ]
  published_by_networks {device} o (n ∷ ns) acc names (inl same) e =
      let (next, one, rest) =
        >>=-eq-ok
          (publish_configurations r n (device_for_selector r node [] n.spec.device_selectors)
            n.spec.device_configurations acc)
          _ e in
      publish_networks-Grows r node ns next rest device (
        published_by_configurations o o.network.spec.device_configurations acc names
          o.of_configuration
          (subst
            (λ x.
              publish_configurations r x (device_for_selector r node [] x.spec.device_selectors)
                x.spec.device_configurations acc
              ≡ ok next)
            (sym same) one))
  published_by_networks o (n ∷ ns) acc names (inr i) e =
      let (next, one, rest) =
        >>=-eq-ok
          (publish_configurations r n (device_for_selector r node [] n.spec.device_selectors)
            n.spec.device_configurations acc)
          _ e in
      published_by_networks o ns next names i rest

  -- When the walk over a map shows its entries and no others, the selectors of each network have different
  -- names, and host devices of one name that selectors list are one, then a successful getResources publishes exactly
  -- the devices with an origin: a network, a configuration of it, and a host device that an
  -- applying selector of the configuration lists and the configurator of its type supports and exposes.
  pub get_resources_iff :
      {res : DriverResources}
      → get_resources r node networks ≡ ok res
      → (device : Device) → In device (pool_devices res.pools) ↔ Origin r node networks device
  get_resources_iff {res} e device = (
    (λ i.
        All-at _ _ (get_resources-Origin r node networks {res = res} regular.shows_only e) device
          i),
    (λ o.
        let (acc, run, same, counters) = get_resources-made r node networks e in
        subst (In device) same (
          published_by_networks o networks _
            (All-at _ networks regular.selector_names o.network o.of_network) o.of_network run)),
  )
