-- ===== src/Examples/Published.antt =====
-- What a node publishes and resolves, on the example.
use device_network.Prelude.{
  eq_iff, true, false, map, [], ◌∷◌, ◌↔◌, ◌∙◌, sym, ap, inl, inr, ◌≡◌, refl, In, All, Distinct,
}
use device_network.Prelude.Results.{ok}
use device_network.Kubernetes.{CounterSet}
use device_network.Prelude.Dict.{lookup, insert}
use device_network.Prelude.{contains, include}
use device_network.Host.Cache.{list, apply_selectors}
use device_network.Configurators.HostDevice
use device_network.Configurators.Macvlan
use device_network.Cmd.{device_configurators}
use device_network.Api.{get_device_type, get_macvlan}
use device_network.Reconciler.{
  get_resources, publish_networks, publish_configurations, publish_configuration, publish_devices,
  expose, add_exposed, finish_device, device_name, applies_to_node, list_devices,
  device_for_selector, device_for_configuration, insert_devices, or_none, shared_counters,
}
use device_network.Reconciler.Origin.{Origin}
use device_network.Reconciler.Resources.{get_resources-Origin, get_resources-counters, counter_set}
use device_network.Reconciler.Pools.{pool_devices, pool_counters}
use device_network.Reconciler.Complete.{IsRegular, get_resources_iff}
use device_network.Host.Cache.Listing.{list-In}
use device_network.Host
use device_network.Examples.Data.{
  reconciler, node, networks, resources, cache, eth0, eth1, whole_eth0, always,
}

pub runs : get_resources reconciler node networks ≡ ok resources
unfolding get_resources publish_networks publish_configurations publish_configuration
    publish_devices expose add_exposed finish_device device_name applies_to_node list_devices
    device_for_selector device_for_configuration insert_devices or_none shared_counters list
    apply_selectors lookup insert device_configurators Macvlan.is_supported Macvlan.supports_device
    Macvlan.exposed_device Macvlan.configurator HostDevice.is_supported HostDevice.supports_device
    HostDevice.exposed_device HostDevice.configurator get_device_type get_macvlan
    Macvlan.macvlan_mode_map contains include
runs = refl

get_resources-Origin_example : All (Origin reconciler node networks) (pool_devices resources.pools)
get_resources-Origin_example =
    get_resources-Origin reconciler node networks {res = resources} (λ m e i. i) runs

get_resources-counters_example :
    All
      (λ d.
        (o : Origin reconciler node networks d) × In
          (counter_set o.host.name)
          (pool_counters resources.pools))
      (pool_devices resources.pools)
    × Distinct (map (λ (c : CounterSet). c.name) (pool_counters resources.pools))
get_resources-counters_example =
    get_resources-counters reconciler node networks {res = resources} (λ m e i. i) (λ ns n i. i)
      (λ ns d. d) runs

names_differ : eth0.name ≡ eth1.name → ⊥
names_differ e = let same : false ≡ true = (eq_iff "eth0" "eth1").1 e in absurd (cc)

one_name :
    (d e : Host.Device)
    → In d (eth0 ∷ eth1 ∷ [])
    → In e (eth0 ∷ eth1 ∷ [])
    → d.name ≡ e.name
    → d ≡ e
one_name d e (inl a) (inl b) same = a ∙ sym b
one_name d e (inr (inl a)) (inr (inl b)) same = a ∙ sym b
one_name d e (inl a) (inr (inl b)) same = absurd (
    names_differ
      (sym (ap (λ (x : Host.Device). x.name) a) ∙ same ∙ ap (λ (x : Host.Device). x.name) b))
one_name d e (inr (inl a)) (inl b) same = absurd (
    names_differ
      (sym (sym (ap (λ (x : Host.Device). x.name) a) ∙ same ∙ ap (λ (x : Host.Device). x.name) b)))
one_name d e (inr (inr a)) i same = absurd a
one_name d e (inl a) (inr (inr b)) same = absurd b
one_name d e (inr (inl a)) (inr (inr b)) same = absurd b

regular : IsRegular reconciler node networks
unfolding list_devices contains
regular = record {
  shows_only = λ m e i. i;
  shows_all = λ m e i. i;
  selector_names = ((refl, tt), tt);
  host_names = λ s t d e i j same.
      one_name d e (list-In always (λ ds. ds) (λ ds d i. i) cache s.selectors d i)
        (list-In always (λ ds. ds) (λ ds d i. i) cache t.selectors e j) same;
}

get_resources_iff_example :
    In whole_eth0 (pool_devices resources.pools) ↔ Origin reconciler node networks whole_eth0
get_resources_iff_example =
    get_resources_iff reconciler node networks regular {res = resources} runs whole_eth0
