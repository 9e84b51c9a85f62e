-- ===== src/Examples/Delivered.antt =====
-- A published device is delivered, on the example.
use device_network.Prelude.{some, [], ◌∷◌, ◌≡◌, refl, ap, sym, subst, inl, contains}
use device_network.Prelude.Results
use device_network.Prelude.Results.{ok}
use device_network.Prelude.Dict.{lookup, insert}
use device_network.Prelude.Exec.{◌>>=◌, lift, wrapped}
use device_network.Host.{same_spec}
use device_network.Host.Cache.{get}
use device_network.Resolver.{
  get_device, get_device_network_for_device, resolve, find_device, find_configuration, by_index,
  device_id_index, index_keys,
}
use device_network.Resolver.Published.{node_resolver}
use device_network.Cmd.{device_configurators}
use device_network.Api.{get_device_type}
use device_network.Configurators.HostDevice
use device_network.Configurators.Common.{common_allocate, has_ips, provide}
use device_network.Driver.{
  Driver, allocate_device, kubelet_device, copy_attributes, apply_status_of, apply_condition,
  initial_status, status_data_of,
}
use device_network.Driver.Handover.{RoundTrips}
use device_network.Delivery.{Deployment, Fits, IsDelivered, allocate_device-IsDelivered}
use device_network.Examples.Codec.{decode, encode-eq}
use device_network.Examples.Data.{
  platform, reconciler, driver, node, network, networks, resources, whole_eth0, result_of,
  attributes,
}
use device_network.Examples.Published.{runs}
use device_network.Examples.Prepared.{status, prepared}
use device_network.Examples.Resolved.{id, slices}

round_trips : RoundTrips platform
unfolding RoundTrips
round_trips x raw e =
    let (same, text) = encode-eq x.pod_network x.device_configuration x.device e in
    subst (λ r. decode r ≡ some x) (sym text) (ap some (sym same))

-- The driver asks the resolver.
abbrev asking : Driver
asking = record driver {
  get_device = λ result.
      Results.◌>>=◌
        (get_device id attributes (node_resolver reconciler slices (("blue", network) ∷ [])) result)
        λ device. ok (some device);
}

abbrev deployment : Deployment
deployment = record {
  platform = platform;
  reconciler = reconciler;
  driver = asking;
  node = node;
  networks = networks;
  resources = resources;
  slices = slices;
  by_name = ("blue", network) ∷ [];
  make_device_id = id;
}

fits : Fits deployment
unfolding contains lookup
fits = record {
  ids_differ = λ driver pool a b e. e;
  entries_shown = λ m e i. i;
  devices_shown = λ ds x i. i;
  cache_keyed = (refl, refl, (refl, refl, tt));
  attributes_distinct = (refl, (refl, (refl, (refl, tt))));
  networks_listed = ((refl, (refl, (refl, tt))), tt);
  published = runs;
  names_distinct = (refl, (refl, (refl, (refl, tt))));
  slices_complete = refl;
  reconciler_configurators = refl;
  driver_configurators = refl;
  asks_resolver = λ result. refl;
  round_trips = round_trips;
}

allocates :
    (wrapped "failed to get devices for claim during allocation"
          (lift (asking.get_device (some (result_of "blue-whole-eth0"))))
        >>= allocate_device platform asking)
      []
    ≡ (ok (some prepared, some status), [])
unfolding get_device get_device_network_for_device resolve find_device find_configuration by_index
    device_id_index index_keys get contains allocate_device kubelet_device copy_attributes
    apply_status_of apply_condition initial_status status_data_of device_configurators
    HostDevice.configurator HostDevice.allocate common_allocate has_ips provide get_device_type
    lookup insert same_spec
allocates = refl

allocate_device-IsDelivered_example : IsDelivered deployment whole_eth0 status
allocate_device-IsDelivered_example =
    allocate_device-IsDelivered deployment whole_eth0 (result_of "blue-whole-eth0") [] []
      {x = some prepared} {status = status} fits ((refl, refl), tt) (inl refl) refl allocates
