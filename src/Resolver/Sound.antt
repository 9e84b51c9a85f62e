-- ===== src/Resolver/Sound.antt =====
-- pkg/resolver/resolver.go: what GetDevice returns is in the slices, the networks and the cache.
use device_network.Prelude.{
  String, ◌==◌, eq_iff, ◌≡◌, refl, sym, ap, subst, ◌∙◌, true, some, List, [], ◌∷◌, inl, inr, In,
  contains, contains-In, arith, Bool-cases, Option-cases,
}
use device_network.Prelude.Results.{
  ok, >>=-eq-ok, ok-injective, some-injective, wrap, required, guard, wrap-eq-ok, required-eq-ok,
  guard-eq-ok,
}
use device_network.Prelude.Dict.{lookup}
use device_network.Kubernetes
use device_network.Kubernetes.{ResourceSlice, DeviceRequestAllocationResult}
use device_network.Api.{
  DeviceConfiguration, StandardAttributes, attribute_device_configuration,
  attribute_host_device_name,
}
use device_network.Host
use device_network.Host.Cache.{DeviceCache, get}
use device_network.Host.Cache.Coherence.{get-lookup}
use device_network.Resolver.Published.{resolved_device}
use device_network.Resolver.{
  Resolver, Device, Resolved, string_of, find_device, find_configuration, device_id_index, by_index,
  resolve, get_device_network_for_device, get_device,
}

get-eq-ok :
    (dc : DeviceCache) (name : String) {h : Host.Device}
    → get dc name ≡ ok h
    → lookup name dc.store ≡ some h
unfolding get
get-eq-ok dc name e = elim (Option-cases (lookup name dc.store)) [
  | inl missing ↦ absurd (cc)
  | inr (d, found) ↦ found ∙ ap some (ok-injective (sym (get-lookup dc name found) ∙ e))
]

find_device-some :
    (name : String) (ds : List Kubernetes.Device) {d : Kubernetes.Device}
    → find_device name ds ≡ some d
    → In d ds × (d.name ≡ name)
unfolding find_device
find_device-some name [] e = cc
find_device-some name (x ∷ ds) {d} e = elim (Bool-cases (x.name == name)) [
  | inl same ↦ ground (arith, eq_iff x.name name)
  | inr other ↦ let (i, named) = find_device-some name ds (rw other at e) in (inr i, named)
]

find_configuration-some :
    (name : String) (dcs : List DeviceConfiguration) {dc : DeviceConfiguration}
    → find_configuration name dcs ≡ some dc
    → In dc dcs × (dc.name ≡ name)
unfolding find_configuration
find_configuration-some name [] e = cc
find_configuration-some name (x ∷ dcs) {dc} e = elim (Bool-cases (x.name == name)) [
  | inl same ↦ ground (arith, eq_iff x.name name)
  | inr other ↦ let (i, named) = find_configuration-some name dcs (rw other at e) in (inr i, named)
]

module _ (make_device_id : String → String → String → String) where
  at_head :
      (key : String) (x : ResourceSlice) (slices : List ResourceSlice) {rs : ResourceSlice}
      → contains key (device_id_index make_device_id x) ≡ true
      → x ≡ rs
      → In rs (x ∷ slices) × In key (device_id_index make_device_id rs)
  at_head key x slices here same =
      subst (λ y. In y (x ∷ slices) × In key (device_id_index make_device_id y)) same
        (inl refl, contains-In key _ here)

  by_index-some :
      (key : String) (slices : List ResourceSlice) {rs : ResourceSlice}
      → by_index make_device_id key slices ≡ some rs
      → In rs slices × In key (device_id_index make_device_id rs)
  unfolding by_index
  by_index-some key [] e = cc
  by_index-some key (x ∷ slices) {rs} e =
      elim (Bool-cases (contains key (device_id_index make_device_id x))) [
        | inl here ↦ at_head key x slices here (some-injective (rw here at e))
        | inr other ↦
            let (i, indexed) = by_index-some key slices (rw other at e) in (inr i, indexed)
      ]

  module _ (attributes : StandardAttributes) (r : Resolver) where
    -- The objects that the attributes of a device name.
    pub record IsNamed (x : Resolved) : Type 0 where
      pub network_name : String
      pub of_network :
          string_of (lookup attributes.pod_network x.exposed.attributes) ≡ some network_name
      pub by_network : lookup network_name r.device_networks ≡ some x.network
      pub of_kind :
          string_of (lookup attributes.pod_network_kind x.exposed.attributes)
          ≡ some r.pod_network_kind
      pub of_configuration :
          string_of (lookup attribute_device_configuration x.exposed.attributes)
          ≡ some x.configuration.name
      pub by_configuration : In x.configuration x.network.spec.device_configurations
      pub host_name : String
      pub of_host :
          string_of (lookup attribute_host_device_name x.exposed.attributes) ≡ some host_name
      pub by_host : lookup host_name r.device_cache.store ≡ some x.host

    resolve-IsNamed :
        (d : Kubernetes.Device) {x : Resolved}
        → resolve make_device_id attributes r d ≡ ok x
        → (x.exposed ≡ d) × IsNamed x
    unfolding resolve
    resolve-IsNamed d {x} e =
        let (network_name, of_network, e1) =
          >>=-eq-ok (required (string_of (lookup attributes.pod_network d.attributes)) _) _ e in
        let (kind, of_kind, e2) =
          >>=-eq-ok (required (string_of (lookup attributes.pod_network_kind d.attributes)) _) _
            e1 in
        let (done, expected, e3) = >>=-eq-ok (guard (kind == r.pod_network_kind) _) _ e2 in
        let (configuration_name, of_configuration, e4) =
          >>=-eq-ok (required (string_of (lookup attribute_device_configuration d.attributes)) _) _
            e3 in
        let (host_name, of_host, e5) =
          >>=-eq-ok (required (string_of (lookup attribute_host_device_name d.attributes)) _) _
            e4 in
        let (host, by_host, e6) = >>=-eq-ok (wrap _ (get r.device_cache host_name)) _ e5 in
        let (network, by_network, e7) =
          >>=-eq-ok (required (lookup network_name r.device_networks) _) _ e6 in
        let (configuration, by_configuration, same) =
          >>=-eq-ok
            (required (find_configuration configuration_name network.spec.device_configurations) _)
            _ e7 in
        let (chosen, named) =
          find_configuration-some configuration_name network.spec.device_configurations
            (required-eq-ok _ _ by_configuration) in
        subst (λ (y : Resolved). (y.exposed ≡ d) × IsNamed y) (ok-injective same)
          (
            refl,
            record {
              network_name = network_name;
              of_network = required-eq-ok _ _ of_network;
              by_network = required-eq-ok _ _ by_network;
              of_kind =
                  required-eq-ok _ _ of_kind
                  ∙ ap some ((eq_iff kind r.pod_network_kind).0 (guard-eq-ok _ _ expected));
              of_configuration = required-eq-ok _ _ of_configuration ∙ ap some (sym named);
              by_configuration = chosen;
              host_name = host_name;
              of_host = required-eq-ok _ _ of_host;
              by_host = get-eq-ok r.device_cache host_name (wrap-eq-ok _ _ by_host);
            },
          )

    -- What a device is that stands in a slice of the lister under the ID of the result.
    pub record IsListedAs (result : DeviceRequestAllocationResult) (d : Kubernetes.Device)
        : Type 0 where
      pub slice : ResourceSlice
      pub listed : In slice r.resource_slices
      pub indexed :
          In
            (make_device_id result.driver result.pool result.device)
            (device_id_index make_device_id slice)
      pub of_slice : In d slice.devices
      pub named : d.name ≡ result.device

    found_device :
        (result : DeviceRequestAllocationResult) {x : Resolved}
        → get_device_network_for_device make_device_id attributes r result ≡ ok x
        → IsListedAs result x.exposed × IsNamed x
    unfolding get_device_network_for_device
    found_device result {x} e =
        let key = make_device_id result.driver result.pool result.device in
        let (slice, by_key, e1) =
          >>=-eq-ok (required (by_index make_device_id key r.resource_slices) _) _ e in
        let (d, by_name, e2) =
          >>=-eq-ok (required (find_device result.device slice.devices) _) _ e1 in
        let (listed, indexed) = by_index-some key r.resource_slices (required-eq-ok _ _ by_key) in
        let (of_slice, named) =
          find_device-some result.device slice.devices (required-eq-ok _ _ by_name) in
        let (exposed, is_named) = resolve-IsNamed d e2 in
        (
          subst (λ y. IsListedAs result y) (sym exposed)
              (record {
                slice = slice;
                listed = listed;
                indexed = indexed;
                of_slice = of_slice;
                named = named;
              }),
          is_named,
        )

    -- A device that GetDevice returns holds the result that was asked for; its exposed device is named
    -- as the result's and stands in a published slice that is indexed under the result's device ID; of
    -- its attributes, one is the resolver's network kind, and the others name its network in the
    -- lister, a configuration of this network, and its host device in the cache.
    pub get_device-IsResolved :
        (result : DeviceRequestAllocationResult) (device : Device)
        → get_device make_device_id attributes r (some result) ≡ ok device
        → (x : Resolved) × (device
            ≡ resolved_device result x.network x.configuration x.exposed x.host)
          × IsListedAs result x.exposed
          × IsNamed x
    unfolding get_device
    get_device-IsResolved result device e =
        let (x, found, same) =
          >>=-eq-ok (wrap _ (get_device_network_for_device make_device_id attributes r result)) _
            e in
        let (listed, named) = found_device result (wrap-eq-ok _ _ found) in
        (x, sym (ok-injective same), listed, named)
