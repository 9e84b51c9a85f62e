-- ===== src/Reconciler/Exclusive.antt =====
-- pkg/controllers/devicenetwork/reconciler.go: the shared counters keep a host device from being
-- given out as a host device and otherwise at once.
use device_network.Prelude.{
  ℕ, ◌+◌, ◌≤◌, String, ◌==◌, eq_iff, ◌≡◌, ◌≢◌, refl, subst, ◌∙◌, ap, ◌⊎◌, inl, inr, Option, none,
  some, List, [], ◌∷◌, In, All, if◌then◌else◌, arith, length,
}
use device_network.Prelude.Results.{ok}
use device_network.Prelude.Dict.{lookup}
use device_network.Kubernetes.{Device, DeviceCounterConsumption, Node}
use device_network.Api.{
  DeviceNetwork, DeviceConfiguration, get_device_type, device_type_host_device, device_type_macvlan,
}
use device_network.Host
use device_network.Platform.{Platform}
use device_network.Configurators.HostDevice.Support.{counters-exposed_device as host_counters}
use device_network.Configurators.Macvlan.Support.{counters-exposed_device as macvlan_counters}
use device_network.Cmd.{device_configurators, device_configurators-cases}
use device_network.Reconciler.{Reconciler, finish_device, mutual_exclusion}
use device_network.Reconciler.Origin.{Origin}

abbrev or_zero : Option ℕ → ℕ
or_zero none = 0
or_zero (some n) = n

-- How much of the counter of a set some consumptions take.
unfoldable pub takes : String → List DeviceCounterConsumption → ℕ
takes name [] = 0
takes name (c ∷ cs) =
    (if c.counter_set == name then or_zero (lookup mutual_exclusion c.counters) else 0)
    + takes name cs

-- How much some devices take together.
unfoldable pub consumed : String → List Device → ℕ
consumed name [] = 0
consumed name (d ∷ ds) = takes name d.consumes_counters + consumed name ds

takes-one :
    (name set : String) (n : ℕ)
    → takes name (record { counter_set = set; counters = (mutual_exclusion, n) ∷ [] } ∷ [])
      ≡ (if set == name then n else 0)
unfolding takes lookup
takes-one name set n = ground arith

counters-finish_device :
    (r : Reconciler) (n : DeviceNetwork) (dc : DeviceConfiguration) (h : Host.Device) (d : Device)
    → (finish_device r n dc h d).consumes_counters ≡ d.consumes_counters
unfolding finish_device
counters-finish_device r n dc h d = refl

takes-le-consumed :
    (name : String) (d : Device) (ds : List Device)
    → In d ds
    → takes name d.consumes_counters ≤ consumed name ds
unfolding consumed
takes-le-consumed name d [] i = elim i [ ]
takes-le-consumed name d (x ∷ ds) (inl e) = rw e (omega arith)
takes-le-consumed name d (x ∷ ds) (inr i) = omega (arith, takes-le-consumed name d ds i)

module _ (p : Platform) (r : Reconciler) (node : Node) (networks : List DeviceNetwork)
    (configured : r.device_configurators ≡ device_configurators p) where
  -- What a published device takes of the counter of its host device.
  takes-Origin :
      (d : Device) (o : Origin r node networks d) (name : String)
      → ((get_device_type o.configuration ≡ device_type_macvlan)
          × (takes name d.consumes_counters ≡ (if o.host.name == name then 1 else 0)))
        ⊎ ((get_device_type o.configuration ≡ device_type_host_device)
            × (takes name d.consumes_counters ≡ (if o.host.name == name then 65536 else 0)))
  takes-Origin d o name =
      elim (device_configurators-cases p (get_device_type o.configuration) (
        subst (λ m. lookup (get_device_type o.configuration) m ≡ some o.configurator) configured
          o.of_type)) [
            | inl (t, e) ↦ inl (
              t,
              kept
                  ∙ (ap (takes name) (
                        macvlan_counters o.host
                          (subst (λ f. f (some o.host) none ≡ ok (some o.exposed)) e o.exposes))
                      ∙ takes-one name o.host.name 1),
            )
            | inr (t, e) ↦ inr (
              t,
              kept
                  ∙ (ap (takes name) (
                        host_counters o.host
                          (subst (λ f. f (some o.host) none ≡ ok (some o.exposed)) e o.exposes))
                      ∙ takes-one name o.host.name 65536),
            )
          ]
    where
      kept : takes name d.consumes_counters ≡ takes name o.exposed.consumes_counters
      kept =
          ap (λ (x : Device). takes name x.consumes_counters) o.finished
          ∙ ap (takes name) (counters-finish_device r o.network o.configuration o.host o.exposed)

  -- With the configurators of the program, let one device and others be published, the one for a
  -- configuration of type HostDevice, and let them together take no more of its host device's
  -- counter than the 65536 that its set has. Then none of the others is of that host device.
  pub exclusive :
      (d : Device) (others : List Device) (o : Origin r node networks d)
      → get_device_type o.configuration ≡ device_type_host_device
      → consumed o.host.name (d ∷ others) ≤ 65536
      → (x : Device) → In x others
      → (q : Origin r node networks x) → q.host.name ≢ o.host.name
  unfolding consumed
  exclusive d others o t fits x i q same = absurd (
      ground (
        arith,
        takes-Origin d o o.host.name,
        takes-Origin x q o.host.name,
        takes-le-consumed o.host.name x others i,
        eq_iff o.host.name o.host.name,
        eq_iff q.host.name o.host.name,
        eq_iff device_type_host_device device_type_macvlan,
      ))

  -- With the configurators of the program, published devices of type Macvlan on one host device
  -- take as much of its counter as their number.
  pub consumed-macvlan :
      (name : String) (ds : List Device)
      → All
          (λ d.
            (o : Origin r node networks d) × (o.host.name ≡ name)
            × (get_device_type o.configuration ≡ device_type_macvlan))
          ds
      → consumed name ds ≡ length ds
  unfolding consumed
  consumed-macvlan name [] h = refl
  consumed-macvlan name (d ∷ ds) ((o, e, t), h) = ground (
    arith,
    takes-Origin d o name,
    consumed-macvlan name ds h,
    eq_iff o.host.name name,
    eq_iff device_type_host_device device_type_macvlan,
  )
