-- ===== src/Reconciler/Grows.antt =====
-- pkg/controllers/devicenetwork/reconciler.go: the loops of `getResources` keep what they have
-- published, and publish what they come to.
use device_network.Prelude.{
  String, ◌≡◌, sym, subst, ap, ◌∙◌, Option, none, some, List, [], ◌∷◌, inl, inr, In, In-append_left,
  In-append_right,
}
use device_network.Prelude.Results.{ok, >>=-eq-ok, ok-injective}
use device_network.Prelude.Dict.{Dict}
use device_network.Kubernetes.{Device, Node}
use device_network.Api.{DeviceNetwork, DeviceConfiguration}
use device_network.Host
use device_network.Configurators.{Configurator}
use device_network.Reconciler.{
  Reconciler, Published, finish_device, expose, add_exposed, publish_devices, publish_configuration,
  publish_configurations, publish_networks,
}

-- What is published stays published.
unfoldable pub Grows : Published → Published → Type 0
Grows acc out = (d : Device) → In d acc.devices → In d out.devices

same-Grows : {acc out : Published} → ok acc ≡ ok out → Grows acc out
unfolding Grows
same-Grows e d i = let same = ok-injective e in subst (λ (x : Published). In d x.devices) same i

module _ (r : Reconciler) (network : DeviceNetwork) where
  add_exposed-Grows :
      (dc : DeviceConfiguration) (host : Host.Device) (o : Option Device) (acc : Published)
      → Grows acc (add_exposed r network dc host o acc)
  unfolding Grows add_exposed
  add_exposed-Grows dc host none acc d i = i
  add_exposed-Grows dc host (some e) acc d i = In-append_left d acc.devices _ i

  add_exposed-In :
      (dc : DeviceConfiguration) (host : Host.Device) (exposed : Device) (o : Option Device)
      (acc : Published)
      → o ≡ some exposed
      → In (finish_device r network dc host exposed) (add_exposed r network dc host o acc).devices
  unfolding add_exposed
  add_exposed-In dc host exposed none acc e = absurd (cc)
  add_exposed-In dc host exposed (some d) acc e =
      In-append_right _ acc.devices _ (inl (ap (finish_device r network dc host) (cc e)))

  publish_devices-Grows :
      (c : Configurator) (dc : DeviceConfiguration) (m : Dict Host.Device) (acc : Published)
      {out : Published}
      → publish_devices r network c dc m acc ≡ ok out
      → Grows acc out
  unfolding Grows publish_devices
  publish_devices-Grows c dc [] acc e d i = same-Grows e d i
  publish_devices-Grows c dc ((key, host) ∷ m) acc e d i =
      let (o, exp, rest) = >>=-eq-ok (expose c dc host) _ e in
      publish_devices-Grows c dc m (add_exposed r network dc host o acc) rest d
        (add_exposed-Grows dc host o acc d i)

  pub publish_devices-In :
      (c : Configurator) (dc : DeviceConfiguration) (m : Dict Host.Device) (acc : Published)
      {out : Published} (key : String) (host : Host.Device) (exposed : Device)
      → publish_devices r network c dc m acc ≡ ok out
      → In (key, host) m
      → expose c dc host ≡ ok (some exposed)
      → In (finish_device r network dc host exposed) out.devices
  unfolding publish_devices Grows
  publish_devices-In c dc [] acc key host exposed e i x = elim i [ ]
  publish_devices-In c dc ((k, h) ∷ m) acc key host exposed e (inl same) x =
      let here : host ≡ h = ap (λ p. p.1) same in
      let (o, exp, rest) = >>=-eq-ok (expose c dc h) _ e in
      let there = subst (λ y. expose c dc y ≡ ok (some exposed)) here x in
      let found : o ≡ some exposed = ok-injective (sym exp ∙ there) in
      publish_devices-Grows c dc m (add_exposed r network dc h o acc) rest _ (
        subst
          (λ y.
            In (finish_device r network dc y exposed) (add_exposed r network dc h o acc).devices)
          (sym here) (add_exposed-In dc h exposed o acc found))
  publish_devices-In c dc ((k, h) ∷ m) acc key host exposed e (inr i) x =
      let (o, exp, rest) = >>=-eq-ok (expose c dc h) _ e in
      publish_devices-In c dc m (add_exposed r network dc h o acc) key host exposed rest i x

  pub publish_configuration-Grows :
      (by_selector : Dict (List Host.Device)) (dc : DeviceConfiguration) (o : Option Configurator)
      (acc : Published) {out : Published}
      → publish_configuration r network by_selector dc o acc ≡ ok out
      → Grows acc out
  unfolding Grows publish_configuration
  publish_configuration-Grows by_selector dc none acc e d i = same-Grows e d i
  publish_configuration-Grows by_selector dc (some c) acc e d i =
      publish_devices-Grows c dc _ acc e d i

  pub publish_configurations-Grows :
      (by_selector : Dict (List Host.Device)) (dcs : List DeviceConfiguration) (acc : Published)
      {out : Published}
      → publish_configurations r network by_selector dcs acc ≡ ok out
      → Grows acc out
  unfolding Grows publish_configurations
  publish_configurations-Grows by_selector [] acc e d i = same-Grows e d i
  publish_configurations-Grows by_selector (dc ∷ dcs) acc e d i =
      let (next, one, rest) =
        >>=-eq-ok (publish_configuration r network by_selector dc _ acc) _ e in
      publish_configurations-Grows by_selector dcs next rest d
        (publish_configuration-Grows by_selector dc _ acc one d i)

pub publish_networks-Grows :
    (r : Reconciler) (node : Node) (networks : List DeviceNetwork) (acc : Published)
    {out : Published}
    → publish_networks r node networks acc ≡ ok out
    → Grows acc out
unfolding Grows publish_networks
publish_networks-Grows r node [] acc e d i = same-Grows e d i
publish_networks-Grows r node (n ∷ ns) acc e d i =
    let (next, one, rest) =
      >>=-eq-ok (publish_configurations r n _ n.spec.device_configurations acc) _ e in
    publish_networks-Grows r node ns next rest d (publish_configurations-Grows r n _ _ acc one d i)
