-- ===== src/Configurators/Common/Provided.antt =====
-- pkg/configurators/common.go: the addresses that Allocate adds to a status.
use Prim.Native.String.{◌++◌ as concat}
use device_network.Prelude.{
  String, ◌==◌, eq_iff, ◌++◌, Option-cases, ◌≡◌, ◌≢◌, refl, sym, ◌∙◌, Bool-cases, inl, inr, ◌⊎◌,
  Option, none, some, List, [], ◌∷◌, ℕ, not, ap, true, false, is_empty,
}
use mathlib.Core.List.{append_assoc, append-nil}
use device_network.Prelude.Results.{Result, ok, Result-cases}
use device_network.Kubernetes.{AllocatedDeviceStatus, NetworkDeviceData}
use device_network.Api.{Ipam, RandomIpam, NetworkInterfaceConfiguration, ipam_provider_random}
use device_network.Host
use device_network.Platform.{Platform, History, IpNet}
use device_network.Configurators.Random.{generate_random_ip}
use device_network.Configurators.Random.Usable.{IsUsable, same_value, generate_random_ip-IsUsable}
use device_network.Configurators.Common.{
  CommonConfigurator, append_ip, random_address, provide, has_ips, common_allocate,
}

-- A text of a usable address in the network of a Random provider, with the length of its prefix. It is
-- drawn from the first history, and leaves the second.
pub record IsAddress (p : Platform) (random : Option RandomIpam) (h : History) (text : String)
    (t : History) : Type 0 where
  pub ipam : RandomIpam
  pub net : IpNet
  pub ip : List ℕ
  pub has_random : random ≡ some ipam
  pub parsed : p.parse_cidr ipam.cidr ≡ some net
  pub drawn : generate_random_ip p net h ≡ (ok ip, t)
  pub is_usable : IsUsable net ip
  pub written : text ≡ concat (p.ip_string ip) (concat "/" (p.decimal (p.mask_size net.mask).0))

-- One address for each Random provider, drawn in their order, and none for any other; the draws lead
-- from the history to the last one, and nothing else is done.
pub data Provided (p : Platform) (last : History)
    : History → List (Option Ipam) → List String → Type 0 where
  nothing : {h : History} → h ≡ last → Provided p last h [] []
  passed :
      {h : History} {ipam : Ipam} {ipams : List (Option Ipam)} {ips : List String}
      → ipam.provider ≢ ipam_provider_random
      → Provided p last h ipams ips
      → Provided p last h (some ipam ∷ ipams) ips
  random :
      {h t : History} {ipam : Ipam} {ipams : List (Option Ipam)} {ip : String} {ips : List String}
      → ipam.provider ≡ ipam_provider_random
      → IsAddress p ipam.random h ip t
      → Provided p last t ipams ips
      → Provided p last h (some ipam ∷ ipams) (ip ∷ ips)

-- The status with these addresses after those that it has.
abbrev pub with_ips :
    AllocatedDeviceStatus → NetworkDeviceData → List String → AllocatedDeviceStatus
with_ips status data_ ips = record status {
  network_data = some (record data_ { ips = data_.ips ++ ips });
}

same_history :
    {A : Type 0} {a b : A} {t u : History}
    → ◌≡◌ {A = Result A × History} (ok a, t) (ok b, u)
    → t ≡ u
same_history e = cc e

no_ips :
    (status : AllocatedDeviceStatus) (data_ : NetworkDeviceData)
    → status.network_data ≡ some data_
    → status ≡ with_ips status data_ []
no_ips status data_ has =
    ap (λ y. record status { network_data = y })
      (has ∙ ap (λ x. some (record data_ { ips = x })) (sym (append-nil data_.ips)))

one_more :
    (status : AllocatedDeviceStatus) (data_ : NetworkDeviceData) (ip : String) (ips : List String)
    → with_ips status (record data_ { ips = data_.ips ++ ip ∷ [] }) ips
      ≡ with_ips status data_ (ip ∷ ips)
one_more status data_ ip ips =
    ap (λ x. record status { network_data = some (record data_ { ips = x }) })
      (append_assoc data_.ips (ip ∷ []) ips)

split_ips :
    (xs : List String) → ((xs ≡ []) × (is_empty xs ≡ true)) ⊎ ((xs ≢ []) × (is_empty xs ≡ false))
split_ips [] = inl (refl, refl)
split_ips (x ∷ xs) = inr (λ e. cc e, refl)

other :
    (provider : String)
    → (provider == ipam_provider_random) ≡ false
    → provider ≢ ipam_provider_random
other provider r same = cc (r, (eq_iff provider ipam_provider_random).1 same)

module _ (p : Platform) where
  random_address-IsAddress :
      (random : Option RandomIpam) (h : History) {text : String} {t : History}
      → random_address p random h ≡ (ok text, t)
      → IsAddress p random h text t
  unfolding random_address
  random_address-IsAddress none h e = cc
  random_address-IsAddress (some r) h {text} {t} e = elim (Bool-cases (not (r.cidr == ""))) [
    | inr a ↦ absurd (cc (rw a at e))
    | inl a ↦ elim (Option-cases (p.parse_cidr r.cidr)) [
      | inl b ↦ absurd (cc (rw b at (rw a at e)))
      | inr (net, b) ↦ elim (Result-cases (generate_random_ip p net h).0) [
        | inr (inl (m, g)) ↦ absurd (cc (rw g at (rw b at (rw a at e))))
        | inr (inr (inl g)) ↦ absurd (cc (rw g at (rw b at (rw a at e))))
        | inr (inr (inr g)) ↦ absurd (cc (rw g at (rw b at (rw a at e))))
        | inl (ip, g) ↦ record {
          ipam = r;
          net = net;
          ip = ip;
          has_random = refl;
          parsed = b;
          drawn = cc (g, rw g at (rw b at (rw a at e)));
          is_usable =
              (generate_random_ip-IsUsable p net h {ip = ip} {t = (generate_random_ip p net h).1}
                (cc g)).1;
          written = cc (rw g at (rw b at (rw a at e)));
        }
      ]
    ]
  ]

  provide-Provided :
      (ipams : List (Option Ipam)) (status : AllocatedDeviceStatus) (data_ : NetworkDeviceData)
      (h : History) {next : AllocatedDeviceStatus} {t : History}
      → status.network_data ≡ some data_
      → provide p ipams status h ≡ (ok next, t)
      → (ips : List String) × Provided p t h ipams ips × (next ≡ with_ips status data_ ips)
  unfolding provide append_ip
  provide-Provided [] status data_ h {next} has e =
      ([], nothing (same_history e), same_value (sym e) ∙ no_ips status data_ has)
  provide-Provided (none ∷ ipams) status data_ h has e = absurd (cc e)
  provide-Provided (some ipam ∷ ipams) status data_ h {next} {t} has e =
      elim (Bool-cases (ipam.provider == ipam_provider_random)) [
        | inr r ↦
            let (ips, provided, same) =
              provide-Provided ipams status data_ h {next = next} {t = t} has (rw r at e) in
            (ips, passed (λ same_. other ipam.provider r same_) provided, same)
        | inl r ↦ elim (Result-cases (random_address p ipam.random h).0) [
          | inr (inl (m, a)) ↦ absurd (cc (rw a at (rw r at e)))
          | inr (inr (inl a)) ↦ absurd (cc (rw a at (rw r at e)))
          | inr (inr (inr a)) ↦ absurd (cc (rw a at (rw r at e)))
          | inl (ip, a) ↦
              let (ips, provided, same) =
                provide-Provided ipams
                  (record status {
                    network_data = some (record data_ { ips = data_.ips ++ ip ∷ [] });
                  })
                  (record data_ { ips = data_.ips ++ ip ∷ [] }) (random_address p ipam.random h).1
                  {next = next} {t = t} refl (rw has at (rw a at (rw r at e))) in
              (
                ip ∷ ips,
                random ((eq_iff ipam.provider ipam_provider_random).0 r)
                    (random_address-IsAddress ipam.random h {t = (random_address p ipam.random h).1}
                      (cc a))
                    provided,
                same ∙ one_more status data_ ip ips,
              )
        ]
      ]

  -- When a status has network data, a successful Allocate of the common configurator, with a network
  -- interface configuration, does one of two things. If the status has addresses, it is returned
  -- unchanged, and nothing is done. If it has none, no provider is nil, and the status comes back with
  -- one address for each Random provider, in their order, and none for any other provider: a usable
  -- address that generateRandomIP gave for the network of the provider's CIDR, with the length of the
  -- network's prefix. Nothing else of the status is changed, and nothing but these draws is done.
  pub common_allocate-Provided :
      (c : CommonConfigurator) (host_device : Option Host.Device)
      (nic : NetworkInterfaceConfiguration) (status next : AllocatedDeviceStatus)
      (data_ : NetworkDeviceData) (h : History) {t : History}
      → status.network_data ≡ some data_
      → common_allocate p c host_device (some nic) (some status) h ≡ (ok (some next), t)
      → ((data_.ips ≢ []) × (next ≡ status) × (h ≡ t))
        ⊎ ((data_.ips ≡ [])
            × ((ips : List String) × Provided p t h nic.ipam ips
                × (next ≡ with_ips status data_ ips)))
  unfolding common_allocate has_ips
  common_allocate-Provided c host_device nic status next data_ h {t} has e =
      elim (split_ips data_.ips) [
        | inr (some_, full) ↦
            let flag : has_ips status.network_data ≡ true = ap has_ips has ∙ ap not full in
            inl (some_, sym (cc (rw flag at e)), same_history (rw flag at e))
        | inl (empty, bare) ↦
            let flag : has_ips status.network_data ≡ false = ap has_ips has ∙ ap not bare in
            let ran = rw flag at e in
            elim (Result-cases (provide p nic.ipam status h).0) [
              | inr (inl (m, a)) ↦ absurd (cc (rw a at ran))
              | inr (inr (inl a)) ↦ absurd (cc (rw a at ran))
              | inr (inr (inr a)) ↦ absurd (cc (rw a at ran))
              | inl (res, a) ↦
                  let (ips, provided, same) =
                    provide-Provided nic.ipam status data_ h {next = res} {t = t} has
                      (cc (a, rw a at ran)) in
                  let final : res ≡ next = cc (rw a at ran) in
                  inr (empty, (ips, provided, sym final ∙ same))
            ]
      ]
