-- ===== src/Configurators/Common/Keeps.antt =====
-- pkg/configurators/common.go: the common configurator changes nothing of a status but its network
-- data.
use device_network.Prelude.{
  ◌==◌, ◌++◌, subst, Option-cases, ◌≡◌, refl, ◌∙◌, Bool-cases, inl, inr, Option, none, some, List,
  [], ◌∷◌,
}
use device_network.Prelude.Results.{ok, Result-cases}
use device_network.Kubernetes.{AllocatedDeviceStatus}
use device_network.Api.{Ipam, NetworkInterfaceConfiguration, ipam_provider_random}
use device_network.Host
use device_network.Platform.{Platform, History}
use device_network.Configurators.Common.{
  CommonConfigurator, append_ip, random_address, provide, has_ips, common_allocate,
}

-- The device that a status is of, and the data that travels with it.
pub record SameDevice (a b : AllocatedDeviceStatus) : Type 0 where
  pub driver : a.driver ≡ b.driver
  pub pool : a.pool ≡ b.pool
  pub device : a.device ≡ b.device
  pub share_id : a.share_id ≡ b.share_id
  pub status_data : a.status_data ≡ b.status_data

pub same_refl : (a : AllocatedDeviceStatus) → SameDevice a a
same_refl a = record {
  driver = refl;
  pool = refl;
  device = refl;
  share_id = refl;
  status_data = refl;
}

pub same_trans : {a b c : AllocatedDeviceStatus} → SameDevice a b → SameDevice b c → SameDevice a c
same_trans x y = record {
  driver = x.driver ∙ y.driver;
  pool = x.pool ∙ y.pool;
  device = x.device ∙ y.device;
  share_id = x.share_id ∙ y.share_id;
  status_data = x.status_data ∙ y.status_data;
}

pub same_of : {a b : AllocatedDeviceStatus} → a ≡ b → SameDevice a b
same_of {a} e = subst (SameDevice a) e (same_refl a)

module _ (p : Platform) where
  provide-SameDevice :
      (ipams : List (Option Ipam)) (res : AllocatedDeviceStatus) (h : History)
      {next : AllocatedDeviceStatus} {t : History}
      → provide p ipams res h ≡ (ok next, t)
      → SameDevice res next
  unfolding provide append_ip
  provide-SameDevice [] res h e = same_of (cc e)
  provide-SameDevice (none ∷ ipams) res h e = absurd (cc e)
  provide-SameDevice (some ipam ∷ ipams) res h {next} {t} e =
      elim (Bool-cases (ipam.provider == ipam_provider_random)) [
        | inr r ↦ provide-SameDevice ipams res h {next = next} {t = t} (rw r at e)
        | inl r ↦ elim (Result-cases (random_address p ipam.random h).0) [
          | inr (inl (m, a)) ↦ absurd (cc (rw a at (rw r at e)))
          | inr (inr (inl a)) ↦ absurd (cc (rw a at (rw r at e)))
          | inr (inr (inr a)) ↦ absurd (cc (rw a at (rw r at e)))
          | inl (ip, a) ↦ elim (Option-cases res.network_data) [
            | inl b ↦ absurd (cc (rw b at (rw a at (rw r at e))))
            | inr (data_, b) ↦
                same_trans
                  (record {
                    driver = refl;
                    pool = refl;
                    device = refl;
                    share_id = refl;
                    status_data = refl;
                  })
                  (provide-SameDevice ipams
                    (record res {
                      network_data = some (record data_ { ips = data_.ips ++ ip ∷ [] });
                    })
                    (random_address p ipam.random h).1 {next = next} {t = t}
                    (rw b at (rw a at (rw r at e))))
          ]
        ]
      ]

  pub common_allocate-SameDevice :
      (c : CommonConfigurator) (host_device : Option Host.Device)
      (nic : Option NetworkInterfaceConfiguration) (given status : AllocatedDeviceStatus)
      (h : History) {t : History}
      → common_allocate p c host_device nic (some given) h ≡ (ok (some status), t)
      → SameDevice given status
  unfolding common_allocate
  common_allocate-SameDevice c host_device none given status h e = absurd (cc e)
  common_allocate-SameDevice c host_device (some nic) given status h {t} e =
      elim (Bool-cases (has_ips given.network_data)) [
        | inl a ↦ same_of (cc (rw a at e))
        | inr a ↦ elim (Result-cases (provide p nic.ipam given h).0) [
          | inr (inl (m, b)) ↦ absurd (cc (rw b at (rw a at e)))
          | inr (inr (inl b)) ↦ absurd (cc (rw b at (rw a at e)))
          | inr (inr (inr b)) ↦ absurd (cc (rw b at (rw a at e)))
          | inl (res, b) ↦
              let done = rw b at (rw a at e) in
              let same : res ≡ status = cc done in
              same_trans
                (provide-SameDevice nic.ipam given h {next = res}
                  {t = (provide p nic.ipam given h).1} (cc b))
                (same_of same)
        ]
      ]
