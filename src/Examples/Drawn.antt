-- ===== src/Examples/Drawn.antt =====
-- A random address and a random name are drawn, on the example.
use Prim.Native.String.{◌++◌ as concat, len}
use text.Mathlib.TextPositions.{len-append}
use Prim.Native.String.append
use text.Mathlib.TextLemmas.{append_assoc}
use device_network.Prelude.{
  some, none, ◌≢◌, String, ◌++◌, ◌*◌, length, ap, ◌∙◌, sym, ℕ, ◌≤◌, ◌-◌, ◌≡◌, refl, ◌⊎◌, List, [],
  ◌∷◌, arith,
}
use device_network.Prelude.Results.{ok, unfinished}
use device_network.Platform.{Platform, History, drew}
use device_network.Configurators.Random.{candidate, search_ip, generate_random_ip, random_byte}
use device_network.Configurators.Random.Usable.{IsUsable, generate_random_ip-IsUsable}
use device_network.Configurators.Random.Rejected.{Rejects, search_ip-Rejects}
use device_network.Configurators.Random.Names.{WritesHex, IsNamed, random_name-IsNamed}
use device_network.Kubernetes.{AllocatedDeviceStatus, NetworkDeviceData}
use device_network.Api.{Ipam, NetworkInterfaceConfiguration}
use device_network.Configurators.Common.{
  common_configurator, random_address, provide, append_ip, has_ips, common_allocate,
}
use device_network.Configurators.Common.Provided.{Provided, with_ips, common_allocate-Provided}
use device_network.Examples.Data.{platform, net, eth0}

abbrev draws : History
draws = drew 7 ∷ drew 7 ∷ drew 7 ∷ drew 7 ∷ []

generates : generate_random_ip platform net [] ≡ (ok (10 ∷ 0 ∷ 0 ∷ 7 ∷ []), draws)
unfolding generate_random_ip search_ip candidate random_byte
generates = refl

generate_random_ip-IsUsable_example :
    (2 ≤ (platform.mask_size net.mask).1 - (platform.mask_size net.mask).0)
    × IsUsable net (10 ∷ 0 ∷ 0 ∷ 7 ∷ [])
generate_random_ip-IsUsable_example =
    generate_random_ip-IsUsable platform net [] {ip = 10 ∷ 0 ∷ 0 ∷ 7 ∷ []} {t = draws} generates

search_ip-Rejects_example :
    (((search_ip platform 1 net []).0 ≡ unfinished) × Rejects platform 1 net [])
    ⊎ (((ip : List ℕ) × ((search_ip platform 1 net []).0 ≡ ok ip)) × (¬ Rejects platform 1 net []))
search_ip-Rejects_example = search_ip-Rejects platform 1 net [] (omega arith)

abbrev random : Ipam
random = record { provider = "Random"; random = some (record { cidr = "10.0.0.0/24" }) }

abbrev nic : NetworkInterfaceConfiguration
nic = record { ipam = some random ∷ [] }

abbrev named : List String → NetworkDeviceData
named ips = record { interface_name = "net0"; ips = ips; hardware_address = "" }

abbrev bare : AllocatedDeviceStatus
bare = record {
  driver = "driver";
  pool = "node0";
  device = "device";
  share_id = none;
  conditions = [];
  status_data = none;
  network_data = some (named []);
}

allocates :
    common_allocate platform common_configurator (some eth0) (some nic) (some bare) []
    ≡ (ok (some (with_ips bare (named []) ("/24" ∷ []))), draws)
unfolding common_allocate random_address generate_random_ip search_ip candidate random_byte has_ips
    provide append_ip
allocates = refl

common_allocate-Provided_example :
    (((named []).ips ≢ [])
      × (with_ips bare (named []) ("/24" ∷ []) ≡ bare)
      × (◌≡◌ {A = History} [] draws))
    ⊎ (((named []).ips ≡ [])
        × ((ips : List String) × Provided platform draws [] nic.ipam ips
            × (with_ips bare (named []) ("/24" ∷ []) ≡ with_ips bare (named []) ips)))
common_allocate-Provided_example =
    common_allocate-Provided platform common_configurator (some eth0) nic bare
      (with_ips bare (named []) ("/24" ∷ [])) (named []) [] {t = draws} refl allocates

-- Two digits for a byte, the same for all.
abbrev digits : List ℕ → String
digits [] = ""
digits (b ∷ bs) = concat "07" (digits bs)

abbrev hex_platform : Platform
hex_platform = record platform { hex = digits }

digits-append : (xs ys : List ℕ) → digits (xs ++ ys) ≡ concat (digits xs) (digits ys)
digits-append [] ys = sym (append.nil (digits ys))
digits-append (x ∷ xs) ys =
    ap (concat "07") (digits-append xs ys) ∙ sym (append_assoc "07" (digits xs) (digits ys))

len-digits : (xs : List ℕ) → len (digits xs) ≡ 2 * length xs
len-digits [] = refl
len-digits (x ∷ xs) = omega (arith, len-append "07" (digits xs), len-digits xs)

writes_hex : WritesHex hex_platform
writes_hex = record { hex-append = digits-append; len-hex = len-digits }

random_name-IsNamed_example : IsNamed hex_platform []
random_name-IsNamed_example = random_name-IsNamed hex_platform writes_hex []
