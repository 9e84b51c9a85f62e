-- ===== src/Configurators/Random.antt =====
-- Random addresses (generateRandomIP in pkg/configurators/common.go) and names
-- (pkg/configurators/utils.go).
pub mod Draws
pub mod Usable
pub mod Rejected
pub mod Names
use Prim.Native.Nat.{bit_and, bit_or}
use Prim.Native.String.{slice}
use device_network.Prelude.{
  ℕ, zero, suc, ◌-◌, ◌%◌, String, Bool, true, ◌&&◌, not, List, [], ◌∷◌, eqb, ltb, if◌then◌else◌,
}
use device_network.Prelude.Results.{panic, unfinished}
use device_network.Prelude.Exec.{◌>>=◌, ◌>>◌, pure, lift, gets, modify, guarded}
use device_network.Platform.{Platform, Sys, drew, IpNet}

-- `^mask[i]`
abbrev pub complement : ℕ → ℕ
complement m = 255 - m

-- An address, and whether its host bits are all zero, and all one.
pub record Candidate : Type 0 where
  pub ip : List ℕ
  pub all_zero : Bool
  pub all_one : Bool

module _ (p : Platform) where
  -- `byte(rand.IntN(256))`
  unfoldable pub random_byte : Sys ℕ
  random_byte = do r ← gets p.int_n; modify (λ h. drew r ∷ h); pure (r % 256)

  -- The loop over the bytes of the address.
  unfoldable pub candidate : List ℕ → List ℕ → Sys Candidate
  unfolding random_byte
  candidate [] mask = pure (record { ip = []; all_zero = true; all_one = true })
  candidate (i ∷ ip) [] = do r ← random_byte; lift panic
  candidate (i ∷ ip) (m ∷ mask) = do
    r ← random_byte
    let host_bits = bit_and r (complement m)
    rest ← candidate ip mask
    pure (record {
      ip = bit_or i host_bits ∷ rest.ip;
      all_zero = eqb host_bits 0 && rest.all_zero;
      all_one = eqb host_bits (complement m) && rest.all_one;
    })

  -- The rounds of the loop.
  unfoldable pub search_ip : ℕ → IpNet → Sys (List ℕ)
  search_ip zero net = lift unfinished
  search_ip (suc f) net = do
    c ← candidate net.ip net.mask
    let rest = search_ip f net
    if not c.all_zero && not c.all_one then pure c.ip else rest

  unfoldable pub generate_random_ip : IpNet → Sys (List ℕ)
  generate_random_ip net = do
    let (ones, bits) = p.mask_size net.mask
    guarded (not (ltb (bits - ones) 2)) "subnet has no usable host addresses"
    search_ip p.rounds net

  unfoldable pub if_name_random_len : ℕ
  if_name_random_len = 8

  unfoldable pub random_bytes : ℕ → Sys (List ℕ)
  random_bytes zero = pure []
  random_bytes (suc n) = do b ← random_byte; bs ← random_bytes n; pure (b ∷ bs)

  unfoldable pub random_name : Sys String
  unfolding if_name_random_len
  random_name = do b ← random_bytes if_name_random_len; pure (slice (p.hex b) 0 if_name_random_len)
