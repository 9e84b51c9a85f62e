-- ===== src/Configurators/Random/Rejected.antt =====
-- pkg/configurators/common.go: when the search for a random address goes on.
use Prim.Native.Nat.{bit_and, bit_or}
use device_network.Prelude.{
  ℕ, zero, suc, ◌%◌, ◌⊎◌, ◌≤◌, ◌≡◌, refl, true, false, Bool-cases, not, ◌&&◌, List, [], ◌∷◌, inl,
  inr, All, length, eqb, arith,
}
use device_network.Prelude.Results.{ok, unfinished}
use device_network.Platform.{Platform, History, IpNet, drew}
use device_network.Configurators.Random.{complement, Candidate, candidate, search_ip, random_byte}
use device_network.Configurators.Random.Draws.{drawn}
use device_network.Configurators.Random.Usable.{IsZero, IsFull}

-- The host bits of the next draws, one for each byte of the address, beside the byte of the mask.
abbrev pub host_bits : Platform → List ℕ → List ℕ → History → List (ℕ × ℕ)
host_bits p [] mask h = []
host_bits p (i ∷ ip) [] h = []
host_bits p (i ∷ ip) (m ∷ mask) h =
    (m, bit_and (p.int_n h % 256) (complement m)) ∷ host_bits p ip mask (drew (p.int_n h) ∷ h)

-- Each of so many rounds, of as many draws as the address has bytes, draws host bits that are all zero
-- or all one.
abbrev pub Rejects : Platform → ℕ → IpNet → History → Type 0
Rejects p zero net h = Unit
Rejects p (suc f) net h =
    (All IsZero (host_bits p net.ip net.mask h) ⊎ All IsFull (host_bits p net.ip net.mask h))
    × Rejects p f net (drawn p (length net.ip) h)

-- A round: its candidate, what is drawn for it, and what its flags say of the host bits.
record IsRound (p : Platform) (ip mask : List ℕ) (h : History) : Type 0 where
  tried : Candidate
  run : candidate p ip mask h ≡ (ok tried, drawn p (length ip) h)
  zeros : (All IsZero (host_bits p ip mask h) → tried.all_zero ≡ true)
  zero_bits : tried.all_zero ≡ true → All IsZero (host_bits p ip mask h)
  ones : All IsFull (host_bits p ip mask h) → tried.all_one ≡ true
  one_bits : tried.all_one ≡ true → All IsFull (host_bits p ip mask h)

flat_bits :
    (p : Platform) (net : IpNet) (h : History) (k : IsRound p net.ip net.mask h)
    → (not k.tried.all_zero && not k.tried.all_one) ≡ false
    → All IsZero (host_bits p net.ip net.mask h) ⊎ All IsFull (host_bits p net.ip net.mask h)
flat_bits p net h k b = elim (Bool-cases k.tried.all_zero) [
  | inl z ↦ inl (k.zero_bits z)
  | inr z ↦ inr (k.one_bits (ground (arith, b, z)))
]

module _ (p : Platform) where
  candidate-IsRound :
      (ip mask : List ℕ) (h : History) → length ip ≤ length mask → IsRound p ip mask h
  unfolding candidate random_byte
  candidate-IsRound [] mask h fits = record {
    tried = _;
    run = refl;
    zeros = λ z. refl;
    zero_bits = λ e. tt;
    ones = λ o. refl;
    one_bits = λ e. tt;
  }
  candidate-IsRound (i ∷ ip) [] h fits = absurd (omega (arith, fits))
  candidate-IsRound (i ∷ ip) (m ∷ mask) h fits =
      let k = candidate-IsRound ip mask (drew (p.int_n h) ∷ h) (omega (arith, fits)) in
      let bits = bit_and (p.int_n h % 256) (complement m) in
      record {
        tried = record {
          ip = bit_or i bits ∷ k.tried.ip;
          all_zero = eqb bits 0 && k.tried.all_zero;
          all_one = eqb bits (complement m) && k.tried.all_one;
        };
        run = rw k.run refl;
        zeros = λ (z, zs). ground (arith, k.zeros zs, z);
        zero_bits = λ e. (ground (arith, e), k.zero_bits (ground (arith, e)));
        ones = λ (o, os). ground (arith, k.ones os, o);
        one_bits = λ e. (ground (arith, e), k.one_bits (ground (arith, e)));
      }

  -- When the mask is at least as long as the address, the search for a random address does one of two
  -- things: it uses up its rounds, and then the host bits that are drawn in every round are all zero
  -- or all one; or it returns an address, and then they are not so in every round.
  pub search_ip-Rejects :
      (rounds : ℕ) (net : IpNet) (h : History)
      → length net.ip ≤ length net.mask
      → (((search_ip p rounds net h).0 ≡ unfinished) × Rejects p rounds net h)
        ⊎ (((ip : List ℕ) × ((search_ip p rounds net h).0 ≡ ok ip)) × (¬ Rejects p rounds net h))
  unfolding search_ip
  search_ip-Rejects zero net h fits = inl (refl, tt)
  search_ip-Rejects (suc f) net h fits =
      let k = candidate-IsRound net.ip net.mask h fits in
      elim (Bool-cases (not k.tried.all_zero && not k.tried.all_one)) [
        | inl b ↦ inr (
          (k.tried.ip, rw k.run (rw b refl)),
          λ (flat, r). elim flat [
            | inl z ↦ ground (arith, k.zeros z, b)
            | inr o ↦ ground (arith, k.ones o, b)
          ],
        )
        | inr b ↦ elim (search_ip-Rejects f net (drawn p (length net.ip) h) fits) [
          | inl (e, r) ↦ inl (rw k.run (rw b e), (flat_bits p net h k b, r))
          | inr ((ip, e), n) ↦ inr ((ip, rw k.run (rw b e)), λ (flat, r). n r)
        ]
      ]
