-- ===== src/Configurators/Random/Usable.antt =====
-- pkg/configurators/common.go: what a random address is.
use Prim.Native.Nat.{bit_and, bit_or}
use device_network.Prelude.{
  ℕ, zero, suc, ◌%◌, subst, ◌-◌, ◌≤◌, ◌≡◌, refl, true, Bool-cases, not, ◌&&◌, List, [], ◌∷◌, inl,
  inr, All, eqb, ltb, arith,
}
use device_network.Prelude.Results.{Result-cases, Result, ok}
use device_network.Platform.{Platform, History, IpNet, drew}
use device_network.Configurators.Random.{
  complement, Candidate, candidate, search_ip, generate_random_ip, random_byte,
}

-- An address drawn in a network: each byte is the network's with host bits that the mask lets through. The
-- bits stand beside the byte of the mask that they were drawn for.
pub Drawn : List ℕ → List ℕ → List (ℕ × ℕ) → List ℕ → Type 0
Drawn [] mask [] [] = Unit
Drawn (i ∷ ip) (m ∷ mask) ((n, b) ∷ bits) (o ∷ out) =
    (n ≡ m) × ((r : ℕ) × (b ≡ bit_and r (complement m))) × (o ≡ bit_or i b) × Drawn ip mask bits out
Drawn _ _ _ _ = ⊥

abbrev pub IsZero : ℕ × ℕ → Type 0
IsZero x = x.1 ≡ 0

abbrev pub IsFull : ℕ × ℕ → Type 0
IsFull x = x.1 ≡ complement x.0

-- An address with host bits that are neither all zero nor all one.
pub record IsUsable (net : IpNet) (ip : List ℕ) : Type 0 where
  pub bits : List (ℕ × ℕ)
  pub drawn : Drawn net.ip net.mask bits ip
  pub not_network : All IsZero bits → ⊥
  pub not_broadcast : All IsFull bits → ⊥

record IsCandidate (ip mask : List ℕ) (c : Candidate) : Type 0 where
  bits : List (ℕ × ℕ)
  drawn : Drawn ip mask bits c.ip
  zeros : All IsZero bits → c.all_zero ≡ true
  ones : All IsFull bits → c.all_one ≡ true

extended :
    (i m r : ℕ) (ip mask : List ℕ) (rest : Candidate)
    → IsCandidate ip mask rest
    → let b = bit_and r (complement m) in
      IsCandidate (i ∷ ip) (m ∷ mask) (record {
        ip = bit_or i b ∷ rest.ip;
        all_zero = eqb b 0 && rest.all_zero;
        all_one = eqb b (complement m) && rest.all_one;
      })
unfolding Drawn
extended i m r ip mask rest k =
    let b = bit_and r (complement m) in
    record {
      bits = (m, b) ∷ k.bits;
      drawn = (refl, (r, refl), refl, k.drawn);
      zeros = λ (z, zs). ground (arith, k.zeros zs, z);
      ones = λ (o, os). ground (arith, k.ones os, o);
    }

usable :
    (net : IpNet) (c : Candidate)
    → IsCandidate net.ip net.mask c
    → (not c.all_zero && not c.all_one) ≡ true
    → IsUsable net c.ip
usable net c k b = record {
  bits = k.bits;
  drawn = k.drawn;
  not_network = λ z. ground (arith, k.zeros z);
  not_broadcast = λ o. ground (arith, k.ones o);
}

pub same_value :
    {A : Type 0} {a b : A} {t u : History}
    → ◌≡◌ {A = Result A × History} (ok a, t) (ok b, u)
    → a ≡ b
same_value e = cc e

module _ (p : Platform) where
  candidate-IsCandidate :
      (ip mask : List ℕ) (h : History) {c : Candidate} {t : History}
      → candidate p ip mask h ≡ (ok c, t)
      → IsCandidate ip mask c
  unfolding candidate random_byte Drawn
  candidate-IsCandidate [] mask h {c} e =
      subst (IsCandidate [] mask) (same_value e)
        (record { bits = []; drawn = tt; zeros = λ z. refl; ones = λ o. refl })
  candidate-IsCandidate (i ∷ ip) [] h e = cc
  candidate-IsCandidate (i ∷ ip) (m ∷ mask) h {c} {t} e =
      elim (Result-cases (candidate p ip mask (drew (p.int_n h) ∷ h)).0) [
        | inr (inl (o, g)) ↦ absurd (cc (rw g at e))
        | inr (inr (inl g)) ↦ absurd (cc (rw g at e))
        | inr (inr (inr g)) ↦ absurd (cc (rw g at e))
        | inl (rest, g) ↦ subst (IsCandidate (i ∷ ip) (m ∷ mask)) (same_value (rw g at e)) (
            extended i m (p.int_n h % 256) ip mask rest (
              candidate-IsCandidate ip mask (drew (p.int_n h) ∷ h) {c = rest}
                {t = (candidate p ip mask (drew (p.int_n h) ∷ h)).1} (cc g)))
      ]

  search_ip-IsUsable :
      (rounds : ℕ) (net : IpNet) (h : History) {ip : List ℕ} {t : History}
      → search_ip p rounds net h ≡ (ok ip, t)
      → IsUsable net ip
  unfolding search_ip
  search_ip-IsUsable zero net h e = cc
  search_ip-IsUsable (suc f) net h {ip} {t} e =
      elim (Result-cases (candidate p net.ip net.mask h).0) [
        | inr (inl (o, g)) ↦ absurd (cc (rw g at e))
        | inr (inr (inl g)) ↦ absurd (cc (rw g at e))
        | inr (inr (inr g)) ↦ absurd (cc (rw g at e))
        | inl (c, g) ↦ elim (Bool-cases (not c.all_zero && not c.all_one)) [
          | inl b ↦ subst (IsUsable net) (same_value (rw b at (rw g at e))) (
              usable net c
                (candidate-IsCandidate net.ip net.mask h {c = c}
                  {t = (candidate p net.ip net.mask h).1} (cc g))
                b)
          | inr b ↦ search_ip-IsUsable f net (candidate p net.ip net.mask h).1 (rw b at (rw g at e))
        ]
      ]

  -- A random address that generateRandomIP returns is in a network with two host bits at least.
  -- Each byte is the network's, with host bits that the mask lets through, and these bits are
  -- neither all zero, as in the address of the network, nor all one, as in its broadcast address.
  pub generate_random_ip-IsUsable :
      (net : IpNet) (h : History) {ip : List ℕ} {t : History}
      → generate_random_ip p net h ≡ (ok ip, t)
      → (2 ≤ (p.mask_size net.mask).1 - (p.mask_size net.mask).0) × IsUsable net ip
  unfolding generate_random_ip
  generate_random_ip-IsUsable net h {ip} {t} e =
      let (ones, bits) = p.mask_size net.mask in
      elim (Bool-cases (ltb (bits - ones) 2)) [
        | inl b ↦ absurd (cc (rw b at e))
        | inr b ↦ (ground arith, search_ip-IsUsable p.rounds net h (rw b at e))
      ]
