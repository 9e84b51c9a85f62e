-- ===== src/Configurators/Random/Draws.antt =====
-- pkg/configurators/common.go, utils.go: what a sequence of draws leaves.
use device_network.Prelude.{ℕ, zero, suc, ◌∷◌}
use device_network.Platform.{Platform, History, drew}

-- The history after so many draws.
abbrev pub drawn : Platform → ℕ → History → History
drawn p zero h = h
drawn p (suc n) h = drawn p n (drew (p.int_n h) ∷ h)
