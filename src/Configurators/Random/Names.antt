-- ===== src/Configurators/Random/Names.antt =====
-- pkg/configurators/utils.go: the random name of an interface, which the kernel limits to 15 bytes.
use Prim.Native.String.{len, slice, ◌++◌ as concat}
use text.Mathlib.TextPositions.{slice-append_left}
use device_network.Prelude.{
  ℕ, ◌%◌, ◌*◌, String, List, [], ◌∷◌, ◌++◌, ◌≡◌, refl, ap, ◌∙◌, sym, length,
}
use device_network.Prelude.Results.{ok}
use device_network.Platform.{Platform, History}
use device_network.Configurators.Random.Draws.{drawn}
use device_network.Configurators.Random.{random_byte, random_bytes, random_name, if_name_random_len}

-- encoding/hex: EncodeToString writes two digits for each byte, one byte after the other.
pub record WritesHex (p : Platform) : Type 0 where
  pub hex-append : (xs ys : List ℕ) → p.hex (xs ++ ys) ≡ concat (p.hex xs) (p.hex ys)
  pub len-hex : (xs : List ℕ) → len (p.hex xs) ≡ 2 * length xs

-- What the call with this history draws, and the eight bits that the program takes of it.
abbrev pub drawn_byte : Platform → ℕ → History → ℕ
drawn_byte p n h = p.int_n (drawn p n h) % 256

-- The name that is made from this history is that of its next draws.
pub record IsNamed (p : Platform) (h : History) : Type 0 where
  pub name : String
  pub run : random_name p h ≡ (ok name, drawn p 8 h)
  pub digits :
      name ≡ p.hex (drawn_byte p 0 h ∷ drawn_byte p 1 h ∷ drawn_byte p 2 h ∷ drawn_byte p 3 h ∷ [])
  pub len_name : len name ≡ 8

-- The first 8 digits are those of the first 4 bytes.
cut :
    (p : Platform) (hex : WritesHex p) (first second : List ℕ)
    → length first ≡ 4
    → slice (p.hex (first ++ second)) 0 8 ≡ p.hex first
cut p hex first second four =
    let eight : 8 ≡ len (p.hex first) = sym (hex.len-hex first ∙ ap (λ n. 2 * n) four) in
    ap (λ s. slice s 0 8) (hex.hex-append first second)
    ∙ ap (slice (concat (p.hex first) (p.hex second)) 0) eight
    ∙ slice-append_left (p.hex first) (p.hex second)

-- When a hexadecimal text has two digits for each byte, in order, randomName always gives a name: it
-- makes eight draws and nothing else, and the name is the digits of the low bytes of the first four of
-- them, in order, which has 8 bytes.
pub random_name-IsNamed : (p : Platform) → WritesHex p → (h : History) → IsNamed p h
unfolding random_name random_bytes random_byte if_name_random_len
random_name-IsNamed p hex h = record {
  name = slice (p.hex (first ++ second)) 0 8;
  run = refl;
  digits = cut p hex first second refl;
  len_name = ap len (cut p hex first second refl) ∙ hex.len-hex first;
}
  where
    first : List ℕ
    first = drawn_byte p 0 h ∷ drawn_byte p 1 h ∷ drawn_byte p 2 h ∷ drawn_byte p 3 h ∷ []

    second : List ℕ
    second = drawn_byte p 4 h ∷ drawn_byte p 5 h ∷ drawn_byte p 6 h ∷ drawn_byte p 7 h ∷ []
