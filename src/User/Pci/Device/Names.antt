-- ===== src/User/Pci/Device/Names.antt =====
-- The length of a device's file name: what the test against 21 lets through.
use osal.Base.{
  ℕ, zero, suc, ◌+◌, ◌-◌, ◌/◌, ◌%◌, ◌≤◌, ◌<◌, ◌≡◌, ◌↔◌, List, [], ◌∷◌, ◌++◌, arith, length,
}
use native.Mathlib.Decide.{dec_lt}
use osal.User.Pci.Device.{hex_digit, hex_digits, zeros, hex, slot_path, pci_bus, pci_dev, pci_func}

pub length-append : {A : Type 0} (xs ys : List A) → length (xs ++ ys) ≡ length xs + length ys
length-append [] ys = omega arith
length-append (x ∷ xs) ys = omega (arith, length-append xs ys)

length-zeros : (k : ℕ) (s : List ℕ) → length (zeros k s) ≡ k + length s
unfolding zeros
length-zeros zero s = omega arith
length-zeros (suc k) s = omega (arith, length-zeros k s)

-- Each round adds a digit, until the number is used up.
length-hex_digits_le : (f n : ℕ) (acc : List ℕ) → length acc ≤ length (hex_digits f n acc)
unfolding hex_digits
length-hex_digits_le zero n acc = omega arith
length-hex_digits_le (suc f) n acc =
    ground (arith, length-hex_digits_le f (n / 16) (hex_digit (n % 16) ∷ acc))

length-hex_byte : (n : ℕ) → n < 256 → length (hex 2 n) ≡ 2
unfolding hex
length-hex_byte n h = ground arith

length-hex_nibble : (n : ℕ) → n < 16 → length (hex 1 n) ≡ 1
unfolding hex
length-hex_nibble n h = ground arith

hex_digits_step :
    (f n : ℕ) (acc : List ℕ)
    → 0 < n
    → hex_digits (suc f) n acc ≡ hex_digits f (n / 16) (hex_digit (n % 16) ∷ acc)
unfolding hex_digits
hex_digits_step f n acc h = ground arith

length-hex_digits_wide : (n : ℕ) → 256 ≤ n → 3 ≤ length (hex_digits 8 n [])
length-hex_digits_wide n h = rw (hex_digits_step 7 n [] (omega arith)) (
    rw (hex_digits_step 6 (n / 16) _ (omega arith)) (
      rw (hex_digits_step 5 (n / 16 / 16) _ (omega arith)) (
        length-hex_digits_le 5 (n / 16 / 16 / 16)
          (hex_digit _ ∷ (hex_digit _ ∷ (hex_digit _ ∷ []))))))

length-hex_wide : (n : ℕ) → 256 ≤ n → 3 ≤ length (hex 2 n)
unfolding hex
length-hex_wide n h =
    let s = hex_digits 8 n [] in
    omega (arith, length-zeros (2 - length s) s, length-hex_digits_wide n h)

length-slot_path : (a : ℕ) → length (slot_path a) ≡ 18 + length (hex 2 (pci_bus a)) + 1
unfolding slot_path
length-slot_path a = omega (
  arith,
  length-append (hex 2 (pci_bus a)) (b'/' ∷ (hex 2 (pci_dev a) ++ (b'.' ∷ hex 1 (pci_func a)))),
  length-append (hex 2 (pci_dev a)) (b'.' ∷ hex 1 (pci_func a)),
  length-hex_byte (pci_dev a) (omega arith),
  length-hex_nibble (pci_func a) (omega arith),
)

-- The file name of a slot has the 21 characters that the code asks for exactly when the bus number
-- of the slot is below 256.
pub slot_path_fits : (a : ℕ) → (length (slot_path a) ≡ 21) ↔ (pci_bus a < 256)
slot_path_fits a =
    (λ h. fits h, λ h. omega (arith, length-slot_path a, length-hex_byte (pci_bus a) h))
  where
    fits : length (slot_path a) ≡ 21 → pci_bus a < 256
    fits h = elim (dec_lt (pci_bus a) 256) [
      | yes p ↦ p
      | no p ↦ absurd (omega (arith, length-slot_path a, length-hex_wide (pci_bus a) (omega arith)))
    ]
