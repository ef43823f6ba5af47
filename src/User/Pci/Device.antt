-- ===== src/User/Pci/Device.antt =====
-- A device handle of linux_user/src/osal_pci.c, its slot address, and the name of its file.
pub mod Names
use osal.Base.{
  ℕ, zero, suc, ◌+◌, ◌-◌, ◌/◌, ◌%◌, ◌^◌, List, [], ◌∷◌, ◌++◌, ltb, ◌==◌, if◌then◌else◌, length,
}
use osal.Base.Text.{codes}

-- `pci_dev_t`.
pub record PciDev : Type 0 where
  pub slot_address : ℕ
  pub irq : ℕ

-- The macros PCI_BUS, PCI_DEV and PCI_FUNC: a mask and a shift each.
abbrev pub pci_bus : ℕ → ℕ
pci_bus a = a / 2 ^ 16 % 2 ^ 15

abbrev pub pci_dev : ℕ → ℕ
pci_dev a = a / 2 ^ 11 % 2 ^ 5

abbrev pub pci_func : ℕ → ℕ
pci_func a = a / 2 ^ 8 % 2 ^ 3

hex_digit : ℕ → ℕ
hex_digit d = if ltb d 10 then b'0' + d else b'a' + (d - 10)

-- The significant hexadecimal digits of a 32-bit number, which has at most eight.
unfoldable pub hex_digits : ℕ → ℕ → List ℕ → List ℕ
unfolding hex_digit
hex_digits zero n acc = acc
hex_digits (suc f) n acc =
    let rest = hex_digits f (n / 16) (hex_digit (n % 16) ∷ acc) in if n == 0 then acc else rest

unfoldable pub zeros : ℕ → List ℕ → List ℕ
zeros zero s = s
zeros (suc k) s = b'0' ∷ zeros k s

-- `%p.px` of `snprintf`: at least `p` digits.
unfoldable pub hex : ℕ → ℕ → List ℕ
unfolding hex_digits zeros
hex p n = let s = hex_digits 8 n [] in zeros (p - length s) s

-- The `snprintf` call: "/proc/bus/pci/%2.2x/%2.2x.%1.1x".
unfoldable pub slot_path : ℕ → List ℕ
unfolding hex
slot_path a =
    codes "/proc/bus/pci/"
    ++ (hex 2 (pci_bus a) ++ (b'/' ∷ (hex 2 (pci_dev a) ++ (b'.' ∷ hex 1 (pci_func a)))))
