-- ===== src/Kernel/Pci/Addresses.antt =====
-- Addresses of kernel devices: back to the device, and the same as the user-space implementation's.
use Prim.Native.Nat.{bit_or}
use osal.Base.{
  ℕ, ◌+◌, ◌*◌, ◌/◌, ◌%◌, ◌^◌, ◌<◌, ◌≡◌, refl, ap, ◌∙◌, Bool, true, false, Option, none, some, arith,
}
use osal.Base.Bits.{bit_or_disjoint}
use osal.Types.{success}
use osal.Kernel.Pci.{
  PciDev, PciApi, found_or_not, bus_found, os_pci_device_from_slot, os_pci_device_from_address,
  os_pci_get_slot_address, os_pci_get_device_address,
}
use native.Mathlib.Nat.{mod-eq_of_lt}
use osal.User.Pci.Address.Handles.{slot, slot_or}
use osal.User.Pci.Device as User
use osal.User.Pci.Address as UserAddress

-- A device whose bus and function numbers have their 8 bits.
pub record IsAddressed (dev : PciDev) : Type 0 where
  pub bus_byte : dev.bus < 256
  pub devfn_byte : dev.devfn < 256

slot-sum :
    (dev : PciDev)
    → IsAddressed dev
    → os_pci_get_slot_address dev ≡ (success, dev.bus * 2 ^ 16 + dev.devfn * 2 ^ 8)
unfolding os_pci_get_slot_address
slot-sum dev v =
    ap (λ (s : ℕ). (success, s)) (bit_or_disjoint 16 dev.bus (dev.devfn * 2 ^ 8) (omega arith))

slot-regroup : (bus dev func : ℕ) → slot bus dev func ≡ bus * 2 ^ 16 + (dev * 8 + func) * 2 ^ 8
slot-regroup bus dev func = omega arith

address-sum :
    (bus dev func : ℕ)
    → dev < 32
    → func < 8
    → bit_or (bit_or (bus * 2 ^ 16) (dev % 2 ^ 5 * 2 ^ 11)) (func % 2 ^ 3 * 2 ^ 8)
      ≡ bus * 2 ^ 16 + (dev * 8 + func) * 2 ^ 8
address-sum bus dev func hd hf =
    rw (mod-eq_of_lt hd, mod-eq_of_lt hf) (slot_or bus dev func hd hf ∙ slot-regroup bus dev func)

module _ {W : Type 0} (k : PciApi W) (dev : PciDev) (v : IsAddressed dev) where
  -- The kernel finds the device at its own bus and function number.
  abbrev pub IsAt : W → Type 0
  IsAt w =
      ((k.pci_find_bus dev.bus w).0 ≡ true)
      × ((k.pci_get_slot dev.bus dev.devfn (k.pci_find_bus dev.bus w).1).0 ≡ some dev)

  bus_found-some :
      (p : Bool × W)
      → p.0 ≡ true
      → (k.pci_get_slot dev.bus dev.devfn p.1).0 ≡ some dev
      → (bus_found k dev.bus dev.devfn p).0 ≡ (success, some dev)
  unfolding bus_found
  bus_found-some (false, w) e f = absurd (ground arith)
  bus_found-some (true, w) e f = found_or_not-some (k.pci_get_slot dev.bus dev.devfn w) f
    where
      found_or_not-some :
          (p : Option PciDev × W) → p.0 ≡ some dev → (found_or_not p).0 ≡ (success, some dev)
      found_or_not-some (none, w) f = absurd (ground arith)
      found_or_not-some (some d, w) f = ap (λ (o : Option PciDev). (success, o)) f

  from_slot-sum :
      (w : W)
      → IsAt w
      → (os_pci_device_from_slot k (dev.bus * 2 ^ 16 + dev.devfn * 2 ^ 8) w).0 ≡ (success, some dev)
  unfolding os_pci_device_from_slot
  from_slot-sum w at =
      let bus : (dev.bus * 2 ^ 16 + dev.devfn * 2 ^ 8) / 2 ^ 16 ≡ dev.bus =
        omega (arith, v.devfn_byte) in
      let devfn : (dev.bus * 2 ^ 16 + dev.devfn * 2 ^ 8) / 2 ^ 8 % 2 ^ 8 ≡ dev.devfn =
        omega (arith, v.devfn_byte) in
      rw (bus, devfn) (bus_found-some (k.pci_find_bus dev.bus w) at.0 at.1)

  -- Where the kernel finds the device at its bus and function number, both the slot address and the
  -- three numbers that are read from its handle lead back to the device.
  pub address-device :
      (w : W)
      → IsAt w
      → ((os_pci_device_from_slot k (os_pci_get_slot_address dev).1 w).0 ≡ (success, some dev))
        × ((os_pci_device_from_address k dev.bus
              (dev.devfn / 2 ^ 3 % 2 ^ 5)
              (dev.devfn % 2 ^ 3)
              w).0
            ≡ (success, some dev))
  unfolding os_pci_device_from_address
  address-device w at =
      let parts : dev.devfn / 2 ^ 3 % 2 ^ 5 * 8 + dev.devfn % 2 ^ 3 ≡ dev.devfn =
        omega (arith, v.devfn_byte) in
      let sum =
        address-sum dev.bus (dev.devfn / 2 ^ 3 % 2 ^ 5) (dev.devfn % 2 ^ 3) (omega arith)
          (omega arith) in
      (rw (slot-sum dev v) (from_slot-sum w at), rw (sum, parts) (from_slot-sum w at))

-- The two implementations of the interface agree: a user-space handle with the slot address that the
-- kernel reports for a device gives the same slot address and, for whichever of the three pointers are
-- not NULL, the same bus, device and function number as the kernel does.
pub slot-agrees :
    (dev : PciDev) (irq : ℕ) (bus slot func : Bool)
    → IsAddressed dev
    → let u : User.PciDev = record { slot_address = (os_pci_get_slot_address dev).1; irq = irq } in
      (UserAddress.os_pci_get_device_address u bus slot func
        ≡ os_pci_get_device_address dev bus slot func)
      × (UserAddress.os_pci_get_slot_address (some u) true
          ≡ (success, some (os_pci_get_slot_address dev).1))
unfolding UserAddress.os_pci_get_device_address UserAddress.os_pci_get_slot_address
    os_pci_get_device_address
slot-agrees dev irq bus slot func v =
    let s = dev.bus * 2 ^ 16 + dev.devfn * 2 ^ 8 in
    let b : User.pci_bus s ≡ dev.bus = omega (arith, v.bus_byte, v.devfn_byte) in
    let d : User.pci_dev s ≡ dev.devfn / 2 ^ 3 % 2 ^ 5 = omega (arith, v.devfn_byte) in
    let f : User.pci_func s ≡ dev.devfn % 2 ^ 3 = omega (arith, v.devfn_byte) in
    let word : s % 2 ^ 32 ≡ s = omega (arith, v.bus_byte, v.devfn_byte) in
    rw (slot-sum dev v, b, d, f, word) (refl, refl)
