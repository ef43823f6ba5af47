-- ===== src/User/Pci/Address/Handles.antt =====
-- A handle made from a bus, device and function number gives the three numbers back.
use Prim.Native.Nat.{bit_or}
use osal.Base.{
  ℕ, ◌+◌, ◌*◌, ◌^◌, ◌<◌, ◌≡◌, refl, ◌∙◌, ap, Bool, true, false, Option, none, some, arith, is_some,
  ◌==◌, ==_iff, ◌⊎◌, inl, inr, length,
}
use osal.Base.Bits.{bit_or_disjoint}
use osal.Types.{OsalResult, success, not_found, insufficient_memory}
use osal.User.Pci.Device.{PciDev, slot_path}
use osal.User.Pci.Device.Names.{slot_path_fits}
use osal.User.Pci.Posix.{Posix}
use osal.User.Pci.Address.{
  slot_alloc, slot_opened, os_pci_device_from_slot, os_pci_device_from_address,
  os_pci_get_device_address,
}

-- The slot of a bus, device and function number.
abbrev pub slot : (bus dev func : ℕ) → ℕ
slot bus dev func = (bus * 2 ^ 5 + dev) * 2 ^ 11 + func * 2 ^ 8

pub slot_or :
    (bus dev func : ℕ)
    → dev < 2 ^ 5
    → func < 2 ^ 3
    → bit_or (bit_or (bus * 2 ^ 16) (dev * 2 ^ 11)) (func * 2 ^ 8) ≡ slot bus dev func
slot_or bus dev func hd hf =
    ap (λ (a : ℕ). bit_or a (func * 2 ^ 8))
      (bit_or_disjoint 16 bus (dev * 2 ^ 11) (omega arith) ∙ regroup)
    ∙ bit_or_disjoint 11 (bus * 2 ^ 5 + dev) (func * 2 ^ 8) (omega arith)
  where
    regroup : bus * 2 ^ 16 + dev * 2 ^ 11 ≡ (bus * 2 ^ 5 + dev) * 2 ^ 11
    regroup = omega arith

module _ {W : Type 0} (os : Posix W) where
  -- What a call that tries a slot returns, by whether the file opens and memory suffices.
  abbrev pub Outcome : (bus dev func : ℕ) → Bool × W → OsalResult × Option PciDev → Type 0
  Outcome bus dev func opened r =
      ((opened.0 ≡ false) × (r ≡ (not_found, none)))
      ⊎ (((opened.0 ≡ true)
            × (is_some (os.malloc opened.1).0 ≡ false)
            × (r ≡ (insufficient_memory, none)))
          ⊎ ((opened.0 ≡ true)
              × (is_some (os.malloc opened.1).0 ≡ true)
              × ((d : PciDev) × (r ≡ (success, some d))
                  × (os_pci_get_device_address d true true true
                      ≡ (success, some bus, some dev, some func)))))

  address-back :
      (bus dev func : ℕ) (d : PciDev)
      → bus < 256
      → dev < 32
      → func < 8
      → d.slot_address ≡ slot bus dev func
      → os_pci_get_device_address d true true true ≡ (success, some bus, some dev, some func)
  unfolding os_pci_get_device_address
  address-back bus dev func d hb hd hf e = rw e (ground arith)

  module _ (bus dev func : ℕ) (hb : bus < 256) (hd : dev < 32) (hf : func < 8) where
    alloc-Outcome :
        (w : W) (p : Option PciDev × W)
        → p ≡ os.malloc w
        → Outcome bus dev func (true, w) (slot_alloc os (slot bus dev func) p).0
    unfolding slot_alloc
    alloc-Outcome w (none, w') e = inr (inl (refl, rw (← e), refl))
    alloc-Outcome w (some d, w') e = inr (
        inr (
          refl,
          rw (← e),
          (
            record d { slot_address = slot bus dev func },
            refl,
            address-back bus dev func _ hb hd hf refl,
          ),
        ))

    opened-Outcome :
        (p : Bool × W) → Outcome bus dev func p (slot_opened os (slot bus dev func) p).0
    unfolding slot_opened
    opened-Outcome (false, w) = inl (refl, refl)
    opened-Outcome (true, w) = alloc-Outcome w (os.malloc w) refl

    slot_path-21 : (length (slot_path (slot bus dev func)) == 21) ≡ true
    slot_path-21 = (==_iff _ _).1 ((slot_path_fits (slot bus dev func)).1 (omega arith))

    -- For a bus number below 256, a device below 32 and a function below 8,
    -- os_pci_device_from_address fails with OSAL_NOT_FOUND when the device's file does not open and
    -- with OSAL_INSUFFICIENT_MEMORY when it opens and the allocation fails. Otherwise it succeeds with
    -- a handle from which os_pci_get_device_address gets the three numbers back.
    pub device_from_address-Outcome :
        (w : W)
        → Outcome bus dev func
            (os.fopen (slot_path (slot bus dev func)) w)
            (os_pci_device_from_address os bus dev func w).0
    unfolding os_pci_device_from_address os_pci_device_from_slot
    device_from_address-Outcome w =
        rw (slot_or bus dev func hd hf, slot_path-21)
          (opened-Outcome (os.fopen (slot_path (slot bus dev func)) w))
