-- ===== src/User/Pci/Header/Reads.antt =====
-- Reading the header and reading the registers one by one agree.
use osal.Base.{
  ℕ, zero, suc, ◌+◌, ◌*◌, ◌≤◌, ◌<◌, ◌≡◌, ==_iff, refl, sym, ap, ◌∙◌, true, Option, none, some, List,
  [], ◌∷◌, arith, length,
}
use osal.Base.Slices.{take, drop, slice}
use osal.Types.{OsalResult, success}
use osal.User.Pci.Device.{PciDev, pci_bus, slot_path}
use osal.User.Pci.Device.Names.{slot_path_fits}
use osal.User.Pci.Posix.{Posix, rdonly}
use osal.User.Pci.Config.{
  from_bytes, read_close, read_whole, header_opened, os_pci_read_config_8, os_pci_read_config_16,
  os_pci_read_config_32, os_pci_read_config_header,
}
use osal.User.Pci.Config.Values.{Delivers, read_config-Delivers}
use osal.User.Pci.Header.{header_of}
use osal.User.Pci.Header.Members.{number}
use osal.User.Pci.Header.Registers.{
  Register, vendor_id, class_revision, class_device, offset, width, Variant, type0, type1, type2,
  value,
}

-- The first byte of a number and the rest.
take-drop-suc :
    (n p : ℕ) (bytes : List ℕ)
    → from_bytes (take (suc n) (drop p bytes))
      ≡ from_bytes (take 1 (drop p bytes)) + 256 * from_bytes (take n (drop (suc p) bytes))
unfolding from_bytes
take-drop-suc zero zero [] = refl
take-drop-suc (suc n) zero [] = refl
take-drop-suc n zero (b ∷ bytes) = omega arith
take-drop-suc zero (suc p) [] = refl
take-drop-suc (suc n) (suc p) [] = refl
take-drop-suc n (suc p) (b ∷ bytes) = take-drop-suc n p bytes

number-suc :
    (n p : ℕ) (bytes : List ℕ)
    → number (suc n) bytes p ≡ number 1 bytes p + 256 * number n bytes (suc p)
unfolding number
number-suc n p bytes = take-drop-suc n p bytes

-- A member holds the number that stands at the register's offset.
value-number :
    (r : Register) (v : Variant) (bytes : List ℕ) (x : ℕ)
    → value r v (header_of bytes) ≡ some x
    → x ≡ number (width r) bytes (offset r)
unfolding value header_of
value-number class_revision v bytes x e =
    ground (arith, number-suc 3 8 bytes, number-suc 2 9 bytes, number-suc 1 10 bytes)
value-number class_device v bytes x e = ground (arith, number-suc 1 10 bytes)
value-number r type0 bytes x e = cc
value-number r type1 bytes x e = cc
value-number r type2 bytes x e = cc

register-fits : (r : Register) → offset r + width r ≤ 256
register-fits vendor_id = omega arith
register-fits r = omega arith

length-take : (n : ℕ) (xs : List ℕ) → n ≤ length xs → length (take n xs) ≡ n
length-take zero xs h = refl
length-take (suc n) [] h = absurd (omega arith)
length-take (suc n) (x ∷ xs) h = omega (arith, length-take n xs)

length-slice : (p n : ℕ) (xs : List ℕ) → p + n ≤ length xs → length (slice p n xs) ≡ n
unfolding slice
length-slice zero n xs h = length-take n xs (omega arith)
length-slice (suc p) zero [] h = refl
length-slice (suc p) (suc n) [] h = absurd (omega arith)
length-slice (suc p) n (x ∷ xs) h = length-slice p n xs (omega arith)

-- The access of a register's width at its offset.
abbrev pub read_register :
    {W : Type 0} → Posix W → Register → PciDev → W → (OsalResult × Option ℕ) × W
read_register os r d w = elim (width r) [
  | suc zero ↦ os_pci_read_config_8 os (some d) (offset r) true w
  | suc (suc zero) ↦ os_pci_read_config_16 os (some d) (offset r) true w
  | _ ↦ os_pci_read_config_32 os (some d) (offset r) true w
]

module _ {W : Type 0} (os : Posix W) (d : PciDev) (bytes : List ℕ) (w : W)
    (small : pci_bus d.slot_address < 256) (whole : length bytes ≡ 256) where
  -- The device's file opens and delivers its 256 bytes.
  abbrev pub DeliversWhole : Type 0
  DeliversWhole =
      let o = os.open_file (slot_path d.slot_address) rdonly w in
      (fd : ℕ) × (o.0 ≡ some fd) × ((os.read fd 256 o.1).0 ≡ bytes)

  -- The device's file opens, and a read behind a seek delivers the bytes that stand there.
  abbrev pub DeliversParts : Type 0
  DeliversParts = (off n : ℕ) → Delivers os d off n small (slice off n bytes) w

  read-Register :
      (r : Register)
      → DeliversParts
      → (read_register os r d w).0 ≡ (success, some (number (width r) bytes (offset r)))
  unfolding number os_pci_read_config_8 os_pci_read_config_16 os_pci_read_config_32
  read-Register vendor_id parts =
      read_config-Delivers os d 0 2 small _ w (length-slice 0 2 bytes (omega arith)) (parts 0 2)
  read-Register r parts =
      read_config-Delivers os d (offset r) (width r) small _ w
        (length-slice (offset r) (width r) bytes (omega (arith, register-fits r)))
        (parts (offset r) (width r))

  read_closed-whole :
      (fd : ℕ) (p : List ℕ × W) → p.0 ≡ bytes → (read_close os 256 fd p).0 ≡ (success, some bytes)
  unfolding read_close
  read_closed-whole fd (got, v) e = rw (e, (==_iff (length bytes) 256).1 whole) refl

  header_opened-whole :
      (fd : ℕ) (p : Option ℕ × W)
      → p.0 ≡ some fd
      → (os.read fd 256 p.1).0 ≡ bytes
      → (header_opened os p).0 ≡ (success, some bytes)
  unfolding header_opened read_whole
  header_opened-whole fd (none, v) o e = absurd (ground arith)
  header_opened-whole fd (some fd', v) o e =
      let same : fd' ≡ fd = ground arith in rw same (read_closed-whole fd (os.read fd 256 v) e)

  -- For a bus number below 256 and a file of the device that opens and delivers its 256 bytes, whole
  -- and in parts: os_pci_read_config_header succeeds with these bytes, and whatever a caller finds in
  -- a member of the structure that holds a register of osal_pci.h, in the variant of the union that it
  -- looks at, is what os_pci_read_config_8, _16 or _32, by the register's width, delivers for the
  -- register's offset.
  pub header-registers :
      (r : Register) (v : Variant) (x : ℕ)
      → DeliversWhole
      → DeliversParts
      → value r v (header_of bytes) ≡ some x
      → ((os_pci_read_config_header os (some d) true w).0 ≡ (success, some bytes))
        × ((read_register os r d w).0 ≡ (success, some x))
  unfolding os_pci_read_config_header
  header-registers r v x (fd, o, e) parts held = (
    rw ((==_iff _ 21).1 ((slot_path_fits d.slot_address).1 small))
        (header_opened-whole fd (os.open_file (slot_path d.slot_address) rdonly w) o e),
    read-Register r parts ∙ ap (λ (n : ℕ). (success, some n)) (sym (value-number r v bytes x held)),
  )
