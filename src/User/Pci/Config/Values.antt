-- ===== src/User/Pci/Config/Values.antt =====
-- The bytes that a write of a configuration register passes on and a read takes back.
use osal.Base.{
  ℕ, zero, suc, ◌/◌, ◌%◌, ◌^◌, ◌<◌, ◌≡◌, refl, sym, ap, ◌*◌, ◌∙◌, Bool, true, false, Option, none,
  some, List, arith, ◌==◌, ==_iff, length,
}
use osal.Types.{OsalResult, success}
use osal.User.Pci.Device.{PciDev, pci_bus, slot_path}
use osal.User.Pci.Device.Names.{slot_path_fits}
use osal.User.Pci.Posix.{Posix, rdonly, wronly}
use osal.User.Pci.Config.{
  from_bytes, to_bytes, read_close, read_sought, read_opened, read_bytes, as_value, read_config,
  write_close, write_sought, write_opened, write_config, os_pci_read_config_8,
  os_pci_read_config_16, os_pci_read_config_32, os_pci_write_config_8, os_pci_write_config_16,
  os_pci_write_config_32,
}

length-to_bytes : (n v : ℕ) → length (to_bytes n v) ≡ n
unfolding to_bytes
length-to_bytes zero v = refl
length-to_bytes (suc n) v = ap (λ (k : ℕ). suc k) (length-to_bytes n (v / 256))

module _ {W : Type 0} (os : Posix W) (d : PciDev) (off n : ℕ)
    (hb : pci_bus d.slot_address < 256) where
  abbrev path : List ℕ
  path = slot_path d.slot_address

  path-21 : (length path == 21) ≡ true
  path-21 = (==_iff (length path) 21).1 ((slot_path_fits d.slot_address).1 hb)

  -- The calls of a read that starts in `w` succeed and deliver `bs`.
  abbrev pub Delivers : List ℕ → W → Type 0
  Delivers bs w =
      let o = os.open_file path rdonly w in
      (fd : ℕ) × (o.0 ≡ some fd)
      × ((os.lseek fd off o.1).0 ≡ true)
      × ((os.read fd n (os.lseek fd off o.1).1).0 ≡ bs)

  read-closed :
      (fd : ℕ) (bs : List ℕ) (p : List ℕ × W)
      → length bs ≡ n
      → p.0 ≡ bs
      → (read_close os n fd p).0 ≡ (success, some bs)
  unfolding read_close
  read-closed fd bs (got, w) h e = rw (e, (==_iff (length bs) n).1 h) refl

  read-sought :
      (fd : ℕ) (bs : List ℕ) (p : Bool × W)
      → length bs ≡ n
      → p.0 ≡ true
      → (os.read fd n p.1).0 ≡ bs
      → (read_sought os n fd p).0 ≡ (success, some bs)
  unfolding read_sought
  read-sought fd bs (false, w) h t e = absurd (ground arith)
  read-sought fd bs (true, w) h t e = read-closed fd bs (os.read fd n w) h e

  read-opened :
      (bs : List ℕ) (fd : ℕ) (p : Option ℕ × W)
      → length bs ≡ n
      → p.0 ≡ some fd
      → (os.lseek fd off p.1).0 ≡ true
      → (os.read fd n (os.lseek fd off p.1).1).0 ≡ bs
      → (read_opened os n off p).0 ≡ (success, some bs)
  unfolding read_opened
  read-opened bs fd (none, w) h o s e = absurd (ground arith)
  read-opened bs fd (some fd', w) h o s e =
      let same : fd' ≡ fd = ground arith in rw same (read-sought fd bs (os.lseek fd off w) h s e)

  as_value-bytes :
      (bs : List ℕ) (p : (OsalResult × Option (List ℕ)) × W)
      → p.0 ≡ (success, some bs)
      → (as_value os p).0 ≡ (success, some (from_bytes bs))
  unfolding as_value
  as_value-bytes bs ((r, none), w) e = absurd (ground arith)
  as_value-bytes bs ((r, some got), w) e = cc

  pub read_config-Delivers :
      (bs : List ℕ) (w : W)
      → length bs ≡ n
      → Delivers bs w
      → (read_config os n (some d) off true w).0 ≡ (success, some (from_bytes bs))
  unfolding read_config read_bytes
  read_config-Delivers bs w h (fd, o, s, e) =
      rw path-21 (as_value-bytes bs _ (read-opened bs fd (os.open_file path rdonly w) h o s e))

  -- What the calls of a successful write have returned, and where they end.
  abbrev pub Written : ℕ → W → W → Type 0
  Written v w w' =
      let o = os.open_file path wronly w in
      (fd : ℕ) × (o.0 ≡ some fd)
      × ((os.lseek fd off o.1).0 ≡ true)
      × ((os.write fd (to_bytes n v) (os.lseek fd off o.1).1).0 ≡ n)
      × (w' ≡ os.close fd (os.write fd (to_bytes n v) (os.lseek fd off o.1).1).1)

  write-closed :
      (fd : ℕ) (p : ℕ × W)
      → (write_close os n fd p).0 ≡ success
      → (p.0 ≡ n) × ((write_close os n fd p).1 ≡ os.close fd p.1)
  unfolding write_close
  write-closed fd (count, w) e = ground arith

  write-sought :
      (v fd : ℕ) (p : Bool × W)
      → (write_sought os n v fd p).0 ≡ success
      → (p.0 ≡ true)
        × ((os.write fd (to_bytes n v) p.1).0 ≡ n)
        × ((write_sought os n v fd p).1 ≡ os.close fd (os.write fd (to_bytes n v) p.1).1)
  unfolding write_sought
  write-sought v fd (false, w) e = absurd (ground arith)
  write-sought v fd (true, w) e =
      let r = write-closed fd (os.write fd (to_bytes n v) w) e in (refl, r.0, r.1)

  write-opened :
      (v : ℕ) (p : Option ℕ × W)
      → (write_opened os n off v p).0 ≡ success
      → (fd : ℕ) × (p.0 ≡ some fd)
        × ((os.lseek fd off p.1).0 ≡ true)
        × ((os.write fd (to_bytes n v) (os.lseek fd off p.1).1).0 ≡ n)
        × ((write_opened os n off v p).1
            ≡ os.close fd (os.write fd (to_bytes n v) (os.lseek fd off p.1).1).1)
  unfolding write_opened
  write-opened v (none, w) e = absurd (ground arith)
  write-opened v (some fd, w) e =
      let r = write-sought v fd (os.lseek fd off w) e in (fd, refl, r.0, r.1, r.2)

  write_config-Written :
      (v : ℕ) (w : W)
      → (write_config os n (some d) off v w).0 ≡ success
      → Written v w (write_config os n (some d) off v w).1
  unfolding write_config
  write_config-Written v w e =
      rw path-21 (write-opened v (os.open_file path wronly w) (rw path-21 at e))

-- The three widths of an access.
pub data Width : Type 0 where
  bits_8 bits_16 bits_32 : Width

abbrev pub byte_count : Width → ℕ
byte_count bits_8 = 1
byte_count bits_16 = 2
byte_count bits_32 = 4

module _ {W : Type 0} (os : Posix W) where
  abbrev pub os_pci_write_config : Width → Option PciDev → (offset val : ℕ) → W → OsalResult × W
  os_pci_write_config bits_8 = os_pci_write_config_8 os
  os_pci_write_config bits_16 = os_pci_write_config_16 os
  os_pci_write_config bits_32 = os_pci_write_config_32 os

  abbrev pub os_pci_read_config : Width → Option PciDev → ℕ → Bool → W → (OsalResult × Option ℕ) × W
  os_pci_read_config bits_8 = os_pci_read_config_8 os
  os_pci_read_config bits_16 = os_pci_read_config_16 os
  os_pci_read_config bits_32 = os_pci_read_config_32 os

  writes : (width : Width) → os_pci_write_config width ≡ write_config os (byte_count width)
  unfolding os_pci_write_config_8 os_pci_write_config_16 os_pci_write_config_32
  writes bits_8 = refl
  writes bits_16 = refl
  writes bits_32 = refl

  reads : (width : Width) → os_pci_read_config width ≡ read_config os (byte_count width)
  unfolding os_pci_read_config_8 os_pci_read_config_16 os_pci_read_config_32
  reads bits_8 = refl
  reads bits_16 = refl
  reads bits_32 = refl

from_bytes-to_bytes :
    (width : Width) (v : ℕ)
    → from_bytes (to_bytes (byte_count width) v) ≡ v % 2 ^ (8 * byte_count width)
unfolding from_bytes to_bytes
from_bytes-to_bytes bits_8 v = omega arith
from_bytes-to_bytes bits_16 v = omega arith
from_bytes-to_bytes bits_32 v = omega arith

-- If what a write at an offset of a device's file leaves behind is delivered to the reads of as many
-- bytes there that come next, then after a write that succeeds, by the function for 8, 16 or 32 bits,
-- the function that reads as many bits succeeds with the value that was written, cut to these bits.
pub write-read_config :
    {W : Type 0} (os : Posix W) (width : Width) (d : PciDev) (off v : ℕ) (w : W)
    (hb : pci_bus d.slot_address < 256)
    → ((x y : W)
        → Written os d off (byte_count width) hb v x y
        → Delivers os d off (byte_count width) hb (to_bytes (byte_count width) v) y)
    → (os_pci_write_config os width (some d) off v w).0 ≡ success
    → (os_pci_read_config os width
        (some d)
        off
        true
        (os_pci_write_config os width (some d) off v w).1).0
      ≡ (success, some (v % 2 ^ (8 * byte_count width)))
write-read_config os width d off v w hb keeps e =
    let n = byte_count width in
    let w' = (write_config os n (some d) off v w).1 in
    rw (writes os width, reads os width)
      (read_config-Delivers os d off n hb (to_bytes n v) w' (length-to_bytes n v)
          (keeps w w' (write_config-Written os d off n hb v w (rw (sym (writes os width)) e)))
        ∙ ap (λ (x : ℕ). (success, some x)) (from_bytes-to_bytes width v))
