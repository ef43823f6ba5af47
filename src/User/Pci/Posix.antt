-- ===== src/User/Pci/Posix.antt =====
-- The calls of the C library and of Linux that linux_user/src/osal_pci.c makes, as a parameter.
use osal.Base.{ℕ, ◌+◌, ◌*◌, ◌-◌, ◌≡◌, Bool, Option, List, to_nat, is_some}
use osal.User.Pci.Device.{PciDev}

pub data Access : Type 0 where
  rdonly wronly : Access

-- `W` is the state of the outside world, which each call may change.
-- `fopen_devices` opens /proc/bus/pci/devices: a line of it, as `fgets` reads it, is the list of the numbers that `sscanf`
-- converts from it. `malloc` returns a device with whatever contents the memory has.
pub record Posix (W : Type 0) : Type 0 where
  pub open_file : List ℕ → Access → W → Option ℕ × W
  pub lseek : ℕ → ℕ → W → Bool × W
  pub read : ℕ → ℕ → W → List ℕ × W
  pub write : ℕ → List ℕ → W → ℕ × W
  pub close : ℕ → W → W
  pub fopen_devices : W → Option (List (List ℕ)) × W
  pub fopen : List ℕ → W → Bool × W
  pub fclose : W → W
  pub malloc : W → Option PciDev × W
  pub free : W → W

-- `held w` counts what the process holds, an open file as `file` and an allocated device as `block`:
-- a call that opens or allocates adds that if it succeeds, and one that closes or frees takes it
-- away. With 1 and 0 it counts open files, with 0 and 1 allocated devices.
pub record Counts {W : Type 0} (os : Posix W) (file block : ℕ) (held : W → ℕ) : Type 0 where
  pub open_file :
      (path : List ℕ) (m : Access) (w : W)
      → held (os.open_file path m w).1 ≡ held w + file * to_nat (is_some (os.open_file path m w).0)
  pub lseek : (fd off : ℕ) (w : W) → held (os.lseek fd off w).1 ≡ held w
  pub read : (fd n : ℕ) (w : W) → held (os.read fd n w).1 ≡ held w
  pub write : (fd : ℕ) (bs : List ℕ) (w : W) → held (os.write fd bs w).1 ≡ held w
  pub close : (fd : ℕ) (w : W) → held (os.close fd w) ≡ held w - file
  pub fopen_devices :
      (w : W)
      → held (os.fopen_devices w).1 ≡ held w + file * to_nat (is_some (os.fopen_devices w).0)
  pub fopen :
      (path : List ℕ) (w : W)
      → held (os.fopen path w).1 ≡ held w + file * to_nat (os.fopen path w).0
  pub fclose : (w : W) → held (os.fclose w) ≡ held w - file
  pub malloc : (w : W) → held (os.malloc w).1 ≡ held w + block * to_nat (is_some (os.malloc w).0)
  pub free : (w : W) → held (os.free w) ≡ held w - block
