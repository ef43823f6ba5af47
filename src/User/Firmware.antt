-- ===== src/User/Firmware.antt =====
-- linux_user/src/osal_firmware.c: a firmware image is read into a buffer.
pub mod Buffer
mod Tests
use osal.Base.{ℕ, Bool, true, false, Option, none, some, List, ◌==◌, if◌then◌else◌, length}
use osal.Types.{OsalResult, success, error, invalid_param}

-- `os_firmware_t` but for `fw_entry`, which is not used: the buffer is none for NULL, and else its contents.
pub record Firmware : Type 0 where
  pub fw_address : Option (List ℕ)
  pub fw_size : ℕ

-- The calls of the C library. `size` is fseek to the end, ftell and fseek to the start; `malloc`
-- returns a buffer with whatever it holds; `fread` returns the bytes that are read.
pub record FileApi (W : Type 0) : Type 0 where
  pub fopen : List ℕ → W → Bool × W
  pub size : W → ℕ × W
  pub malloc : ℕ → W → Option (List ℕ) × W
  pub fread : ℕ → W → List ℕ × W
  pub fclose : W → W
  pub free : W → W

-- The bytes that are read replace the start of the buffer.
unfoldable pub overwrite : (bytes buffer : List ℕ) → List ℕ
overwrite List.[] buffer = buffer
overwrite (List.◌∷◌ b bytes) List.[] = List.[]
overwrite (List.◌∷◌ b bytes) (List.◌∷◌ c buffer) = List.◌∷◌ b (overwrite bytes buffer)

module _ {W : Type 0} (os : FileApi W) where
  image_read : (size : ℕ) → List ℕ → List ℕ × W → (OsalResult × Firmware) × W
  unfolding overwrite
  image_read size buffer (bytes, w) =
      let fw : Firmware = record { fw_address = some (overwrite bytes buffer); fw_size = size } in
      ((if length bytes == size then success else error, fw), os.fclose w)

  buffer_made : (size : ℕ) → Option (List ℕ) × W → (OsalResult × Firmware) × W
  unfolding image_read
  buffer_made size (none, w) = ((error, record { fw_address = none; fw_size = size }), os.fclose w)
  buffer_made size (some buffer, w) = image_read size buffer (os.fread size w)

  size_known : ℕ × W → (OsalResult × Firmware) × W
  unfolding buffer_made
  size_known (size, w) = buffer_made size (os.malloc size w)

  image_opened : Firmware → Bool × W → (OsalResult × Firmware) × W
  unfolding size_known
  image_opened fw (false, w) = ((error, fw), w)
  image_opened fw (true, w) = size_known (os.size w)

  unfoldable pub os_firmware_request :
      (fw_image_fs_path : List ℕ) → Option Firmware → W → (OsalResult × Option Firmware) × W
  unfolding image_opened
  os_firmware_request path none w = ((invalid_param, none), w)
  os_firmware_request path (some fw) w =
      let r = image_opened fw (os.fopen path w) in ((r.0.0, some r.0.1), r.1)

  unfoldable pub os_firmware_release : Option Firmware → W → (OsalResult × Option Firmware) × W
  os_firmware_release none w = ((invalid_param, none), w)
  os_firmware_release (some fw) w = elim fw.fw_address [
    | none ↦ ((error, some fw), w)
    | some buffer ↦ ((success, some (record { fw_address = none; fw_size = 0 })), os.free w)
  ]
