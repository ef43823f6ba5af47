-- ===== src/User/Firmware/Buffer.antt =====
-- The buffer of a firmware request, and the file that is read.
use osal.Base.{
  ℕ, ◌+◌, ◌-◌, ◌*◌, ◌≡◌, Bool, true, false, Option, none, some, List, arith, to_nat, is_some,
}
use osal.Types.{OsalResult}
use osal.User.Firmware.{
  Firmware, FileApi, buffer_made, size_known, image_opened, os_firmware_request,
  os_firmware_release,
}

-- `held w` counts an open file as `file` and an allocated buffer as `block`.
pub record Counts {W : Type 0} (os : FileApi W) (file block : ℕ) (held : W → ℕ) : Type 0 where
  pub fopen :
      (path : List ℕ) (w : W)
      → held (os.fopen path w).1 ≡ held w + file * to_nat (os.fopen path w).0
  pub size : (w : W) → held (os.size w).1 ≡ held w
  pub malloc :
      (n : ℕ) (w : W) → held (os.malloc n w).1 ≡ held w + block * to_nat (is_some (os.malloc n w).0)
  pub fread : (n : ℕ) (w : W) → held (os.fread n w).1 ≡ held w
  pub fclose : (w : W) → held (os.fclose w) ≡ held w - file
  pub free : (w : W) → held (os.free w) ≡ held w - block

-- Whether a firmware structure holds a buffer.
abbrev pub has_buffer : Option Firmware → Bool
has_buffer none = false
has_buffer (some fw) = is_some fw.fw_address

module _ {W : Type 0} (os : FileApi W) (file block : ℕ) (held : W → ℕ)
    (law : Counts os file block held) where
  -- A request that began at a count of `n`, when the file is open.
  abbrev Requested : ℕ → (OsalResult × Firmware) × W → Type 0
  Requested n r = held r.1 ≡ n + block * to_nat (is_some r.0.1.fw_address)

  made-Requested :
      (n size : ℕ) (p : Option (List ℕ) × W)
      → held p.1 ≡ n + file + block * to_nat (is_some p.0)
      → Requested n (buffer_made os size p)
  unfolding buffer_made
  made-Requested n size (none, w) e = omega (arith, law.fclose w)
  made-Requested n size (some buffer, w) e =
      omega (arith, law.fread size w, law.fclose (os.fread size w).1)

  opened-Requested :
      (n : ℕ) (fw : Firmware) (p : Bool × W)
      → fw.fw_address ≡ none
      → held p.1 ≡ n + file * to_nat p.0
      → Requested n (image_opened os fw p)
  unfolding image_opened size_known
  opened-Requested n fw (false, w) f e = rw f (omega arith)
  opened-Requested n fw (true, w) f e =
      let s = os.size w in
      made-Requested n s.0 (os.malloc s.0 s.1) (omega (arith, law.malloc s.0 s.1, law.size w))

  request-held :
      (path : List ℕ) (fw : Firmware) (w : W)
      → fw.fw_address ≡ none
      → let r = os_firmware_request os path (some fw) w in
        held r.1 ≡ held w + block * to_nat (has_buffer r.0.1)
  unfolding os_firmware_request
  request-held path fw w f = opened-Requested (held w) fw (os.fopen path w) f (law.fopen path w)

  release-held :
      (n : ℕ) (fw : Option Firmware) (w : W)
      → held w ≡ n + block * to_nat (has_buffer fw)
      → held (os_firmware_release os fw w).1 ≡ n
  unfolding os_firmware_release
  release-held n none w e = omega arith
  release-held n (some fw) w e = ground (arith, law.free w)

  -- For any count of open files and allocated buffers that the calls respect, a request into a
  -- structure without a buffer closes the file on every path and leaves in the count exactly the
  -- buffer that the structure then has, which it may have also when the request fails. Releasing the
  -- structure brings the count back to what it was before, whatever the request returned.
  pub request_release-held :
      (path : List ℕ) (fw : Firmware) (w : W)
      → fw.fw_address ≡ none
      → let r = os_firmware_request os path (some fw) w in
        (held r.1 ≡ held w + block * to_nat (has_buffer r.0.1))
        × (held (os_firmware_release os r.0.1 r.1).1 ≡ held w)
  request_release-held path fw w f =
      let e = request-held path fw w f in (e, release-held (held w) _ _ e)
