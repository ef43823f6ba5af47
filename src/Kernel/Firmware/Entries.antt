-- ===== src/Kernel/Firmware/Entries.antt =====
-- Firmware entries that are requested and released.
use osal.Base.{ℕ, ◌+◌, ◌-◌, ◌≡◌, refl, Option, none, some, List, arith, to_nat, is_some}
use osal.Types.{OsalResult, error}
use osal.Kernel.Firmware.{
  Entry, Firmware, FirmwareApi, entry_requested, os_firmware_request, os_firmware_release,
}

-- `held w` counts the entries that the kernel has given out.
pub record Counts {W : Type 0} (k : FirmwareApi W) (held : W → ℕ) : Type 0 where
  pub request_firmware :
      (path : List ℕ) (w : W)
      → held (k.request_firmware path w).1 ≡ held w + to_nat (is_some (k.request_firmware path w).0)
  pub release_firmware : (e : Entry) (w : W) → held (k.release_firmware e w) ≡ held w - 1

module _ {W : Type 0} (k : FirmwareApi W) (held : W → ℕ) (law : Counts k held) where
  -- A request and a release, and then one more release, from a count of `n`.
  abbrev pub Returned : ℕ → (OsalResult × Option Firmware) × W → Type 0
  Returned n r =
      let once = os_firmware_release k r.0.1 r.1 in
      let twice = os_firmware_release k once.0.1 once.1 in
      (once.0.0 ≡ r.0.0) × (held once.1 ≡ n) × (twice ≡ ((error, once.0.1), once.1))

  requested-Returned :
      (n : ℕ) (fw : Firmware) (p : Option Entry × W)
      → fw.fw_entry ≡ none
      → held p.1 ≡ n + to_nat (is_some p.0)
      → Returned n (entry_requested k fw p)
  unfolding entry_requested os_firmware_release
  requested-Returned n fw (none, w) f e = rw f (refl, omega arith, ground arith)
  requested-Returned n fw (some x, w) f e = (refl, omega (arith, law.release_firmware x w), refl)

  -- For any count of firmware entries that the kernel's calls respect, a request into a structure
  -- without an entry followed by a release leaves the count as it was. The release succeeds exactly
  -- if the request did, and a second release fails with OSAL_ERROR and changes nothing.
  pub request-Returned :
      (path : List ℕ) (fw : Firmware) (w : W)
      → fw.fw_entry ≡ none
      → Returned (held w) (os_firmware_request k path (some fw) w)
  unfolding os_firmware_request
  request-Returned path fw w f =
      requested-Returned (held w) fw (k.request_firmware path w) f (law.request_firmware path w)
