-- ===== src/User/Firmware/Tests.antt =====
-- A concrete request, where the file is shorter than its size.
use osal.Base.{ℕ, ◌+◌, ◌-◌, ◌*◌, ◌≡◌, refl, true, none, some, [], ◌∷◌, to_nat}
use osal.User.Firmware.{Firmware, FileApi, os_firmware_request, os_firmware_release}
use osal.User.Firmware.Buffer.{Counts, has_buffer, request_release-held}

abbrev machine : FileApi ℕ
machine = record {
  fopen = λ path w. (true, w + 1);
  size = λ w. (4, w);
  malloc = λ n w. (some (0 ∷ (0 ∷ (0 ∷ (0 ∷ [])))), w + 1);
  fread = λ n w. (9 ∷ (8 ∷ []), w);
  fclose = λ w. w - 1;
  free = λ w. w - 1;
}

machine-Counts : Counts machine 1 1 (λ w. w)
machine-Counts = record {
  fopen = λ path w. refl;
  size = λ w. refl;
  malloc = λ n w. refl;
  fread = λ n w. refl;
  fclose = λ w. refl;
  free = λ w. refl;
}

abbrev unused : Firmware
unused = record { fw_address = none; fw_size = 0 }

request_release-held_example :
    let r = os_firmware_request machine (b'f' ∷ []) (some unused) 6 in
    (r.1 ≡ 6 + 1 * to_nat (has_buffer r.0.1)) × ((os_firmware_release machine r.0.1 r.1).1 ≡ 6)
request_release-held_example =
    request_release-held machine 1 1 (λ w. w) machine-Counts (b'f' ∷ []) unused 6 refl
