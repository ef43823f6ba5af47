-- ===== src/Kernel/MemMap/PreSilicon/Tests.antt =====
-- A machine with the HDMI card, whose registers hold 0x50000000.
use osal.Base.{
  ℕ, ◌≡◌, refl, sym, ap, Bool, true, false, Option, none, some, List, [], ◌∷◌, ◌==◌, length,
  is_some, map, if◌then◌else◌, leb,
}
use mathlib.Core.Path.{subst}
use osal.Types.{success}
use osal.Cards.{bar_offset, expected_base}
use osal.User.Pci.Device
use osal.User.Pci.Posix.{Posix}
use osal.User.Pci.Config.{os_pci_read_config_32, from_bytes}
use osal.User.Pci.Scan.{pci_find_device, wanted, slot_of}
use osal.User.Pci.Scan.Order.{Entry, line_of, slots}
use osal.User.Pci.Scan.Enumerate.{HeadIs, find_first-HeadIs}
use osal.User.MemMap.PreSilicon as UserPreSilicon
use osal.User.MemMap.PreSilicon.Moved.{Machine}
use osal.Kernel.Pci
use osal.Kernel.Pci.{PciDev, PciApi, os_pci_find_first_device}
use osal.Kernel.MemMap.PreSilicon.{cards, pre_silicon_base}
use osal.Kernel.MemMap.PreSilicon.Agree.{KernelMachine, bases-agree}

-- The line of /proc/bus/pci/devices.
abbrev lines : List Entry
lines = (0x10, 0x80862e63, 11) ∷ []

abbrev present : (vid did : ℕ) → Bool
present vid did = 0x80862e63 == wanted vid did

abbrev registers : (vid did offset : ℕ) → ℕ
registers vid did offset = 0x50000000

abbrev head : List ℕ → ℕ
head [] = 0
head (x ∷ xs) = x

abbrev user_card : Device.PciDev
user_card = record { slot_address = 0x1000; irq = 11 }

abbrev kernel_card : PciDev
kernel_card = record { irq = 3; vendor = 0x8086; device = 0x2e63; class = 3; bus = 2; devfn = 8 }

abbrev files : Posix ℕ
files = record {
  open_file = λ path m w. (some 3, w);
  lseek = λ fd off w. (true, w);
  read = λ fd n w. (0 ∷ (0 ∷ (0 ∷ (0x50 ∷ []))), w);
  write = λ fd bs w. (length bs, w);
  close = λ fd w. w;
  fopen_devices = λ w. (some (map line_of lines), w);
  fopen = λ path w. (true, w);
  fclose = λ w. w;
  malloc = λ w. (some user_card, w);
  free = λ w. w;
}

abbrev chosen : {A : Type 0} → A → Bool → Option A
chosen x true = some x
chosen x false = none

chosen-some : {A : Type 0} (x : A) (b : Bool) → is_some (chosen x b) ≡ b
chosen-some x true = refl
chosen-some x false = refl

listed :
    (vid did w : ℕ)
    → HeadIs (pci_find_device files vid did none w).0 (if present vid did then 0x1000 ∷ [] else [])
unfolding slots slot_of
listed vid did w = find_first-HeadIs files (λ w'. refl) vid did lines w refl

HeadIs-some :
    (p : Option Device.PciDev) (b : Bool) → HeadIs p (if b then 0x1000 ∷ [] else []) → is_some p ≡ b
HeadIs-some none true h = absurd (cc)
HeadIs-some none false h = refl
HeadIs-some (some dev) true h = refl
HeadIs-some (some dev) false (rest, e) = absurd (cc)

not_found : (dev : Device.PciDev) → ¬ HeadIs (some dev) []
not_found dev (rest, e) = cc

HeadIs-slot :
    (p : Option Device.PciDev) (dev : Device.PciDev) (b : Bool)
    → HeadIs p (if b then 0x1000 ∷ [] else [])
    → p ≡ some dev
    → dev.slot_address ≡ 0x1000
HeadIs-slot p dev true h e =
    ap (λ (l : List ℕ). head l) (sym (subst (λ q. HeadIs q (0x1000 ∷ [])) e h).1)
HeadIs-slot p dev false h e = absurd (not_found dev (subst (λ q. HeadIs q []) e h))

read_card :
    (dev : Device.PciDev) (offset w : ℕ)
    → dev.slot_address ≡ 0x1000
    → (os_pci_read_config_32 files (some dev) offset true w).0 ≡ (success, some 0x50000000)
unfolding os_pci_read_config_32 Device.slot_path from_bytes
read_card dev offset w e = rw e refl

user-Machine : Machine files present registers
user-Machine = record {
  finds = λ vid did w hv hd.
      HeadIs-some (pci_find_device files vid did none w).0 (present vid did) (listed vid did w);
  reads = λ vid did bar dev w w' hv hd hb e. read_card dev (bar_offset bar) w' (
      HeadIs-slot (pci_find_device files vid did none w).0 dev (present vid did) (listed vid did w)
        e);
}

abbrev pci : PciApi ℕ
pci = record {
  pci_get_device = λ v d cur w. (chosen kernel_card (present v d), w);
  pci_get_class = λ c cur w. (none, w);
  pci_enable_device = λ dev w. (0, w);
  pci_intx = λ dev w. w;
  pci_find_bus = λ bus w. (true, w);
  pci_get_slot = λ bus devfn w. (some kernel_card, w);
  read_config = λ n dev off w. ((0, 0x50000000), w);
  write_config = λ n dev off val w. (0, w);
}

kernel-Machine : KernelMachine pci present registers
kernel-Machine = record {
  finds = λ vid did w hv hd. chosen-some kernel_card (present vid did);
  reads = λ vid did bar dev w w' hv hd hb e. refl;
}

moved : (pre_silicon_base pci 4096 7).0 ≡ 1342181376
unfolding pre_silicon_base os_pci_find_first_device Pci.os_pci_read_config_32 wanted
moved = refl

bases-agree_example :
    let m = if leb 4096 0x20000000 then expected_base present registers cards 4096 else 4096 in
    ((UserPreSilicon.pre_silicon_base files true 4096 7).0 ≡ m)
    × ((pre_silicon_base pci 4096 9).0 ≡ m)
unfolding wanted
bases-agree_example =
    bases-agree files pci present registers 4096 7 9 user-Machine kernel-Machine refl refl
