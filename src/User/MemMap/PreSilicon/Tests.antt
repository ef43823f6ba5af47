-- ===== src/User/MemMap/PreSilicon/Tests.antt =====
-- A machine with the second Rambo card and the last card, whose registers hold 0x50000000.
use osal.Base.{ℕ, ◌+◌, ◌-◌, ◌*◌, ◌≡◌, refl, true, false, some, List, [], ◌∷◌, length}
use osal.Base.Pages.{pg_aligned}
use osal.User.Pci.Device.{PciDev, slot_path}
use osal.User.Pci.Posix.{Posix, Counts}
use osal.User.Pci.Config.{os_pci_read_config_32}
use osal.User.Pci.Scan.{pci_find_device}
use osal.User.Pci.Address.{os_pci_free_device}
use osal.User.MemMap.{MapApi}
use osal.User.MemMap.PreSilicon.{os_map_io_to_mem_nocache}
use osal.User.MemMap.PreSilicon.Balance.{MapCounts, left_opened, map-left}

-- The address, id and interrupt of the two cards.
abbrev devices : List (List ℕ)
devices = (0x10 ∷ (0x00025406 ∷ (11 ∷ []))) ∷ ((0x100 ∷ (0x80860001 ∷ (5 ∷ []))) ∷ [])

abbrev blank : PciDev
blank = record { slot_address = 0; irq = 77 }

-- The number of open files and allocated blocks is its state.
abbrev machine : Posix ℕ
machine = record {
  open_file = λ path m w. (some 3, w + 1);
  lseek = λ fd off w. (true, w);
  read = λ fd n w. (0 ∷ (0 ∷ (0 ∷ (0x50 ∷ []))), w);
  write = λ fd bs w. (length bs, w);
  close = λ fd w. w - 1;
  fopen_devices = λ w. (some devices, w + 1);
  fopen = λ path w. (true, w + 1);
  fclose = λ w. w - 1;
  malloc = λ w. (some blank, w + 1);
  free = λ w. w - 1;
}

machine-Counts : Counts machine 1 1 (λ w. w)
machine-Counts = record {
  open_file = λ path m w. refl;
  lseek = λ fd off w. refl;
  read = λ fd n w. refl;
  write = λ fd bs w. refl;
  close = λ fd w. refl;
  fopen_devices = λ w. refl;
  fopen = λ path w. refl;
  fclose = λ w. refl;
  malloc = λ w. refl;
  free = λ w. refl;
}

abbrev maps : MapApi ℕ
maps = record {
  open_devmem = λ sync w. (some 4, w + 1);
  mmap = λ length fd offset w. (some 65536, w);
  close = λ fd w. w - 1;
  munmap = λ addr length w. w;
}

maps-Counts : MapCounts maps 1 (λ w. w)
maps-Counts = record {
  open_devmem = λ sync w. refl;
  mmap = λ length fd offset w. refl;
  close = λ fd w. refl;
}

-- One handle stays, the Rambo card's, where `g_use_rambo_backdoor` is 0, and none where it is not.
without : (os_map_io_to_mem_nocache machine maps 4096 false 4112 512 5).1 ≡ 6
unfolding os_map_io_to_mem_nocache pci_find_device os_pci_read_config_32 slot_path
    os_pci_free_device
without = refl

with_rambo : (os_map_io_to_mem_nocache machine maps 4096 true 4112 512 5).1 ≡ 5
unfolding os_map_io_to_mem_nocache pci_find_device os_pci_read_config_32 slot_path
    os_pci_free_device
with_rambo = refl

map-left_example :
    ((os_map_io_to_mem_nocache machine maps 4096 false 4112 512 5).1
      ≡ 5
        + 1
          * left_opened machine maps 1 1
              (λ w. w)
              machine-Counts
              maps-Counts
              false
              (pg_aligned 4096 4112)
              (maps.open_devmem true 5))
    × ((os_map_io_to_mem_nocache machine maps 4096 true 4112 512 5).1 ≡ 5)
map-left_example =
    map-left machine maps 1 1 (λ w. w) machine-Counts maps-Counts 4096 false 4112 512 5
