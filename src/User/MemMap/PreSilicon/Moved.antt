-- ===== src/User/MemMap/PreSilicon/Moved.antt =====
-- Where user space maps device memory with PRE_SILICON, in terms of the cards that are present.
use osal.Base.{
  ◌<◌, ℕ, ◌+◌, ◌%◌, ◌^◌, ◌≡◌, refl, sym, ◌&&◌, Bool, true, false, Option, none, some, List, [], ◌∷◌,
  arith, is_some,
}
use osal.Types.{OsalResult, success}
use osal.Cards.{Card, AllCards, bar_offset, expected_base}
use osal.User.Pci.Device.{PciDev}
use osal.User.Pci.Posix.{Posix}
use osal.User.Pci.Scan.{pci_find_device}
use osal.User.Pci.Config.{os_pci_read_config_32}
use osal.User.MemMap.PreSilicon.{matched, detect, bar_read, base_moved}

-- The machine: which cards are present, by ids of 16 bits, and what their base
-- address registers hold whenever they are read.
pub record Machine {W : Type 0} (posix : Posix W) (present : (vid did : ℕ) → Bool)
    (registers : (vid did offset : ℕ) → ℕ) : Type 0 where
  pub finds :
      (vid did : ℕ) (w : W)
      → vid < 2 ^ 16
      → did < 2 ^ 16
      → is_some (pci_find_device posix vid did none w).0 ≡ present vid did
  pub reads :
      (vid did bar : ℕ) (dev : PciDev) (w w' : W)
      → vid < 2 ^ 16
      → did < 2 ^ 16
      → bar < 6
      → (pci_find_device posix vid did none w).0 ≡ some dev
      → (os_pci_read_config_32 posix (some dev) (bar_offset bar) true w').0
        ≡ (success, some (registers vid did (bar_offset bar)))

and_false : (b : Bool) → (b && false) ≡ false
and_false true = refl
and_false false = refl

module _ {W : Type 0} (posix : Posix W) (present : (vid did : ℕ) → Bool)
    (registers : (vid did offset : ℕ) → ℕ) (machine : Machine posix present registers) where
  bar_read-base :
      (base v : ℕ) (dev : PciDev) (p : (OsalResult × Option ℕ) × W)
      → p.0 ≡ (success, some v)
      → (bar_read posix base dev p).0 ≡ (base + v) % 2 ^ 32
  unfolding bar_read
  bar_read-base base v dev ((r, x), w) e = rw e refl

  matched-base :
      (base : ℕ) (c : Card) (cs : List Card) (p : Option PciDev × W)
      (rest : W → Option (PciDev × ℕ) × W)
      → is_some p.0 ≡ present c.vid c.did
      → ((dev : PciDev) (w' : W)
          → p.0 ≡ some dev
          → (os_pci_read_config_32 posix (some dev) (bar_offset c.bar) true w').0
            ≡ (success, some (registers c.vid c.did (bar_offset c.bar))))
      → ((w' : W) → (base_moved posix base (rest w')).0 ≡ expected_base present registers cs base)
      → (base_moved posix base (matched true c p rest)).0
        ≡ expected_base present registers (c ∷ cs) base
  unfolding matched base_moved expected_base
  matched-base base c cs (none, w) rest f r h = rw (h w) (ground arith)
  matched-base base c cs (some dev, w) rest f r h =
      rw (and_false c.backdoor, sym f)
        (bar_read-base base (registers c.vid c.did (bar_offset c.bar)) dev
          (os_pci_read_config_32 posix (some dev) (bar_offset c.bar) true w) (r dev w refl))

  pub detect-base :
      (base : ℕ) (cs : List Card) (w : W)
      → AllCards cs
      → (base_moved posix base (detect posix true cs w)).0 ≡ expected_base present registers cs base
  unfolding detect base_moved expected_base
  detect-base base [] w ok = refl
  detect-base base (c ∷ cs) w (ok, oks) =
      matched-base base c cs (pci_find_device posix c.vid c.did none w)
        (λ w'. detect posix true cs w') (machine.finds c.vid c.did w ok.0 ok.1)
        (λ dev w'. machine.reads c.vid c.did c.bar dev w w' ok.0 ok.1 ok.2)
        (λ w'. detect-base base cs w' oks)
