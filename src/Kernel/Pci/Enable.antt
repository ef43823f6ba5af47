-- ===== src/Kernel/Pci/Enable.antt =====
-- The loop of os_pci_enable_device over the devices of one id.
use mathlib.Core.List.{append_assoc, append-nil}
use mathlib.Core.Path.{ap₂}
use osal.Base.{
  ◌^◌, ℕ, zero, suc, ◌<◌, ◌≡◌, refl, sym, ap, ◌∙◌, Bool, true, ◌&&◌, Option, none, some, List, [],
  ◌∷◌, ◌++◌, arith, ◌==◌, if◌then◌else◌, length, inl, inr, Bool-cases,
}
use osal.Types.{OsalResult, success, not_found}
use osal.Kernel.Pci.{
  PciDev, PciApi, found_or_not, os_pci_find_first_device, os_pci_find_next_device, enable_from,
  enable_first, os_pci_enable_device,
}

abbrev pub has_id : (vendor device : ℕ) → PciDev → Bool
has_id v d dev = (dev.vendor == v) && (dev.device == d)

-- The devices of an id, and the first of them.
unfoldable pub matching : (vendor device : ℕ) → List PciDev → List PciDev
matching v d [] = []
matching v d (x ∷ xs) = if has_id v d x then x ∷ matching v d xs else matching v d xs

unfoldable pub first_match : (vendor device : ℕ) → List PciDev → Option PciDev
first_match v d [] = none
first_match v d (x ∷ xs) = if has_id v d x then some x else first_match v d xs

-- What the kernel documents of its calls, for the devices `devs` in its order: a search by an id of two
-- numbers of 16 bits, neither of which is PCI_ANY_ID then, returns the first device of the id, or the
-- first behind the one that it is given. `asked` is the list of the devices that pci_enable_device has
-- been called for, whatever it returned, which the other two calls leave alone.
pub record Searches {W : Type 0} (k : PciApi W) (devs : List PciDev) (asked : W → List PciDev)
    : Type 0 where
  pub first :
      (v d : ℕ) (w : W)
      → v < 2 ^ 16
      → d < 2 ^ 16
      → (k.pci_get_device v d none w).0 ≡ first_match v d devs
  pub behind :
      (v d : ℕ) (cur : PciDev) (before after : List PciDev) (w : W)
      → v < 2 ^ 16
      → d < 2 ^ 16
      → devs ≡ before ++ cur ∷ after
      → (k.pci_get_device v d (some cur) w).0 ≡ first_match v d after
  pub log_get :
      (v d : ℕ) (cur : Option PciDev) (w : W) → asked (k.pci_get_device v d cur w).1 ≡ asked w
  pub log_enable :
      (dev : PciDev) (w : W) → asked (k.pci_enable_device dev w).1 ≡ asked w ++ dev ∷ []
  pub log_intx : (dev : PciDev) (w : W) → asked (k.pci_intx dev w) ≡ asked w

-- The first device of an id splits the list.
abbrev Split : (v d : ℕ) (xs : List PciDev) → PciDev → Type 0
Split v d xs dev =
    (skipped rest : List PciDev) × (xs ≡ skipped ++ dev ∷ rest)
    × (matching v d xs ≡ dev ∷ matching v d rest)
    × (dev.vendor ≡ v)
    × (dev.device ≡ d)

first_match-Split :
    (v d : ℕ) (xs : List PciDev) (dev : PciDev) → first_match v d xs ≡ some dev → Split v d xs dev
unfolding first_match matching
first_match-Split v d [] dev e = absurd (ground arith)
first_match-Split v d (x ∷ xs) dev e = elim (Bool-cases (has_id v d x)) [
  | inl hit ↦
      let same : x ≡ dev = ground arith in
      rw (hit, ← same) ([], xs, refl, refl, ground arith, ground arith)
  | inr miss ↦
      let (skipped, rest, a, b, c, c') = first_match-Split v d xs dev (ground arith) in
      rw miss (x ∷ skipped, rest, ap (λ (l : List PciDev). x ∷ l) a, b, c, c')
]

matching-nil : (v d : ℕ) (xs : List PciDev) → first_match v d xs ≡ none → matching v d xs ≡ []
unfolding first_match matching
matching-nil v d [] e = refl
matching-nil v d (x ∷ xs) e = ground (arith, matching-nil v d xs)

-- What os_pci_enable_device returns for the devices of its id.
abbrev pub answer : List PciDev → Option OsalResult
answer [] = some not_found
answer (x ∷ xs) = some success

module _ {W : Type 0} (k : PciApi W) (devs : List PciDev) (asked : W → List PciDev)
    (law : Searches k devs asked) where
  -- The loop has ended, and has called pci_enable_device for `more` since `w`.
  abbrev Asked : W → List PciDev → Bool × W → Type 0
  Asked w more r = (r.0 ≡ true) × (asked r.1 ≡ asked w ++ more)

  enable_from-Asked :
      (v d f : ℕ) (small : (v < 2 ^ 16) × (d < 2 ^ 16)) (seen after : List PciDev)
      (p : Option PciDev × W)
      → devs ≡ seen ++ after
      → p.0 ≡ first_match v d after
      → length (matching v d after) < f
      → Asked p.1 (matching v d after) (enable_from k f (found_or_not p))
  unfolding enable_from found_or_not os_pci_find_next_device
  enable_from-Asked v d zero small seen after p s e l = absurd (omega arith)
  enable_from-Asked v d (suc f) small seen after (none, w) s e l =
      rw (matching-nil v d after (sym e)) (refl, sym (append-nil (asked w)))
  enable_from-Asked v d (suc f) small seen after (some dev, w) s e l =
      let (skipped, rest, a, b, c, c') = first_match-Split v d after dev (sym e) in
      let w' = k.pci_intx dev (k.pci_enable_device dev w).1 in
      let p = k.pci_get_device dev.vendor dev.device (some dev) w' in
      let at : devs ≡ (seen ++ skipped) ++ dev ∷ rest =
        s ∙ ap (λ (l : List PciDev). seen ++ l) a ∙ sym (append_assoc seen skipped (dev ∷ rest)) in
      let found : p.0 ≡ first_match v d rest =
        law.behind dev.vendor dev.device dev (seen ++ skipped) rest w' (rw c (small.0))
          (rw c' (small.1)) at
        ∙ ap₂ (λ (x y : ℕ). first_match x y rest) c c' in
      let log : asked p.1 ≡ asked w ++ dev ∷ [] =
        law.log_get dev.vendor dev.device (some dev) w'
        ∙ law.log_intx dev _
        ∙ law.log_enable dev w in
      let (done, logged) =
        enable_from-Asked v d f small ((seen ++ skipped) ++ dev ∷ []) rest p
          (at ∙ sym (append_assoc (seen ++ skipped) (dev ∷ []) rest)) found
          (omega (arith, ap (λ (l : List PciDev). length l) b)) in
      (
        done,
        logged
            ∙ ap (λ (l : List PciDev). l ++ matching v d rest) log
            ∙ append_assoc (asked w) (dev ∷ []) (matching v d rest)
            ∙ ap (λ (l : List PciDev). asked w ++ l) (sym b),
      )

  enable_first-answer :
      (v d f : ℕ) (small : (v < 2 ^ 16) × (d < 2 ^ 16)) (w : W) (p : Option PciDev × W)
      → p.0 ≡ first_match v d devs
      → asked p.1 ≡ asked w
      → length (matching v d devs) < f
      → let r = enable_first k f (found_or_not p) in
        (r.0 ≡ answer (matching v d devs)) × (asked r.1 ≡ asked w ++ matching v d devs)
  unfolding enable_first found_or_not
  enable_first-answer v d f small w (none, w') e g l =
      rw (matching-nil v d devs (sym e)) (refl, g ∙ sym (append-nil (asked w)))
  enable_first-answer v d f small w (some dev, w') e g l =
      let (done, logged) = enable_from-Asked v d f small [] devs (some dev, w') refl e l in
      let split = first_match-Split v d devs dev (sym e) in
      (
        rw done (ap answer (sym split.3)),
        logged ∙ ap (λ (l : List PciDev). l ++ matching v d devs) g,
      )

  -- If a search of the kernel for an id of two numbers of 16 bits returns the first device of the id
  -- behind the one it is given, then with more fuel than there are devices of the id
  -- os_pci_enable_device ends, has called pci_enable_device for each of them once and in the kernel's
  -- order and for no other, and returns success if there is one and else OSAL_NOT_FOUND, whatever
  -- pci_enable_device has returned.
  pub enable_device-answer :
      (v d f : ℕ) (w : W)
      → v < 2 ^ 16
      → d < 2 ^ 16
      → length (matching v d devs) < f
      → let r = os_pci_enable_device k f v d w in
        (r.0 ≡ answer (matching v d devs)) × (asked r.1 ≡ asked w ++ matching v d devs)
  unfolding os_pci_enable_device os_pci_find_first_device
  enable_device-answer v d f w hv hd l =
      enable_first-answer v d f (hv, hd) w (k.pci_get_device v d none w) (law.first v d w hv hd)
        (law.log_get v d none w) l
