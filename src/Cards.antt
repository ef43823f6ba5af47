-- ===== src/Cards.antt =====
-- The cards that raw/memmap.c of both implementations recognises a pre-silicon environment by, and
-- where it expects the devices then.
use osal.Base.{
  ltb, ◌&&◌, true, ◌≡◌, arith, ℕ, ◌<◌, ◌+◌, ◌*◌, ◌%◌, ◌^◌, Bool, List, [], ◌∷◌, if◌then◌else◌,
}

-- The ids of a card, the number of the base address register that is used, and whether the card
-- counts only while `g_use_rambo_backdoor` is not 0.
pub record Card : Type 0 where
  pub vid : ℕ
  pub did : ℕ
  pub bar : ℕ
  pub backdoor : Bool

-- The offset of the register in the configuration space.
abbrev pub bar_offset : ℕ → ℕ
bar_offset barnum = 0x10 + barnum * 4

-- Where a base address ends up, in words: behind what the register of the first card holds that is
-- present, or where it is.
unfoldable pub expected_base :
    (present : (vid did : ℕ) → Bool) (registers : (vid did offset : ℕ) → ℕ)
    → List Card
    → (base : ℕ) → ℕ
expected_base present registers [] base = base
expected_base present registers (c ∷ cs) base =
    let rest = expected_base present registers cs base in
    if present c.vid c.did then (base + registers c.vid c.did (bar_offset c.bar)) % 2 ^ 32 else rest

-- Cards have ids of 16 bits and base address registers from 0 to 5.
abbrev pub IsCard : Card → Type 0
IsCard c = (c.vid < 2 ^ 16) × (c.did < 2 ^ 16) × (c.bar < 6)

abbrev pub AllCards : List Card → Type 0
AllCards [] = Unit
AllCards (c ∷ cs) = IsCard c × AllCards cs

abbrev pub all_cards : List Card → Bool
all_cards [] = true
all_cards (c ∷ cs) = (ltb c.vid (2 ^ 16) && (ltb c.did (2 ^ 16) && ltb c.bar 6)) && all_cards cs

pub all_cards-AllCards : (cs : List Card) → all_cards cs ≡ true → AllCards cs
all_cards-AllCards [] e = tt
all_cards-AllCards (c ∷ cs) e =
    ((ground arith, ground arith, ground arith), all_cards-AllCards cs (ground arith))
