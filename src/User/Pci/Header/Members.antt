-- ===== src/User/Pci/Header/Members.antt =====
-- How the C compiler lays out the members of a structure, where an `unsigned long` has 32 bits: a member
-- starts at the next multiple of its size, and the members of a union all start where the union does.
use osal.Base.{ℕ, zero, suc, ◌+◌, ◌-◌, ◌*◌, ◌/◌, ltb, if◌then◌else◌, List, [], ◌∷◌}
use osal.Base.Slices.{slice}
use osal.User.Pci.Config.{from_bytes}

-- What stands at a position of the bytes, and the position behind it.
abbrev pub Member : Type 0 → Type 0
Member A = List ℕ → ℕ → A × ℕ

infixl 5 ◌>>=◌
abbrev pub ◌>>=◌ : {A B : Type 0} → Member A → (A → Member B) → Member B
◌>>=◌ m f bytes p = let r = m bytes p in f r.0 bytes r.1

abbrev pub pure : {A : Type 0} → A → Member A
pure a bytes p = (a, p)

-- The number that starts at a position.
unfoldable pub number : (size : ℕ) → List ℕ → (p : ℕ) → ℕ
unfolding slice
number size bytes p = from_bytes (slice p size bytes)

abbrev pub aligned : (size p : ℕ) → ℕ
aligned size p = (p + (size - 1)) / size * size

abbrev pub member : (size : ℕ) → Member ℕ
member size bytes p = (number size bytes (aligned size p), aligned size p + size)

abbrev pub char : Member ℕ
char = member 1

abbrev pub short : Member ℕ
short = member 2

abbrev pub long : Member ℕ
long = member 4

abbrev pub array : ℕ → Member ℕ → Member (List ℕ)
array zero m = pure []
array (suc n) m = do x ← m; xs ← array n m; pure (x ∷ xs)

-- The members of a union: each from its start, which is a multiple of 4, and behind the longest of
-- them.
abbrev pub union : {A B C : Type 0} → Member A → Member B → Member C → Member (A × B × C)
union m0 m1 m2 bytes p =
    let s = aligned 4 p in
    let a = m0 bytes s in
    let b = m1 bytes s in
    let c = m2 bytes s in
    let longer = if ltb a.1 b.1 then b.1 else a.1 in
    ((a.0, b.0, c.0), aligned 4 (if ltb longer c.1 then c.1 else longer))
