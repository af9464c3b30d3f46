-- ===== src/MemoryGuard/Capacity.antt =====
-- tools/host_memory_guard.py: `capacity_bytes`, over the code points of its argument.
use openurma_gem5_lab.Prelude.{
  ℕ, ◌+◌, ◌-◌, ◌*◌, ◌^◌, ◌≡◌, refl, Bool, true, false, ◌&&◌, List, [], ◌∷◌, ◌++◌, ◌==◌, string_eq,
  nat_eq, leb, all, Option, some, none, if◌then◌else◌, arith, inl, inr, ◌≢◌, ◌⊎◌, ◌∙◌,
}
use openurma_gem5_lab.Prelude.Text.{codes}

abbrev pub gib : ℕ
gib = 1024 ^ 3

unfoldable pub is_digit : ℕ → Bool
is_digit c = leb b'0' c && leb c b'9'

-- Two texts as code points.
unfoldable pub same : List ℕ → List ℕ → Bool
same [] [] = true
same (a ∷ rest) (b ∷ others) = a == b && same rest others
same _ _ = false

abbrev units : List (List ℕ × ℕ)
units =
    (codes "B", 1)
    ∷ (codes "kB", 1000)
    ∷ (codes "KiB", 1024)
    ∷ (codes "MB", 1000 ^ 2)
    ∷ (codes "MiB", 1024 ^ 2)
    ∷ (codes "GB", 1000 ^ 3)
    ∷ (codes "GiB", gib)
    ∷ []

unfoldable pub find_unit : List ℕ → List (List ℕ × ℕ) → Option ℕ
unfolding same
find_unit text [] = none
find_unit text ((unit, scale) ∷ rest) = if same unit text then some scale else find_unit text rest

-- The scale of a unit, if the text is one of the seven.
unfoldable pub scale_of : List ℕ → Option ℕ
unfolding find_unit
scale_of text = find_unit text units

times : ℕ → Option ℕ → Option ℕ
times n none = none
times n (some scale) = some (n * scale)

-- The match goes through the digits (there is one at least) and takes the rest for the unit.
unfoldable pub scan : Bool → ℕ → List ℕ → Option ℕ
unfolding times
scan seen n [] = none
scan seen n (c ∷ rest) =
    let more = scan true (n * 10 + (c - b'0')) rest in
    if is_digit c then more else if seen then times n (scale_of (c ∷ rest)) else none

-- `none` is the `ValueError`.
unfoldable pub capacity_bytes : List ℕ → Option ℕ
capacity_bytes value = scan false 0 value

-- The number that digits stand for.
pub decimal : ℕ → List ℕ → ℕ
decimal n [] = n
decimal n (c ∷ rest) = decimal (n * 10 + (c - b'0')) rest

scan-digits :
    (digits unit : List ℕ) (seen : Bool) (n : ℕ)
    → all is_digit digits ≡ true
    → (seen ≡ true) ⊎ (digits ≢ [])
    → scan seen n (digits ++ unit) ≡ scan true (decimal n digits) unit
unfolding scan decimal
scan-digits [] unit seen n h (inl e) = rw e
scan-digits [] unit seen n h (inr e) = absurd (e refl)
scan-digits (c ∷ rest) unit seen n h e =
    let first : is_digit c ≡ true = ground arith in
    rw first (scan-digits rest unit true (n * 10 + (c - b'0')) (ground arith) (inl refl))

starts_plain :
    (c : ℕ) (unit : List ℕ) (scale : ℕ) → scale_of (c ∷ unit) ≡ some scale → is_digit c ≡ false
unfolding scale_of is_digit
starts_plain c unit scale h = ground arith

no_unit : (scale : ℕ) → scale_of [] ≡ some scale → ⊥
unfolding scale_of find_unit same
no_unit scale u = ground arith

-- A number in decimal with one of the units is read as the number times the unit's scale.
pub capacity_bytes-decimal :
    (digits unit : List ℕ) (scale : ℕ)
    → digits ≢ []
    → all is_digit digits ≡ true
    → scale_of unit ≡ some scale
    → capacity_bytes (digits ++ unit) ≡ some (decimal 0 digits * scale)
unfolding capacity_bytes scan
capacity_bytes-decimal digits unit scale some_digit h u =
    scan-digits digits unit false 0 h (inr some_digit) ∙ last unit u
  where
    last :
        (unit : List ℕ)
        → scale_of unit ≡ some scale
        → scan true (decimal 0 digits) unit ≡ some (decimal 0 digits * scale)
    last [] u = absurd (no_unit scale u)
    last (c ∷ rest) u = rw (starts_plain c rest scale u, u)
