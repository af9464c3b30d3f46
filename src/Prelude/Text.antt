-- ===== src/Prelude/Text.antt =====
-- Decimal printing (`str` of an integer) and tests on the characters of a text.
use Prim.Native.Nat.{ℕ, zero, suc, ◌+◌, ◌-◌, ◌*◌, ◌/◌, ◌%◌}
use Prim.Native.Char.{code}
use Prim.Native.String.{String, ◌++◌}
use mathlib.Core.Path.{◌≡◌, refl}
use mathlib.Core.List.{List, [], ◌∷◌}
use mathlib.Core.Option.{Option, none, some}
use mathlib.Core.Bool.{◌&&◌}
use openurma_gem5_lab.Prelude.Int.{ℤ, pos, negsuc}
use openurma_gem5_lab.Prelude.Tests.{leb, ◌==◌, nat_eq, if◌then◌else◌, ltb}

-- The code points of a text.
abbrev pub codes : String → List ℕ
codes String.[] = []
codes (String.◌∷◌ c s) = code c ∷ codes s

digit : ℕ → String
digit zero = "0"
digit (suc zero) = "1"
digit (suc (suc zero)) = "2"
digit (suc (suc (suc zero))) = "3"
digit (suc (suc (suc (suc zero)))) = "4"
digit (suc (suc (suc (suc (suc zero))))) = "5"
digit (suc (suc (suc (suc (suc (suc zero)))))) = "6"
digit (suc (suc (suc (suc (suc (suc (suc zero))))))) = "7"
digit (suc (suc (suc (suc (suc (suc (suc (suc zero)))))))) = "8"
digit _ = "9"

show_fuel : ℕ → ℕ → String → String
show_fuel zero n out = out
show_fuel (suc fuel) n out =
    let rest = show_fuel fuel (n / 10) (digit (n % 10) ++ out) in
    if n / 10 == 0 then digit (n % 10) ++ out else rest

-- `str(n)`; the digits of `n` are fewer than `n + 1`, so the fuel is enough.
unfoldable pub str : ℕ → String
unfolding show_fuel digit
str n = show_fuel (suc n) n ""

str_two_digits : str 256 ≡ "256"
unfolding str
str_two_digits = refl

-- `separator.join(parts)`
unfoldable pub join : String → List String → String
join separator [] = ""
join separator (part ∷ []) = part
join separator (part ∷ rest) = let more = join separator rest in part ++ separator ++ more

-- `f"{n:03d}"`
unfoldable pub pad3 : ℕ → String
unfolding str
pad3 n = if ltb n 10 then "00" ++ str n else if ltb n 100 then "0" ++ str n else str n

-- `text.replace("-", "_")`
unfoldable pub replace_dash : String → String
replace_dash String.[] = ""
replace_dash (String.◌∷◌ c s) = String.◌∷◌ (if code c == 45 then "_" else c) (replace_dash s)

-- `text[n:]`
unfoldable pub drop_text : ℕ → String → String
drop_text zero text = text
drop_text (suc n) String.[] = ""
drop_text (suc n) (String.◌∷◌ c s) = drop_text n s

hex_digit : ℕ → String
hex_digit n =
    if n == 10
    then "a"
    else if n == 11
    then "b"
    else if n == 12
    then "c"
    else if n == 13
    then "d"
    else if n == 14
    then "e"
    else if n == 15
    then "f"
    else digit n

-- `f"{n:02x}"`, of a number below 256
unfoldable pub hex2 : ℕ → String
unfolding hex_digit digit
hex2 n = hex_digit (n / 16 % 16) ++ hex_digit (n % 16)

-- `str(n)` of any integer
unfoldable pub str_ℤ : ℤ → String
unfolding str
str_ℤ (pos n) = str n
str_ℤ (negsuc n) = "-" ++ str (suc n)

digits_of : ℕ → List ℕ → Option ℕ
digits_of n [] = some n
digits_of n (c ∷ rest) =
    let more = digits_of (n * 10 + (c - 48)) rest in if leb 48 c && leb c 57 then more else none

negated : ℕ → ℤ
negated zero = pos 0
negated (suc n) = negsuc n

-- `int(text)`, of code points: ASCII digits with or without a minus sign; `none` is the `ValueError`.
unfoldable pub int_of : List ℕ → Option ℤ
unfolding digits_of negated
int_of [] = none
int_of (c ∷ []) = elim (digits_of 0 (c ∷ [])) [ none ↦ none | some n ↦ some (pos n) ]
int_of (c ∷ d ∷ rest) =
    if c == 45
    then elim (digits_of 0 (d ∷ rest)) [ none ↦ none | some n ↦ some (negated n) ]
    else elim (digits_of 0 (c ∷ d ∷ rest)) [ none ↦ none | some n ↦ some (pos n) ]

-- `k * n`
unfoldable pub times_ℤ : ℕ → ℤ → ℤ
unfolding negated
times_ℤ k (pos n) = pos (k * n)
times_ℤ k (negsuc n) = negated (k * suc n)
