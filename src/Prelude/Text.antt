-- ===== src/Prelude/Text.antt =====
-- Texts and optional texts as Python uses them.
use Prim.Native.Nat.{ℕ, zero, suc, ◌+◌, ◌/◌, ◌%◌}
use Prim.Native.String.{String, ◌++◌}
use mathlib.Core.Bool.{Bool, true, false, not}
use mathlib.Core.Option.{Option, none, some}
use cyrene_exchange.Prelude.Tests.{◌==◌, str_eq, ltb, if◌then◌else◌}

-- Concatenation of texts.
infixl 65 ◌^+◌
abbrev pub ◌^+◌ : String → String → String
s ^+ t = s ++ t

-- `bool(value)` of an optional text: None and the empty text are false.
abbrev pub truthy : Option String → Bool
truthy none = false
truthy (some s) = not (str_eq s "")

-- `value or default`
abbrev pub or_default : Option String → String → String
or_default none d = d
or_default (some s) d = if str_eq s "" then d else s

-- `a == b` of optional texts
abbrev pub opt_eq : Option String → Option String → Bool
opt_eq none none = true
opt_eq none (some t) = false
opt_eq (some s) none = false
opt_eq (some s) (some t) = str_eq s t

-- `value in (None, t)`
abbrev pub absent_or : Option String → String → Bool
absent_or none t = true
absent_or (some s) t = str_eq s t

-- `text[:n]`
unfoldable pub take_chars : ℕ → String → String
take_chars zero s = ""
take_chars (suc n) String.[] = ""
take_chars (suc n) (String.◌∷◌ c s) = String.◌∷◌ c (take_chars n s)

digit : ℕ → String
digit d =
    if d == 0
    then "0"
    else if d == 1
    then "1"
    else if d == 2
    then "2"
    else if d == 3
    then "3"
    else if d == 4
    then "4"
    else if d == 5
    then "5"
    else if d == 6
    then "6"
    else if d == 7
    then "7"
    else if d == 8
    then "8"
    else "9"

decimal_with : ℕ → ℕ → String
decimal_with zero n = ""
decimal_with (suc fuel) n =
    let rest = decimal_with fuel (n / 10) in if ltb n 10 then digit n else rest ++ digit (n % 10)

-- `str(n)` of a natural number; one digit for each unit of fuel, so `n + 1` is enough.
unfoldable pub decimal : ℕ → String
unfolding decimal_with digit
decimal n = decimal_with (n + 1) n
