-- ===== src/Prelude/Uuids.antt =====
-- A UUID is its 128-bit number. `str(uuid)` has a fixed width and lower-case digits, so that the
-- order of the texts is the order of the numbers.
use Prim.Native.Nat.{ℕ, zero, suc, ◌*◌, ◌/◌, ◌%◌, ◌^◌}
use Prim.Native.String.{String, ◌++◌}
use mathlib.Core.Bool.{Bool, true, false}
use mathlib.Core.Option.{Option, none, some}
use cyrene_exchange.Prelude.Tests.{◌==◌, if◌then◌else◌}
use cyrene_exchange.Prelude.Text.{decimal}

abbrev pub Uuid : Type 0
Uuid = ℕ

hex_digit : ℕ → String
hex_digit d =
    if d == 10
    then "a"
    else if d == 11
    then "b"
    else if d == 12
    then "c"
    else if d == 13
    then "d"
    else if d == 14
    then "e"
    else if d == 15
    then "f"
    else decimal d

-- The last `digits` hexadecimal digits.
hex : ℕ → ℕ → String
hex zero n = ""
hex (suc digits) n = hex digits (n / 16) ++ hex_digit (n % 16)

-- `str(uuid)`: 8, 4, 4, 4 and 12 digits
unfoldable pub uuid_text : Uuid → String
unfolding hex hex_digit
uuid_text id =
    hex 8 (id / 2 ^ 96)
    ++ ("-"
        ++ (hex 4 (id / 2 ^ 80)
            ++ ("-"
                ++ (hex 4 (id / 2 ^ 64) ++ ("-" ++ (hex 4 (id / 2 ^ 48) ++ ("-" ++ hex 12 id)))))))

-- An aware datetime is its number of microseconds since the epoch.
abbrev pub Time : Type 0
Time = ℕ

-- `timedelta(seconds=n)`
abbrev pub seconds : ℕ → ℕ
seconds n = n * 1_000_000

-- `a == b` of optional numbers
abbrev pub opt_nat_eq : Option ℕ → Option ℕ → Bool
opt_nat_eq none none = true
opt_nat_eq none (some b) = false
opt_nat_eq (some a) none = false
opt_nat_eq (some a) (some b) = a == b
