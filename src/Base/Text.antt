-- ===== src/Base/Text.antt =====
-- Texts of the standard library that the crate uses: `CString::new` with its error's message,
-- `Path::join`, `str::contains` and decimal numbers.
use Prim.Native.Nat.{ℕ, zero, suc, ◌+◌, ◌/◌, ◌%◌}
use Prim.Native.Char.{code, len_utf8}
use Prim.Native.String.{String, ◌++◌ as ◌<>◌}
use mathlib.Core.Bool.{Bool, true, false}
use text.Mathlib.Text.{find?}
use mathlib.Core.Option.{Option, none, some}
use chrondb.Base.Tests.{ltb, ◌==◌, if◌then◌else◌}

digit : ℕ → String
digit n =
    if n == 0
    then "0"
    else if n == 1
    then "1"
    else if n == 2
    then "2"
    else if n == 3
    then "3"
    else if n == 4
    then "4"
    else if n == 5
    then "5"
    else if n == 6
    then "6"
    else if n == 7
    then "7"
    else if n == 8
    then "8"
    else "9"

-- A number below the fuel has fewer digits than it.
decimal_fuel : ℕ → ℕ → String
decimal_fuel zero n = ""
decimal_fuel (suc f) n =
    let more = decimal_fuel f (n / 10) in if ltb n 10 then digit n else (more <> digit (n % 10))

pub decimal : ℕ → String
unfolding digit decimal_fuel
decimal n = decimal_fuel (suc n) n

-- The byte at which a text has its first NUL.
nul_from : ℕ → String → Option ℕ
nul_from i String.[] = none
nul_from i (String.◌∷◌ c s) =
    let rest = nul_from (i + len_utf8 c) s in if code c == 0 then some i else rest

unfoldable pub nul_position : String → Option ℕ
unfolding nul_from
nul_position s = nul_from 0 s

-- The `Display` of `NulError`.
unfoldable pub nul_error : ℕ → String
unfolding decimal
nul_error i = "nul byte found in provided data at position: " <> decimal i

-- The last character's number, 0 for the empty text.
last_code : ℕ → String → ℕ
last_code d String.[] = d
last_code d (String.◌∷◌ c s) = last_code (code c) s

-- `a.join(b)` for a relative `b`, on Unix.
unfoldable pub join : String → String → String
unfolding last_code
join a b =
    let last = last_code 0 a in
    if last == 0 then b else if last == b'/' then (a <> b) else (a <> "/" <> b)

-- `s.contains(t)`
unfoldable pub contains : String → String → Bool
contains s t = elim (find? s t) [ none ↦ false | some i ↦ true ]
