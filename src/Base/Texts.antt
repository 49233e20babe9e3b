-- ===== src/Base/Texts.antt =====
-- Texts as lists of characters: literals, and what `snprintf` prints for numbers.
use Prim.Native.Nat.{ℕ, zero, suc, ◌+◌, ◌-◌, ◌/◌, ◌%◌}
use Prim.Native.Char.{code}
use Prim.Native.String.{String}
use mathlib.Core.List.{List, [], ◌∷◌, ◌++◌}
use scu35_bitcoin_lottery_mi.Base.Tests.{◌==◌, if◌then◌else◌, ltb}

abbrev pub codes : String → List ℕ
codes String.[] = []
codes (String.◌∷◌ c s) = code c ∷ codes s

-- The last `digits` decimal digits at most, without leading zeros.
unfoldable pub decimal_digits : ℕ → ℕ → List ℕ
decimal_digits zero n = []
decimal_digits (suc digits) n =
    let rest = decimal_digits digits (n / 10) in
    (if n / 10 == 0 then [] else rest) ++ ((b'0' + n % 10) ∷ [])

-- `%u` and `%lu` of a 32-bit number.
unfoldable pub decimal_text : ℕ → List ℕ
decimal_text n = decimal_digits 10 n

unfoldable pub hex_char : ℕ → ℕ
hex_char d = if ltb d 10 then b'0' + d else b'a' + (d - 10)

-- The last `digits` hexadecimal digits, with leading zeros.
unfoldable pub hex_digits_of : ℕ → ℕ → List ℕ
hex_digits_of zero n = []
hex_digits_of (suc digits) n = hex_digits_of digits (n / 16) ++ (hex_char (n % 16) ∷ [])

-- The characters of a C string in an array.
unfoldable pub c_text : List ℕ → List ℕ
c_text [] = []
c_text (c ∷ cs) = let rest = c_text cs in if c == 0 then [] else c ∷ rest

-- The pieces of a format, one behind the other.
unfoldable pub printed : List (List ℕ) → List ℕ
printed [] = []
printed (piece ∷ pieces) = piece ++ printed pieces
