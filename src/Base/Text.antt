-- ===== src/Base/Text.antt =====
-- Texts: comparison of whole texts, their code points, and `str::to_lowercase` as the program uses it.
use Prim.Native.Nat.{ℕ, zero, suc, ◌+◌, ◌/◌, ◌%◌}
use Prim.Native.Char.{code}
use Prim.Native.String.{String, ◌++◌}
use mathlib.Core.Path.{◌≡◌, refl}
use mathlib.Core.Bool.{Bool, true, false, ◌&&◌}
use mathlib.Core.List.{List, [], ◌∷◌, map}
use daemon_choir.Base.Tests.{leb, ◌==◌, if◌then◌else◌}
pub use text.Mathlib.Text.{◌==◌ as str_eq}
pub use text.Mathlib.TextEquality.{eq_iff}
pub use Prim.Native.String.{◌++◌ as join}

abbrev pub codes : String → List ℕ
codes String.[] = []
codes (String.◌∷◌ c s) = code c ∷ codes s

abbrev lower : ℕ → ℕ
lower c = if leb b'A' c && leb c b'Z' then c + 32 else c

abbrev codes_eq : List ℕ → List ℕ → Bool
codes_eq [] [] = true
codes_eq (a ∷ xs) (b ∷ ys) = (a == b) && codes_eq xs ys
codes_eq _ _ = false

-- `s.to_lowercase() == t`, for a `t` of lower-case ASCII letters other than k: no other letter
-- than A to Z has a lower case that is one of those alone.
abbrev pub lowercase_eq : String → String → Bool
lowercase_eq s t = codes_eq (map lower (codes s)) (codes t)

abbrev digit : ℕ → String
digit n =
    if n == 0
    then "0"
    else if n == 1
    then "1"
    else if n == 2
    then "2"
    else if n == 3
    then "3"
    else if n == 4
    then "4"
    else if n == 5
    then "5"
    else if n == 6
    then "6"
    else if n == 7
    then "7"
    else if n == 8
    then "8"
    else "9"

-- the digits of a number before a text, of which there are no more than the fuel
abbrev digits : ℕ → ℕ → String → String
digits zero n text = text
digits (suc fuel) n text =
    let rest = digits fuel (n / 10) (digit (n % 10) ++ text) in
    if leb n 9 then digit n ++ text else rest

-- `{}` of a `u64`, which has 20 digits at most
abbrev pub decimal : ℕ → String
decimal n = digits 20 n ""

largest-decimal : decimal 18446744073709551615 ≡ "18446744073709551615"
largest-decimal = refl
