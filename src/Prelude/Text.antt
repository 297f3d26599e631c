-- ===== src/Prelude/Text.antt =====
-- String methods of the source: `trim`, `replace(/\s+/g, ' ')`, `length`, `slice(0, n)`.
-- `is_space` is ECMAScript's WhiteSpace and LineTerminator, which `trim` and `\s` share. A text is
-- walked by code points; `length` counts UTF-16 units, two for a code point above 0xffff.
use Prim.Native.Char.{Char, code}
use newtine_backend.Prelude.Tests.{leb, ◌==◌, nat_eq, string_eq, if◌then◌else◌}
use Prim.Native.Nat.{ℕ, zero, suc, ◌+◌, ◌-◌, ◌/◌, ◌%◌}
use mathlib.Core.List.{List, [], ◌∷◌}
use Prim.Native.String.{String, ◌++◌ as text_append}
use mathlib.Core.Path.{◌≡◌, refl}
use mathlib.Core.Bool.{Bool, true, false, ◌&&◌, ◌||◌}

abbrev pub is_space_code : ℕ → Bool
is_space_code c =
    (leb 9 c && leb c 13)
    || c == 32
    || c == 160
    || c == 0x1680
    || (leb 0x2000 c && leb c 0x200a)
    || c == 0x2028
    || c == 0x2029
    || c == 0x202f
    || c == 0x205f
    || c == 0x3000
    || c == 0xfeff

-- `${a}${b}`
abbrev pub append : String → String → String
append a b = text_append a b

pub is_space : Char → Bool
is_space c = is_space_code (code c)

-- `s.trim().length === 0`
unfoldable pub is_blank : String → Bool
unfolding is_space
is_blank String.[] = true
is_blank (String.◌∷◌ c s) = is_space c && is_blank s

trim_start : String → String
trim_start String.[] = String.[]
trim_start (String.◌∷◌ c s) = if is_space c then trim_start s else String.◌∷◌ c s

trim_end : String → String
trim_end String.[] = String.[]
trim_end (String.◌∷◌ c s) =
    let rest = trim_end s in if is_space c && is_blank s then String.[] else String.◌∷◌ c rest

unfoldable pub trim : String → String
unfolding trim_start trim_end is_blank is_space
trim s = trim_end (trim_start s)

-- `inside` tells that the run of spaces before this character has been written already.
collapse_from : Bool → String → String
collapse_from inside String.[] = String.[]
collapse_from inside (String.◌∷◌ c s) =
    let rest = collapse_from (is_space c) s in
    if is_space c then (if inside then rest else String.◌∷◌ " " rest) else String.◌∷◌ c rest

unfoldable pub collapse_spaces : String → String
unfolding collapse_from is_space
collapse_spaces s = collapse_from false s

unfoldable pub text_length : String → ℕ
text_length String.[] = 0
text_length (String.◌∷◌ c s) = (if leb 0x10000 (code c) then 2 else 1) + text_length s

-- `s.slice(0, n)`. Where the cut falls inside a surrogate pair JavaScript keeps half a character;
-- the model keeps none of it.
unfoldable pub text_take : ℕ → String → String
text_take n String.[] = String.[]
text_take n (String.◌∷◌ c s) =
    let units : ℕ = if leb 0x10000 (code c) then 2 else 1 in
    let rest = text_take (n - units) s in if leb units n then String.◌∷◌ c rest else String.[]

collapse_test :
    (collapse_spaces "a \t b" == "a b") && (trim "  a b " == "a b") && is_blank " \n" ≡ true
unfolding collapse_spaces trim
collapse_test = refl

abbrev digit : ℕ → String
digit n =
    if n == 0
    then "0"
    else if n == 1
    then "1"
    else if n == 2
    then "2"
    else if n == 3
    then "3"
    else if n == 4
    then "4"
    else if n == 5
    then "5"
    else if n == 6
    then "6"
    else if n == 7
    then "7"
    else if n == 8
    then "8"
    else "9"

-- The digits of a number, with as much fuel as it is large.
digits : ℕ → ℕ → String
digits zero n = digit n
digits (suc fuel) n =
    let front = digits fuel (n / 10) in if leb 10 n then append front (digit (n % 10)) else digit n

-- `${n}`
unfoldable pub decimal : ℕ → String
unfolding digits
decimal n = digits n n

decimal_test : decimal 10240 == "10240" ≡ true
unfolding decimal
decimal_test = refl

-- `xs.join(sep)`
abbrev pub join : String → List String → String
join sep [] = ""
join sep (x ∷ []) = x
join sep (x ∷ y ∷ xs) = append x (append sep (join sep (y ∷ xs)))
