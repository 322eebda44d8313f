-- ===== src/Base/Text.antt =====
-- Python's `str` operations that the program calls, over native texts.
use Prim.Native.Char.{code}
use Prim.Native.Nat.{ℕ, zero, suc, ◌+◌, ◌/◌, ◌%◌}
use Prim.Native.String.{String, ◌++◌ as concat}
use mathlib.Core.Path.{◌≡◌, refl}
use mathlib.Core.Bool.{Bool, true, false, ◌&&◌, ◌||◌}
use mathlib.Core.List.{List, [], ◌∷◌}
use media_bridge.Base.Tests.{leb, ◌==◌, number_eq, if◌then◌else◌}
use media_bridge.Base.Lists.{length, all}

-- The code points of a text.
abbrev pub codes : String → List ℕ
codes String.[] = []
codes (String.◌∷◌ c s) = code c ∷ codes s

-- `len(s)`
abbrev pub text_length : String → ℕ
text_length s = length (codes s)

-- `not s`
abbrev pub is_blank : String → Bool
is_blank String.[] = true
is_blank (String.◌∷◌ c s) = false

abbrev pub between : ℕ → ℕ → ℕ → Bool
between lo hi c = leb lo c && leb c hi

-- The character classes of the program's patterns.
abbrev pub is_lower : ℕ → Bool
is_lower c = between b'a' b'z' c

abbrev pub is_upper : ℕ → Bool
is_upper c = between b'A' b'Z' c

abbrev pub is_digit : ℕ → Bool
is_digit c = between b'0' b'9' c

abbrev pub is_alnum : ℕ → Bool
is_alnum c = is_lower c || is_upper c || is_digit c

-- `^[first][rest]{0,most}$`
abbrev pub full_match : (ℕ → Bool) → (ℕ → Bool) → ℕ → List ℕ → Bool
full_match first rest most [] = false
full_match first rest most (c ∷ cs) = first c && (all rest cs && leb (length cs) most)

-- `str.isspace`
abbrev pub is_space : ℕ → Bool
is_space c =
    between 9 13 c
    || between 28 32 c
    || c == 0x85
    || c == 0xa0
    || c == 0x1680
    || between 0x2000 0x200a c
    || between 0x2028 0x2029 c
    || c == 0x202f
    || c == 0x205f
    || c == 0x3000

unfoldable pub strip_left : String → String
strip_left String.[] = ""
strip_left (String.◌∷◌ c s) = elim (is_space (code c)) [
  | true ↦ strip_left s
  | false ↦ String.◌∷◌ c s
]

unfoldable pub strip_right : String → String
strip_right String.[] = ""
strip_right (String.◌∷◌ c s) =
    let r = strip_right s in if is_blank r && is_space (code c) then "" else String.◌∷◌ c r

-- `s.strip()`
unfoldable pub strip : String → String
unfolding strip_left strip_right
strip s = strip_right (strip_left s)

-- `separator.join(texts)`
unfoldable pub join : String → List String → String
join separator [] = ""
join separator (s ∷ []) = s
join separator (s ∷ t ∷ rest) = concat s (concat separator (join separator (t ∷ rest)))

strip_lem : strip " \n a b\t" ≡ "a b"
unfolding strip
strip_lem = refl

join_lem : join ", " ("a" ∷ "b" ∷ "c" ∷ []) ≡ "a, b, c"
unfolding join
join_lem = refl

-- The last decimal digit of a number.
digit : ℕ → String
digit d = elim (d % 10) [
  | zero ↦ "0"
  | suc zero ↦ "1"
  | suc (suc zero) ↦ "2"
  | suc (suc (suc zero)) ↦ "3"
  | suc (suc (suc (suc zero))) ↦ "4"
  | suc (suc (suc (suc (suc zero)))) ↦ "5"
  | suc (suc (suc (suc (suc (suc zero))))) ↦ "6"
  | suc (suc (suc (suc (suc (suc (suc zero)))))) ↦ "7"
  | suc (suc (suc (suc (suc (suc (suc (suc zero))))))) ↦ "8"
  | _ ↦ "9"
]

-- A number has no more digits than its successor, which serves as fuel.
show_from : ℕ → ℕ → String
unfolding digit
show_from zero n = ""
show_from (suc fuel) n = elim (leb n 9) [
  | true ↦ digit n
  | false ↦ concat (show_from fuel (n / 10)) (digit n)
]

-- `str(n)`
unfoldable pub show : ℕ → String
unfolding show_from
show n = show_from (n + 1) n

show_lem : show 1207 ≡ "1207"
unfolding show
show_lem = refl
