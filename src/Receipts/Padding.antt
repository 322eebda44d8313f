-- ===== src/Receipts/Padding.antt =====
-- base64 padding, as `_encode` strips and `_decode` restores it, and `token.split(".")`.
use Prim.Native.Char.{Char, code}
use Prim.Native.String.append
use media_bridge.Base.{
  ℕ, zero, suc, ◌-◌, ◌%◌, String, true, not, ◌&&◌, List, [], ◌∷◌, ◌≡◌, refl, arith, concat, codes,
  text_length, is_blank, all, ◌==◌, number_eq, if◌then◌else◌,
}

-- `n` equals signs.
unfoldable pub padding : ℕ → String
padding zero = ""
padding (suc n) = concat "=" (padding n)

-- `rstrip("=")`
unfoldable pub unpad : String → String
unpad String.[] = ""
unpad (String.◌∷◌ c s) =
    let r = unpad s in if is_blank r && code c == b'=' then "" else String.◌∷◌ c r

-- `data + "=" * (-len(data) % 4)`
unfoldable pub repad : String → String
unfolding padding
repad s = concat s (padding ((4 - text_length s % 4) % 4))

prepend : Char → List String → List String
prepend c [] = String.◌∷◌ c "" ∷ []
prepend c (w ∷ ws) = String.◌∷◌ c w ∷ ws

-- `s.split(separator)`, for a separator of one character.
unfoldable pub split_on : ℕ → String → List String
unfolding prepend
split_on separator String.[] = "" ∷ []
split_on separator (String.◌∷◌ c s) =
    let rest = split_on separator s in if code c == separator then "" ∷ rest else prepend c rest

-- No character of the text has this number.
abbrev pub Lacks : ℕ → String → Type 0
Lacks n s = all (λ c. not (c == n)) (codes s) ≡ true

pub split_on-append :
    (separator : ℕ) (dot : Char) (s t : String)
    → code dot ≡ separator
    → Lacks separator s
    → split_on separator (concat s (String.◌∷◌ dot t)) ≡ s ∷ split_on separator t
unfolding split_on prepend
split_on-append separator dot String.[] t e h = rw (append.nil (String.◌∷◌ dot t)) (ground arith)
split_on-append separator dot (String.◌∷◌ c s) t e h =
    rw (append.cons c s (String.◌∷◌ dot t)) (ground (arith, split_on-append separator dot s t e))

pub split_on-Lacks :
    (separator : ℕ) (s : String) → Lacks separator s → split_on separator s ≡ s ∷ []
unfolding split_on prepend
split_on-Lacks separator String.[] h = refl
split_on-Lacks separator (String.◌∷◌ c s) h = ground (arith, split_on-Lacks separator s)

unpad-padding : (k : ℕ) → unpad (padding k) ≡ ""
unfolding unpad padding
unpad-padding zero = refl
unpad-padding (suc k) =
    rw (append.cons _ _ (padding k), append.nil (padding k)) (rw (unpad-padding k))

-- Stripping takes off just the padding.
pub unpad-append : (s : String) (k : ℕ) → Lacks b'=' s → unpad (concat s (padding k)) ≡ s
unfolding unpad
unpad-append String.[] k h = rw (append.nil (padding k)) (unpad-padding k)
unpad-append (String.◌∷◌ c s) k h =
    rw (append.cons c s (padding k)) (ground (arith, unpad-append s k))
