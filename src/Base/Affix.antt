-- ===== src/Base/Affix.antt =====
-- Prefixes, suffixes and parts of a text, as `str` has them.
use Prim.Native.Char.{Char, code}
use Prim.Native.String.append
use Prim.Native.String.{String, ◌++◌ as concat}
use mathlib.Core.Path.{◌≡◌, refl, ap}
use mathlib.Core.Logic.{inl, inr}
use mathlib.Core.Bool.{Bool, true, false, ◌&&◌, ◌||◌}
use mathlib.Core.Option.{Option, none, some}
use native.Mathlib.Omega.{arith}
use text.Mathlib.TextEquality.{eq_iff}
use media_bridge.Base.Tests.{◌==◌, number_eq, string_eq, if◌then◌else◌, Bool-cases}

-- `s.startswith(prefix)`
unfoldable pub starts_with : String → String → Bool
starts_with (String.◌∷◌ first others) (String.◌∷◌ c s) =
    code first == code c && starts_with others s
starts_with (String.◌∷◌ first others) String.[] = false
starts_with String.[] s = true

-- `needle in s`
unfoldable pub contains_text : String → String → Bool
unfolding starts_with
contains_text needle String.[] = starts_with needle ""
contains_text needle (String.◌∷◌ c s) =
    starts_with needle (String.◌∷◌ c s) || contains_text needle s

-- As many characters less as the first text has.
drop_prefix : String → String → String
drop_prefix (String.◌∷◌ first others) (String.◌∷◌ c s) = drop_prefix others s
drop_prefix (String.◌∷◌ first others) String.[] = ""
drop_prefix String.[] s = s

-- `s.removeprefix(prefix)`
unfoldable pub remove_prefix : String → String → String
unfolding starts_with drop_prefix
remove_prefix prefix s = if starts_with prefix s then drop_prefix prefix s else s

-- `s.removesuffix(suffix)`
unfoldable pub remove_suffix : String → String → String
remove_suffix suffix String.[] = ""
remove_suffix suffix (String.◌∷◌ c s) =
    let rest = remove_suffix suffix s in if String.◌∷◌ c s == suffix then "" else String.◌∷◌ c rest

-- `s.split(separator, 1)` for a separator of one character, `none` where it is not there.
unfoldable pub split_once : String → String → Option (String × String)
split_once separator String.[] = none
split_once separator (String.◌∷◌ c s) =
    if String.◌∷◌ c "" == separator then some ("", s) else elim (split_once separator s) [
      | none ↦ none
      | some (before, after) ↦ some (String.◌∷◌ c before, after)
    ]

split_once_comma : split_once "," "a,b,c" ≡ some ("a", "b,c")
unfolding split_once
split_once_comma = refl

remove_suffix_lem : remove_suffix ";x" (remove_prefix "d:" "d:p/q;x") ≡ "p/q"
unfolding remove_suffix remove_prefix
remove_suffix_lem = refl

consed :
    (c : Char) (s : String) (found : Option (String × String)) (before after : String)
    → elim found as (λ x. Option (String × String)) [
      | none ↦ none
      | some (b, a) ↦ some (String.◌∷◌ c b, a)
    ]
      ≡ some (before, after)
    → (b : String) × (found ≡ some (b, after)) × (String.◌∷◌ c b ≡ before)
consed c s none before after h = absurd (cc h)
consed c s (some (b, a)) before after h = (b, ground arith, ground arith)

-- The parts of a split text make the text again.
pub split_once-parts :
    (separator s before after : String)
    → split_once separator s ≡ some (before, after)
    → s ≡ concat before (concat separator after)
unfolding split_once
split_once-parts separator String.[] before after h = cc
split_once-parts separator (String.◌∷◌ c s) before after h =
    elim (Bool-cases (String.◌∷◌ c "" == separator)) [
      | inl here ↦
          let e : String.◌∷◌ c "" ≡ separator = (eq_iff (String.◌∷◌ c "") separator).0 here in
          let first : "" ≡ before = ground arith in
          let rest : s ≡ after = ground arith in
          rw (← first, ← rest, ← e)
            (rw (append.cons c "" s, append.nil s, append.nil (String.◌∷◌ c s)) refl)
      | inr later ↦
          let (b, found, joined) =
            consed c s (split_once separator s) before after (rw later at h) in
          rw (← joined, append.cons c b (concat separator after))
            (ap (String.◌∷◌ c) (split_once-parts separator s b after found))
    ]
