-- ===== src/Json.antt =====
-- JSON values, as `json.loads` returns them and `model_dump(mode="json")` builds them: the objects
-- keep their order of insertion, and a number that is no natural keeps its literal.
pub mod Laws
use media_bridge.Base.{
  ℕ, String, Bool, false, ◌||◌, Option, none, some, List, [], ◌∷◌, ◌==◌, string_eq, if◌then◌else◌,
}

mutual
  pub data Json : Type 0 where
    null : Json
    bool : Bool → Json
    int : ℕ → Json
    number : String → Json
    text : String → Json
    array : Items → Json
    object : Fields → Json

  pub data Items : Type 0 where
    nil : Items
    cons : Json → Items → Items

  pub data Fields : Type 0 where
    end : Fields
    field : String → Json → Fields → Fields

-- `object.get(key)` with the key's absence kept apart from `null`.
unfoldable pub find : String → Fields → Option Json
find k end = none
find k (field j v fs) = if j == k then some v else find k fs

-- `object.get(key)`: `null` where the key is missing.
unfoldable pub get : String → Fields → Json
unfolding find
get k fs = elim (find k fs) [ none ↦ null | some v ↦ v ]

-- `key in object`
unfoldable pub has_key : String → Fields → Bool
has_key k end = false
has_key k (field j v fs) = j == k || has_key k fs

unfoldable pub keys : Fields → List String
keys end = []
keys (field j v fs) = j ∷ keys fs

-- `object.pop(key, None)`, or the comprehension that leaves the key out.
unfoldable pub remove : String → Fields → Fields
remove k end = end
remove k (field j v fs) = let rest = remove k fs in if j == k then rest else field j v rest

-- `object[key] = value`
unfoldable pub insert : String → Json → Fields → Fields
insert k v end = field k v end
insert k v (field j w fs) =
    let rest = insert k v fs in if j == k then field j v fs else field j w rest

unfoldable pub from_list : List Json → Items
from_list [] = nil
from_list (v ∷ vs) = cons v (from_list vs)

abbrev pub optional_text : Option String → Json
optional_text none = null
optional_text (some s) = text s
