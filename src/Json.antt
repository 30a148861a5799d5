-- ===== src/Json.antt =====
-- JavaScript values as JSON.parse builds them, with `undefined` for what an object lacks. An object is
-- the list of its properties in insertion order, as JSON.stringify writes them out.
pub mod Laws
use bitsocial_cli.Common.{
  ℕ, String, Bool, true, false, Option, none, some, str_eq, if◌then◌else◌, ◌==◌, not, ◌||◌,
}

mutual
  pub data Json : Type 0 where
    undefined : Json
    null : Json
    bool : Bool → Json
    num : ℕ → Json
    str : String → Json
    arr : Items → Json
    obj : Fields → Json

  pub data Items : Type 0 where
    nil : Items
    cons : Json → Items → Items

  pub data Fields : Type 0 where
    end : Fields
    field : String → Json → Fields → Fields

-- The property of that name, if the object has one.
unfoldable pub find : String → Fields → Option Json
find k end = none
find k (field j v f) = if str_eq j k then some v else find k f

-- `f[k]`
unfoldable pub get : String → Fields → Json
unfolding find
get k f = elim (find k f) [ none ↦ undefined | some v ↦ v ]

-- `f[k] = v`: in place, or behind the other properties.
unfoldable pub set : String → Json → Fields → Fields
set k v end = field k v end
set k v (field j w f) = if str_eq j k then field j v f else field j w (set k v f)

-- `delete f[k]`. An object has a name at most once.
unfoldable pub remove : String → Fields → Fields
remove k end = end
remove k (field j w f) = if str_eq j k then remove k f else field j w (remove k f)

-- `v?.k`. Only an object has properties of the names that are read in this way.
unfoldable pub get_in : String → Json → Json
unfolding get
get_in k (obj f) = get k f
get_in k _ = undefined

-- Whether a condition holds.
unfoldable pub truthy : Json → Bool
truthy undefined = false
truthy null = false
truthy (bool b) = b
truthy (num n) = not (n == 0)
truthy (str s) = not (str_eq s "")
truthy (arr xs) = true
truthy (obj f) = true

-- `v === undefined || v === null`
unfoldable pub nullish : Json → Bool
nullish undefined = true
nullish null = true
nullish _ = false
