-- ===== src/Json/Laws.antt =====
-- The laws of the properties of an object, with the order of the properties.
use bitsocial_cli.Common.{◌≡◌, refl, String, false, none, some, str_eq, arith, eq_iff, eq_refl}
use bitsocial_cli.Json.{arr, Items, Json, Fields, end, field, find, get, set, remove, undefined}

pub find-set_self : (k : String) (v : Json) (f : Fields) → find k (set k v f) ≡ some v
unfolding find set
find-set_self k v end = ground (arith, eq_refl k)
find-set_self k v (field j w f) = ground (arith, find-set_self k v f)

pub find-set_ne :
    (j k : String) (v : Json) (f : Fields) → str_eq k j ≡ false → find j (set k v f) ≡ find j f
unfolding find set
find-set_ne j k v end h = ground arith
find-set_ne j k v (field i w f) h =
    ground (arith, find-set_ne j k v f h, eq_iff i k, eq_iff i j, eq_iff k j)

pub set-find : (k : String) (v : Json) (f : Fields) → find k f ≡ some v → set k v f ≡ f
unfolding find set
set-find k v end h = ground arith
set-find k v (field j w f) h = ground (arith, set-find k v f)

pub set-set : (k : String) (v w : Json) (f : Fields) → set k v (set k w f) ≡ set k v f
unfolding set
set-set k v w end = ground (arith, eq_refl k)
set-set k v w (field j u f) = ground (arith, set-set k v w f)

-- A property that is there is written in place, so the order of two writes does not matter.
pub set_comm :
    (j k : String) (v w u : Json) (f : Fields)
    → str_eq k j ≡ false
    → find j f ≡ some u
    → set k v (set j w f) ≡ set j w (set k v f)
unfolding find set
set_comm j k v w u end h p = ground arith
set_comm j k v w u (field i x f) h p =
    ground (arith, set_comm j k v w u f h, eq_iff i k, eq_iff i j, eq_iff k j)

pub remove-set_ne :
    (j k : String) (v : Json) (f : Fields)
    → str_eq k j ≡ false
    → remove j (set k v f) ≡ set k v (remove j f)
unfolding set remove
remove-set_ne j k v end h = ground arith
remove-set_ne j k v (field i x f) h =
    ground (arith, remove-set_ne j k v f h, eq_iff i k, eq_iff i j, eq_iff k j)

pub remove_absent : (k : String) (f : Fields) → find k f ≡ none → remove k f ≡ f
unfolding find remove
remove_absent k end h = refl
remove_absent k (field j w f) h = ground (arith, remove_absent k f)

-- A property that was appended leaves no trace when it is deleted.
pub remove-set_absent :
    (k : String) (v : Json) (f : Fields) → find k f ≡ none → remove k (set k v f) ≡ f
unfolding find set remove
remove-set_absent k v end h = ground (arith, eq_refl k)
remove-set_absent k v (field j w f) h = ground (arith, remove-set_absent k v f)

pub find-remove_ne :
    (j k : String) (f : Fields) → str_eq k j ≡ false → find j (remove k f) ≡ find j f
unfolding find remove
find-remove_ne j k end h = refl
find-remove_ne j k (field i w f) h =
    ground (arith, find-remove_ne j k f h, eq_iff i k, eq_iff i j, eq_iff k j)

pub get_of_find : (k : String) (f : Fields) {v : Json} → find k f ≡ some v → get k f ≡ v
unfolding get
get_of_find k f h = ground arith

pub get_of_absent : (k : String) (f : Fields) → find k f ≡ none → get k f ≡ undefined
unfolding get
get_of_absent k f h = ground arith

pub get-set_self : (k : String) (v : Json) (f : Fields) → get k (set k v f) ≡ v
get-set_self k v f = get_of_find k (set k v f) (find-set_self k v f)

pub get-set_ne :
    (j k : String) (v : Json) (f : Fields) → str_eq k j ≡ false → get j (set k v f) ≡ get j f
unfolding get
get-set_ne j k v f h = rw (find-set_ne j k v f h, get)

pub get-remove_ne : (j k : String) (f : Fields) → str_eq k j ≡ false → get j (remove k f) ≡ get j f
unfolding get
get-remove_ne j k f h = rw (find-remove_ne j k f h, get)

pub find_of_get_list :
    (k : String) (f : Fields) (xs : Items) → get k f ≡ arr xs → find k f ≡ some (arr xs)
unfolding get
find_of_get_list k f xs h = ground arith

pub get-same : (k : String) (f g : Fields) → find k f ≡ find k g → get k f ≡ get k g
unfolding get
get-same k f g h = rw (h, get)
