-- ===== src/Json.antt =====
-- The values that `json.loads` returns (`JsonValue` of api/advisor/kafka_utils.py) and what Python's
-- operations do on them: `in`, `[ ]`, `.get`, truth, `==` and `>`. Numbers are integers: a number
-- with a fraction or an exponent is not modelled.
pub mod TextOrder
use Prim.Native.String
use Prim.Native.Nat.{Ordering}
use text.Mathlib.Text.{starts_with}
use advisor_backend.Common.{
  ℕ, suc, String, Bool, true, false, not, ◌&&◌, ◌||◌, Option, none, some, List, [], ◌∷◌, ltb, ◌==◌,
  nat_eq, string_eq, if◌then◌else◌, Result, ok, err, key_error, index_error, type_error,
  attribute_error,
}

-- `negsuc n` is -(n + 1).
pub data ℤ : Type 0 where
  pos : ℕ → ℤ
  negsuc : ℕ → ℤ

abbrev pub int_eq : ℤ → ℤ → Bool
int_eq (pos m) (pos n) = m == n
int_eq (negsuc m) (negsuc n) = m == n
int_eq _ _ = false

abbrev pub int_gt : ℤ → ℤ → Bool
int_gt (pos m) (pos n) = ltb n m
int_gt (pos m) (negsuc n) = true
int_gt (negsuc m) (pos n) = false
int_gt (negsuc m) (negsuc n) = ltb m n

mutual
  pub data JsonValue : Type 0 where
    null : JsonValue
    bool : Bool → JsonValue
    num : ℤ → JsonValue
    str : String → JsonValue
    arr : Items → JsonValue
    obj : Fields → JsonValue

  pub data Items : Type 0 where
    nil : Items
    cons : JsonValue → Items → Items

  pub data Fields : Type 0 where
    end : Fields
    field : String → JsonValue → Fields → Fields

abbrev pub to_items : List JsonValue → Items
to_items [] = nil
to_items (v ∷ vs) = cons v (to_items vs)

abbrev pub find_field : String → Fields → Option JsonValue
find_field k end = none
find_field k (field j v fs) = if j == k then some v else find_field k fs

-- bool(v)
abbrev pub truthy : JsonValue → Bool
truthy null = false
truthy (bool b) = b
truthy (num z) = not (int_eq z (pos 0))
truthy (str s) = not (s == "")
truthy (arr nil) = false
truthy (arr (cons v vs)) = true
truthy (obj end) = false
truthy (obj (field k v fs)) = true

-- a or b
abbrev pub or_else : JsonValue → JsonValue → JsonValue
or_else a b = if truthy a then a else b

abbrev pub option_or : Option JsonValue → JsonValue → JsonValue
option_or none d = d
option_or (some v) d = v

-- v.get(k, d): only a dict has the method
abbrev pub get_or : JsonValue → String → JsonValue → Result JsonValue
get_or (obj fs) k d = ok (option_or (find_field k fs) d)
get_or _ k d = err attribute_error

abbrev pub get : JsonValue → String → Result JsonValue
get v k = get_or v k null

abbrev pub found_or_key_error : String → Option JsonValue → Result JsonValue
found_or_key_error k none = err (key_error k)
found_or_key_error k (some v) = ok v

-- v[k] for a text k
abbrev pub subscript : JsonValue → String → Result JsonValue
subscript (obj fs) k = found_or_key_error k (find_field k fs)
subscript _ k = err type_error

-- v[0]
abbrev pub first_item : JsonValue → Result JsonValue
first_item (arr nil) = err index_error
first_item (arr (cons v vs)) = ok v
first_item (str String.[]) = err index_error
first_item (str (String.◌∷◌ c s)) = ok (str (String.◌∷◌ c String.[]))
first_item (obj fs) = err (key_error "0")
first_item _ = err type_error

abbrev pub is_obj : JsonValue → Bool
is_obj (obj fs) = true
is_obj _ = false

abbrev pub is_str : String → JsonValue → Bool
is_str s (str t) = t == s
is_str s _ = false

-- s in t, for texts
abbrev pub is_substring : String → String → Bool
is_substring s String.[] = s == ""
is_substring s (String.◌∷◌ c t) = starts_with (String.◌∷◌ c t) s || is_substring s t

abbrev pub items_contain_str : String → Items → Bool
items_contain_str s nil = false
items_contain_str s (cons v vs) = is_str s v || items_contain_str s vs

abbrev pub is_found : Option JsonValue → Bool
is_found none = false
is_found (some v) = true

-- s in v, for a text s
abbrev pub contains_str : String → JsonValue → Result Bool
contains_str s (obj fs) = ok (is_found (find_field s fs))
contains_str s (arr vs) = ok (items_contain_str s vs)
contains_str s (str t) = ok (is_substring s t)
contains_str s _ = err type_error

abbrev count_fields : Fields → ℕ
count_fields end = 0
count_fields (field k v fs) = suc (count_fields fs)

-- True == 1 and False == 0
abbrev as_int : JsonValue → Option ℤ
as_int (bool true) = some (pos 1)
as_int (bool false) = some (pos 0)
as_int (num z) = some z
as_int _ = none

abbrev same_int : ℤ → Option ℤ → Bool
same_int y none = false
same_int y (some z) = int_eq y z

-- a == b
unfoldable mutual
  pub json_eq : JsonValue → JsonValue → Bool
  json_eq null w = elim w [ null ↦ true | _ ↦ false ]
  json_eq (bool b) w = elim b [
    | true ↦ same_int (pos 1) (as_int w)
    | false ↦ same_int (pos 0) (as_int w)
  ]
  json_eq (num z) w = same_int z (as_int w)
  json_eq (str s) w = is_str s w
  json_eq (arr vs) w = elim w [ arr ws ↦ items_eq vs ws | _ ↦ false ]
  json_eq (obj fs) w = elim w [
    | obj gs ↦ (count_fields fs == count_fields gs) && fields_in fs gs
    | _ ↦ false
  ]

  pub items_eq : Items → Items → Bool
  items_eq nil ws = elim ws [ nil ↦ true | cons w rest ↦ false ]
  items_eq (cons v vs) ws = elim ws [ nil ↦ false | cons w rest ↦ json_eq v w && items_eq vs rest ]

  pub fields_in : Fields → Fields → Bool
  fields_in end gs = true
  fields_in (field k v fs) gs = elim (find_field k gs) [
    | none ↦ false
    | some w ↦ json_eq v w && fields_in fs gs
  ]

unfoldable pub text_gt : String → String → Bool
text_gt s t = elim (String.compare s t) [ Ordering.gt ↦ true | _ ↦ false ]

ints_gt : Option ℤ → Option ℤ → Result Bool
ints_gt (some y) (some z) = ok (int_gt y z)
ints_gt _ _ = err type_error

-- a > b: texts by code points, numbers, lists at their first difference, nothing else
unfoldable mutual
  unfolding json_eq text_gt ints_gt

  pub json_gt : JsonValue → JsonValue → Result Bool
  json_gt null w = err type_error
  json_gt (bool b) w = ints_gt (as_int (bool b)) (as_int w)
  json_gt (num z) w = ints_gt (some z) (as_int w)
  json_gt (str s) w = elim w [ str t ↦ ok (text_gt s t) | _ ↦ err type_error ]
  json_gt (arr vs) w = elim w [ arr ws ↦ items_gt vs ws | _ ↦ err type_error ]
  json_gt (obj fs) w = err type_error

  pub items_gt : Items → Items → Result Bool
  items_gt nil ws = ok false
  items_gt (cons v vs) ws = elim ws [
    | nil ↦ ok true
    | cons w rest ↦
        let later = items_gt vs rest in
        let here = json_gt v w in if json_eq v w then later else here
  ]
