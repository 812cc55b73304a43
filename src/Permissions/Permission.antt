-- ===== src/Permissions/Permission.antt =====
-- `RBACPermission` of api/advisor/api/permissions.py.
pub mod Parsing
pub mod Inclusion
use Prim.Native.Char.{Char, code}
use Prim.Native.String.{◌++◌}
use advisor_backend.Common.{
  ℕ, zero, suc, String, Bool, true, false, ◌&&◌, ◌||◌, not, if◌then◌else◌, List, [], ◌∷◌, ◌==◌,
  nat_eq, string_eq, Result, ok, err, type_error, value_error,
}
use advisor_backend.Json.{JsonValue, str}

pub record RbacPermission : Type 0 where
  pub string : String
  pub app : String
  pub resource : String
  pub method : String

-- s.count(':')
unfoldable pub count_colons : String → ℕ
count_colons String.[] = 0
count_colons (String.◌∷◌ c s) = let n = count_colons s in if code c == 58 then suc n else n

abbrev pub push : Char → List String → List String
push c [] = String.◌∷◌ c String.[] ∷ []
push c (w ∷ ws) = String.◌∷◌ c w ∷ ws

-- s.split(':')
unfoldable pub split_colons : String → List String
split_colons String.[] = "" ∷ []
split_colons (String.◌∷◌ c s) =
    let ws = split_colons s in if code c == 58 then "" ∷ ws else push c ws

abbrev pub unpack : String → List String → Result RbacPermission
unpack s (a ∷ b ∷ c ∷ []) = ok (record { string = s; app = a; resource = b; method = c })
unpack s _ = err value_error

-- RBACPermission(v)
unfoldable pub parse_permission : JsonValue → Result RbacPermission
parse_permission (str s) =
    if not (count_colons s == 2) then err value_error else unpack s (split_colons s)
parse_permission _ = err type_error

-- p == q
abbrev pub same_permission : RbacPermission → RbacPermission → Bool
same_permission p q = p.string == q.string

-- other in self, which is self.__contains__(other)
unfoldable pub includes : RbacPermission → RbacPermission → Bool
includes self other =
    if self.string == other.string
    then true
    else if not ((self.app == other.app) || (self.app == "*"))
    then false
    else if not ((self.resource == other.resource) || (self.resource == "*"))
    then false
    else if self.method == "*"
    then true
    else if self.method == other.method
    then true
    else (other.method == "read") && (self.method == "write")

-- s.replace('-', '_')
unfoldable pub underscored : String → String
underscored String.[] = ""
underscored (String.◌∷◌ c s) =
    let rest = underscored s in if code c == 45 then "_" ++ rest else String.◌∷◌ c rest

unfoldable pub as_kessel_permission : RbacPermission → String
unfolding underscored
as_kessel_permission p =
    p.app
    ++ "_"
    ++ underscored p.resource
    ++ "_"
    ++ (if p.method == "write" then "edit" else "view")
