-- ===== src/Permissions/Examples.antt =====
-- Runs of the permission checks on concrete roles.
use advisor_backend.Common.{
  String, ◌≡◌, refl, ◌↔◌, ◌⊎◌, true, false, Option, none, some, List, [], ◌∷◌, ok, err, value_error,
  key_error,
}
use advisor_backend.Json.{JsonValue, str, arr, obj, nil, cons, end, field}
use advisor_backend.Permissions.Permission.{
  RbacPermission, count_colons, split_colons, parse_permission, includes, underscored,
  as_kessel_permission,
}
use advisor_backend.Permissions.Permission.Parsing.{IsSplit, parse-IsSplit}
use advisor_backend.Permissions.HostGroups.{
  Request, host_read, groups_of_value, groups_of_filter, groups_of_definition,
  groups_of_definitions, found_in_role, role_groups, collect_groups, find_host_groups,
}
use advisor_backend.Permissions.HostGroups.Restriction.{
  Restricted, ReachesUnrestricted, collect_none, collect_some,
}
use advisor_backend.Permissions.Roles.{
  Response, check_response, permission_of, find_permission, matched,
}
use advisor_backend.Permissions.Roles.Granting.{Grants, find_permission-Grants, granted-includes}
use advisor_backend.Permissions.Systems.{UserRequest, request_to_username, request_to_org}
use advisor_backend.Permissions.Checks.{has_rbac_permission}
use advisor_backend.Permissions.Checks.Asked.{HasName, IsAnswered, has_rbac_permission-IsAnswered}

abbrev everything : RbacPermission
everything = record { string = "inventory:*:*"; app = "inventory"; resource = "*"; method = "*" }

abbrev host_write : RbacPermission
host_write = record {
  string = "inventory:hosts:write";
  app = "inventory";
  resource = "hosts";
  method = "write";
}

everything_parses : parse_permission (str everything.string) ≡ ok everything
unfolding parse_permission split_colons count_colons
everything_parses = refl

write_parses : parse_permission (str host_write.string) ≡ ok host_write
unfolding parse_permission split_colons count_colons
write_parses = refl

read_parses : parse_permission (str host_read.string) ≡ ok host_read
unfolding parse_permission split_colons count_colons
read_parses = refl

two_parts_fail : parse_permission (str "inventory:hosts") ≡ err value_error
unfolding parse_permission split_colons count_colons
two_parts_fail = refl

kessel_name :
    as_kessel_permission (record host_write { resource = "host-acks" }) ≡ "inventory_host_acks_edit"
unfolding as_kessel_permission underscored
kessel_name = refl

everything_covers_write : includes everything host_write ≡ true
unfolding includes
everything_covers_write = refl

write_covers_read : includes host_write host_read ≡ true
unfolding includes
write_covers_read = refl

everything_covers_read : includes everything host_read ≡ true
unfolding includes
everything_covers_read = refl

read_covers_no_write : includes host_read host_write ≡ false
unfolding includes
read_covers_no_write = refl

parse-IsSplit_example :
    (parse_permission (str "inventory:hosts:write") ≡ ok host_write)
    ↔ IsSplit "inventory:hosts:write" host_write
parse-IsSplit_example = parse-IsSplit "inventory:hosts:write" host_write

abbrev loads : String → Option JsonValue
loads s = none

abbrev role_with : String → JsonValue → JsonValue
role_with permission definitions =
    obj (field "permission" (str permission) (field "resourceDefinitions" definitions end))

abbrev filter_for : JsonValue → JsonValue
filter_for value = arr (
    cons
      (obj (
        field "attributeFilter" (obj (field "key" (str "group.id") (field "value" value end))) end))
      nil)

-- A role for one group, one for no group, and one without a restriction.
abbrev one_group : JsonValue
one_group = role_with "inventory:hosts:read" (filter_for (arr (cons (str "group 1") nil)))

abbrev no_group : JsonValue
no_group = role_with "inventory:*:*" (filter_for (arr nil))

abbrev all_hosts : JsonValue
all_hosts = role_with "inventory:hosts:*" (arr nil)

one_group_sets :
    collect_groups loads (no_group ∷ one_group ∷ []) [] ≡ ok (some (str "group 1" ∷ []))
unfolding collect_groups role_groups found_in_role groups_of_definitions groups_of_definition
    groups_of_filter groups_of_value parse_permission split_colons count_colons includes
one_group_sets = refl

all_hosts_unset : collect_groups loads (one_group ∷ all_hosts ∷ []) [] ≡ ok none
unfolding collect_groups role_groups found_in_role groups_of_definitions groups_of_definition
    groups_of_filter groups_of_value parse_permission split_colons count_colons includes
all_hosts_unset = refl

no_group_unset : collect_groups loads (no_group ∷ []) [] ≡ ok none
unfolding collect_groups role_groups found_in_role groups_of_definitions groups_of_definition
    groups_of_filter groups_of_value parse_permission split_colons count_colons includes
no_group_unset = refl

collect_none_example :
    (collect_groups loads (no_group ∷ []) [] ≡ ok none)
    ↔ (ReachesUnrestricted loads (no_group ∷ []) ⊎ Restricted loads (no_group ∷ []) [])
collect_none_example = collect_none loads (no_group ∷ [])

collect_some_example :
    (collect_groups loads (no_group ∷ one_group ∷ []) [] ≡ ok (some (str "group 1" ∷ [])))
    ↔ Restricted loads (no_group ∷ one_group ∷ []) (str "group 1" ∷ [])
collect_some_example = collect_some loads (no_group ∷ one_group ∷ []) (str "group 1") []

abbrev request : Request
request = record { host_groups = none; rbac_matched_permission = none; rbac_match_type = none }

-- A role whose attribute filter has a `value` and no `key`.
half_filter_raises :
    find_host_groups loads
      (role_with "inventory:*:*"
          (arr (cons (obj (field "attributeFilter" (obj (field "value" (arr nil) end)) end)) nil))
        ∷ [])
      request
    ≡ err (key_error "key")
unfolding find_host_groups collect_groups role_groups found_in_role groups_of_definitions
    groups_of_definition groups_of_filter parse_permission split_colons count_colons includes
half_filter_raises = refl

abbrev writer : List JsonValue
writer =
    obj (field "permission" (str "inventory") end)
    ∷ role_with "inventory:hosts:write" (arr nil)
    ∷ []

write_granted :
    find_permission host_write writer request ≡ ok (true, matched host_write "exact" request)
unfolding find_permission permission_of parse_permission split_colons count_colons includes
write_granted = refl

find_permission-Grants_example :
    ((r : Request) × (find_permission host_read writer request ≡ ok (true, r)))
    ↔ Grants host_read writer
find_permission-Grants_example = find_permission-Grants host_read writer request

granted-includes_example : (r : Request) × (find_permission host_read writer request ≡ ok (true, r))
granted-includes_example =
    granted-includes host_write host_read writer request (matched host_write "exact" request)
      write_parses read_parses write_covers_read write_granted

-- RBAC's answer with the roles of a writer.
abbrev response : Response
response = record {
  status_code = 200;
  json = ok (obj (field "data" (arr (cons (role_with "inventory:hosts:write" (arr nil)) nil)) end));
  content_text = ok "";
}

abbrev pat : UserRequest
pat = record {
  auth = some (obj end);
  username = some (str "pat");
  auth_system = none;
  auth_system_type = none;
}

asked_write :
    has_rbac_permission loads true "https://rbac"
      (λ r. some response)
      false
      none
      pat
      "inventory:hosts:write"
      request
    ≡ ok (true, matched host_write "exact" request, none)
unfolding request_to_username request_to_org has_rbac_permission check_response find_host_groups
    collect_groups role_groups found_in_role find_permission permission_of parse_permission
    split_colons count_colons includes
asked_write = refl

has_rbac_permission-IsAnswered_example :
    HasName pat
    × IsAnswered loads "https://rbac"
        (λ r. some response)
        "inventory:hosts:write"
        request
        (matched host_write "exact" request)
has_rbac_permission-IsAnswered_example =
    has_rbac_permission-IsAnswered loads "https://rbac" (λ r. some response) false pat
      "inventory:hosts:write" request (matched host_write "exact" request) none asked_write
