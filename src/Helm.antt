-- ===== src/Helm.antt =====
-- Helm values as the code reads and changes them (internal/helm/values.go). A map is the list of its entries
-- in the order of their keys.
pub mod Decided
pub mod Asked
mod Tests
use pv_migrate.Common.{
  ◌++◌, ℕ, Bool, true, false, ◌&&◌, ◌||◌, not, List, [], ◌∷◌, Option, none, some, Bytes, codes,
  is_empty, Result, ok, err, if◌then◌else◌, str_eq, ltb, ◌==◌, ℤ, join,
}

mutual
  pub data Value : Type 0 where
    text : Bytes → Value
    flag : Bool → Value
    number : ℤ → Value
    table : Table → Value
    items : Items → Value

  pub data Table : Type 0 where
    empty : Table
    entry : Bytes → Value → Table → Table

  pub data Items : Type 0 where
    nothing : Items
    item : Value → Items → Items

-- `m[key]`
unfoldable pub get : Table → Bytes → Option Value
get empty key = none
get (entry k v t) key = if str_eq k key then some v else get t key

-- Whether one text comes before another.
unfoldable pub str_lt : Bytes → Bytes → Bool
str_lt s [] = false
str_lt [] (b ∷ t) = true
str_lt (a ∷ s) (b ∷ t) = ltb a b || (a == b && str_lt s t)

-- `m[key] = value`
unfoldable pub put : Bytes → Value → Table → Table
put key value empty = entry key value empty
put key value (entry k v t) =
    let rest = put key value t in
    if str_eq k key
    then entry k value t
    else if str_lt key k
    then entry key value (entry k v t)
    else entry k v rest

-- `m[key].(map[string]any)`
abbrev pub as_table : Option Value → Option Table
as_table (some (table t)) = some t
as_table _ = none

-- `m[key] == true` and `m[key] == false`
abbrev pub is_flag : Bool → Option Value → Bool
is_flag true (some (flag true)) = true
is_flag false (some (flag false)) = true
is_flag _ _ = false

abbrev pub as_text : Option Value → Bytes
as_text (some (text s)) = s
as_text _ = []

abbrev pub key_enabled : Bytes
key_enabled = codes "enabled"

abbrev pub key_namespace : Bytes
key_namespace = codes "namespace"

abbrev pub key_network_policy : Bytes
key_network_policy = codes "networkPolicy"

-- `EnabledComponent`
unfoldable pub enabled_component : Table → Bytes → Option Table
enabled_component values component = elim (as_table (get values component)) [
  | none ↦ none
  | some section ↦ if is_flag true (get section key_enabled) then some section else none
]

-- `ComponentNamespace`
abbrev pub component_namespace : Table → Bytes
component_namespace section = as_text (get section key_namespace)

abbrev pub is_policy_on : Option Table → Bool
is_policy_on none = true
is_policy_on (some policy) = not (is_flag false (get policy key_enabled))

-- `NetworkPolicyOn`
unfoldable pub network_policy_on : Table → Bool
network_policy_on section = is_policy_on (as_table (get section key_network_policy))

-- `namespaceToCheck`
unfoldable pub namespace_to_check : Table → Bytes
namespace_to_check section =
    if not (is_flag true (get section key_enabled))
    then []
    else elim (as_table (get section key_network_policy)) [
      | none ↦ component_namespace section
      | some policy ↦
          if is_flag false (get policy key_enabled) then [] else component_namespace section
    ]

-- `networkPoliciesAllowed`: a check that cannot be made is a no.
abbrev pub network_policies_allowed : (Bytes → Result Bytes Bool) → Bytes → Bool
network_policies_allowed can_create ns = elim (can_create ns) [
  | err e ↦ false
  | ok allowed ↦ allowed
]

-- The policy that is there, or a new one.
abbrev pub policy_or_new : Option Table → Table
policy_or_new none = empty
policy_or_new (some policy) = policy

-- The section with its policy off.
unfoldable pub policy_off : Table → Table
policy_off section =
    let policy = policy_or_new (as_table (get section key_network_policy)) in
    put key_network_policy (table (put key_enabled (flag false) policy)) section

-- `allowedByNamespace`
abbrev pub Cache : Type 0
Cache = List (Bytes × Bool)

unfoldable pub look_up : Cache → Bytes → Option Bool
look_up [] ns = none
look_up ((n, allowed) ∷ cache) ns = if str_eq n ns then some allowed else look_up cache ns

-- What a round says of one namespace: the answer, the cache with it, and the namespaces asked for.
abbrev pub Checked : Type 0
Checked = Bool × Cache × List Bytes

abbrev pub answer : (Bytes → Result Bytes Bool) → Bytes → Cache → Option Bool → Checked
answer can_create ns cache (some allowed) = (allowed, cache, [])
answer can_create ns cache none =
    let allowed = network_policies_allowed can_create ns in
    (allowed, (ns, allowed) ∷ cache, ns ∷ [])

unfoldable pub check_once : (Bytes → Result Bytes Bool) → Bytes → Cache → Checked
check_once can_create ns cache = answer can_create ns cache (look_up cache ns)

-- One section in the loop of `DisableNetworkPoliciesWhereForbidden`: its value, the cache, and the namespaces
-- asked for.
unfoldable pub disable_section :
    (Bytes → Result Bytes Bool) → Value → Cache → Value × Cache × List Bytes
disable_section can_create (table section) cache =
    let ns = namespace_to_check section in
    let (allowed, next, asked) = check_once can_create ns cache in
    if is_empty ns
    then (table section, cache, [])
    else (if allowed then table section else table (policy_off section), next, asked)
disable_section can_create value cache = (value, cache, [])

-- `DisableNetworkPoliciesWhereForbidden`: the values and the namespaces that the cluster was asked for. A
-- round changes no other section than its own.
unfoldable pub disable_network_policies :
    (Bytes → Result Bytes Bool) → Table → Cache → Table × List Bytes
disable_network_policies can_create empty cache = (empty, [])
disable_network_policies can_create (entry component value rest) cache =
    let (section, next, asked) = disable_section can_create value cache in
    let (sections, later) = disable_network_policies can_create rest next in
    (entry component section sections, asked ++ later)
