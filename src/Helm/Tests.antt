-- ===== src/Helm/Tests.antt =====
-- Tests and examples of the values.
use pv_migrate.Common.{Bool, true, not, [], ◌∷◌, Bytes, codes, Result, ok, ◌≡◌, refl, str_eq}
use pv_migrate.Helm.{
  text, flag, table, Table, empty, entry, disable_network_policies, look_up, get, disable_section,
  namespace_to_check, check_once,
}
use pv_migrate.Helm.Decided.{all_decided, disable_network_policies-all_decided}

-- A component that is part of the release, in a namespace.
abbrev section : Bytes → Table
section ns = entry (codes "enabled") (flag true) (entry (codes "namespace") (text ns) empty)

abbrev values : Table
values =
    entry (codes "rsync") (table (section (codes "locked")))
      (entry (codes "sshd") (table (section (codes "locked"))) empty)

abbrev can_create : Bytes → Result Bytes Bool
can_create ns = ok (not (str_eq ns (codes "locked")))

disable_network_policies-all_decided_example :
    (disable_network_policies can_create values []).0 ≡ all_decided can_create values
disable_network_policies-all_decided_example =
    disable_network_policies-all_decided can_create values [] tt

asked_once : (disable_network_policies can_create values []).1 ≡ codes "locked" ∷ []
unfolding disable_network_policies disable_section namespace_to_check get str_eq check_once look_up
asked_once = refl
