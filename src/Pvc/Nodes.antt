-- ===== src/Pvc/Nodes.antt =====
-- What the node constraints of a claim allow.
use pv_migrate.Common.{
  ◌||◌, ◌&&◌, Bool, true, false, List, [], ◌∷◌, Option, none, some, Bytes, codes, str_eq,
  str_eq_iff, str_eq_refl, ◌≡◌, refl, arith, Bool-cases, inl, inr,
}
use pv_migrate.Pvc.{
  elem, keep_allowed, intersect_nodes, FieldMatch, Affinity, required, preferred, name_matches,
  require_nodes, build_affinity,
}

-- The nodes that a constraint allows; no constraint allows every node.
abbrev pub allows : Option (List Bytes) → Bytes → Bool
allows none n = true
allows (some nodes) n = elem n nodes

elem-keep_allowed :
    (n : Bytes) (first second : List Bytes)
    → elem n (keep_allowed first second) ≡ (elem n first && elem n second)
unfolding keep_allowed
elem-keep_allowed n first [] = ground arith
elem-keep_allowed n first (m ∷ second) = elim (Bool-cases (str_eq n m)) [
  | inl e ↦ ground (arith, str_eq_iff n m, elem-keep_allowed n first second)
  | inr e ↦ ground (arith, elem-keep_allowed n first second)
]

-- A node is in the intersection exactly if both constraints allow it, whichever of them is absent.
pub allows-intersect_nodes :
    (first second : Option (List Bytes)) (n : Bytes)
    → allows (intersect_nodes first second) n ≡ (allows first n && allows second n)
unfolding intersect_nodes
allows-intersect_nodes none second n = refl
allows-intersect_nodes (some first) none n = ground arith
allows-intersect_nodes (some first) (some second) n = elem-keep_allowed n first second

-- How the scheduler reads the terms of a required affinity: a node passes if one of them has its
-- name among its values.
abbrev passes_term : FieldMatch → Bytes → Bool
passes_term t n =
    str_eq t.key (codes "metadata.name") && (str_eq t.operator (codes "In") && elem n t.values)

abbrev passes_any : List FieldMatch → Bytes → Bool
passes_any [] n = false
passes_any (t ∷ ts) n = passes_term t n || passes_any ts n

-- The nodes that an affinity lets a pod be scheduled on; a preference refuses none.
abbrev pub schedules : Option Affinity → Bytes → Bool
schedules none n = true
schedules (some (preferred weight t)) n = true
schedules (some (required ts)) n = passes_any ts n

passes-name_matches :
    (nodes : List Bytes) (n : Bytes) → passes_any (name_matches nodes) n ≡ elem n nodes
unfolding name_matches
passes-name_matches [] n = refl
passes-name_matches (m ∷ nodes) n = ground (
  arith,
  passes-name_matches nodes n,
  str_eq_refl (codes "metadata.name"),
  str_eq_refl (codes "In"),
)

-- The affinity of a claim lets a pod on exactly the nodes that its constraint allows, mounted or not.
pub schedules-build_affinity :
    (mounted_node : Bytes) (pinned : Option (List Bytes)) (n : Bytes)
    → schedules (build_affinity mounted_node pinned) n ≡ allows pinned n
unfolding build_affinity require_nodes
schedules-build_affinity m none n = ground arith
schedules-build_affinity m (some nodes) n = passes-name_matches nodes n
